-- ===== src/Examples/Picking.antt =====
-- A dial through a pool of two members.
use proxyfleet.Base.{
  ℕ, ◌≡◌, ◌≢◌, Bool, true, false, refl, Option, none, some, List, [], ◌∷◌, Bytes, arith, codes, pos,
}
use proxyfleet.Pool.Eligible.{EligiblePool, MemberSet, new_member_set, add}
use proxyfleet.Pool.Eligible.Index.{new_member_set-IsValid, add-IsValid}
use proxyfleet.Pool.Sticky.{StickyCache, new_sticky_cache, get, set, remove}
use proxyfleet.Pool.Sticky.Laws.{new-IsValid}
use proxyfleet.Pool.Member.State.{Member}
use proxyfleet.Pool.Member.Retire.{fresh}
use proxyfleet.Pool.Release.{
  Slot, Each, KeepsHolds, release_if_all_blacklisted, release_if_all_blacklisted-Each,
}
use proxyfleet.Pool.Pick.{
  Node, State, Ask, balance, picked, pick_shared, member_eligible_for_profile,
  select_healthy_member, select_eligible_member, select_by,
}
use proxyfleet.Pool.Pick.Sound.{ValidPool, Answer, pick_shared-Answer}
use proxyfleet.Pool.Pick.Affinity.{member_of, pick_shared-pick_shared}

abbrev node : ℕ → Bytes → Bool → Node
node id tag flagged = record {
  id = id;
  tag = tag;
  tcp = true;
  udp = false;
  shared = true;
  blacklisted_fast = flagged;
  allowed = true;
  active = id;
  latency = 0;
}

abbrev two_nodes : List Node
two_nodes = node 1 (codes "a") true ∷ node 2 (codes "b") false ∷ []

abbrev both : MemberSet
both = add 2 (add 1 new_member_set)

abbrev pool : EligiblePool
pool = record {
  closed = false;
  eligible_tcp = both;
  eligible_udp = new_member_set;
  eligible_version = 2;
}

abbrev start_state : State
start_state = record {
  pool = pool;
  rr_counter = 0;
  sticky = some (new_sticky_cache (pos 60) (pos 8));
}

abbrev ask : ℕ → Ask
ask now = record {
  udp = false;
  tried = [];
  sticky_key = codes "alice";
  now = now;
  mode = balance;
  starts = λ left. 0;
}

pool-ValidPool : ValidPool pool
pool-ValidPool = record {
  still_open = refl;
  tcp = add-IsValid 2 _ (add-IsValid 1 _ new_member_set-IsValid);
  udp = new_member_set-IsValid;
}

-- The first member is marked as blocked, so the second attempt picks the other one.
pick_shared-Answer_example : Answer (ask 5) (pick_shared (ask 5) none two_nodes start_state)
pick_shared-Answer_example = pick_shared-Answer (ask 5) none two_nodes start_state pool-ValidPool tt

-- That member has left the index, and the client is bound to the other one.
abbrev picked_state : State
picked_state = record {
  pool = record {
    closed = false;
    eligible_tcp = record { items = 2 ∷ []; index = (2, 0) ∷ [] };
    eligible_udp = new_member_set;
    eligible_version = 3;
  };
  rr_counter = 0;
  sticky = some (record {
    ttl = 60;
    max_entries = 8;
    items = (codes "alice", record { tag = codes "b"; expires_at = 65 }) ∷ [];
  });
}

picked_b :
    pick_shared (ask 5) none two_nodes start_state
    ≡ some (picked (node 2 (codes "b") false), picked_state)
unfolding pick_shared select_healthy_member select_eligible_member select_by get set
    proxyfleet.Base.bytes_discrete proxyfleet.Base.lookup proxyfleet.Base.insert
    proxyfleet.Base.delete new_sticky_cache proxyfleet.Pool.Selection.select_balanced
    proxyfleet.Pool.Selection.first_two proxyfleet.Pool.Selection.visit_from
    proxyfleet.Pool.Selection.less_loaded proxyfleet.Pool.Selection.first_eligible add
    new_member_set proxyfleet.Pool.Eligible.set_member_eligible proxyfleet.Pool.Eligible.remove
    proxyfleet.Pool.Eligible.swap_out proxyfleet.Pool.Sticky.evict
picked_b = refl

pick_shared-pick_shared_example :
    member_of (pick_shared (ask 30) none two_nodes picked_state) ≡ some (node 2 (codes "b") false)
unfolding member_eligible_for_profile new_sticky_cache proxyfleet.Base.bytes_discrete
    proxyfleet.Base.lookup
pick_shared-pick_shared_example =
    pick_shared-pick_shared 60 (ask 5) (ask 30) none none two_nodes two_nodes start_state
      picked_state (node 2 (codes "b") false) (node 2 (codes "b") false)
      (new-IsValid (pos 60) (pos 8), refl) (λ e. absurd (ground (arith, e))) picked_b
      (λ e. absurd (ground (arith, e))) refl (omega arith) refl refl

-- One member is banned by hand, the other one by its failures.
abbrev by_hand : Member
by_hand = record (fresh (codes "a")) {
  blacklisted = true;
  blacklisted_until = 100;
  manual_blacklist = true;
  blacklisted_fast = true;
}

abbrev by_failures : Member
by_failures = record (fresh (codes "b")) {
  blacklisted = true;
  blacklisted_until = 100;
  blacklisted_fast = true;
}

abbrev slot : Member → Slot
slot m = record {
  shared = some m;
  saved_at = 20;
  saved_again = 20;
  release = record { decided = 21; noted = 21; saved = 21 };
}

release_if_all_blacklisted-Each_example :
    Each
      (KeepsHolds 20)
      (slot by_hand ∷ slot by_failures ∷ [])
      (release_if_all_blacklisted false true 20 (slot by_hand ∷ slot by_failures ∷ [])).1
release_if_all_blacklisted-Each_example =
    release_if_all_blacklisted-Each false true 20 (slot by_hand ∷ slot by_failures ∷ [])
