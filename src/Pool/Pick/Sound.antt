-- ===== src/Pool/Pick/Sound.antt =====
-- A member that is picked is one that may be used, and picking never panics.
use proxyfleet.Base.{
  ℕ, zero, suc, ◌%◌, Bool, true, false, not, ◌&&◌, ◌==◌, Option, none, some, List, [], ◌∷◌, length,
  Bytes, is_nil, ◌≡◌, refl, sym, ap, if_cases, arith, Option-cases, inl, inr, subst,
}
use proxyfleet.Config.Jobs.{elem}
use proxyfleet.Pool.Eligible.{contains, get_elem?, EligiblePool}
use proxyfleet.Pool.Eligible.Index.{IsValid}
use proxyfleet.Pool.Eligible.Setting.{set_member_eligible-Set}
use proxyfleet.Pool.Selection.{Candidate}
use proxyfleet.Pool.Selection.Fairness.{IsIn, here, there, IsPick, select-IsPick}
use proxyfleet.Pool.Sticky.{StickyCache, get}
use proxyfleet.Pool.Pick.{
  Node, State, Mode, random, balance, latency, round_robin, Ask, Picked, picked, refused, find_id,
  find_tag, eligible_set, is_flagged, member_eligible_for_profile, candidate_of, candidates_of,
  candidate_at, select_round_robin, next_count, select_by, node_of, select_eligible_member, served,
  after_select, select_healthy_member, use_or_forget, use_tag, sticky_member, found_or, give_up,
  select_again, pick_behind_sticky, pick_shared,
}

-- What a pool keeps to: it is open, and its two indexes are well formed.
pub record ValidPool (p : EligiblePool) : Type 0 where
  pub still_open : p.closed ≡ false
  pub tcp : IsValid p.eligible_tcp
  pub udp : IsValid p.eligible_udp

-- A candidate that is in the list and eligible, if there is one.
abbrev pub Chosen : List Candidate → Option Candidate → Type 0
Chosen cs none = Unit
Chosen cs (some c) = IsIn c cs × (c.eligible ≡ true)

IsPick-Chosen : (cs : List Candidate) (o : Option Candidate) → IsPick cs o → Chosen cs o
IsPick-Chosen cs none h = tt
IsPick-Chosen cs (some c) h = h

candidate_at-IsIn :
    (i : ℕ) (cs : List Candidate) (c : Candidate) → candidate_at i cs ≡ some c → IsIn c cs
candidate_at-IsIn i [] c h = absurd (ground (arith, h))
candidate_at-IsIn zero (x ∷ cs) c h = subst (λ y. IsIn y (x ∷ cs)) (ground (arith, h)) here
candidate_at-IsIn (suc i) (x ∷ cs) c h = there (candidate_at-IsIn i cs c h)

pub round_robin-Chosen :
    (left counter : ℕ) (cs : List Candidate) → Chosen cs (select_round_robin left counter cs).0
unfolding select_round_robin
round_robin-Chosen zero counter cs = tt
round_robin-Chosen (suc left) counter cs =
    elim (Option-cases (candidate_at (counter % length cs) cs)) [
      | inl e ↦ rw e (round_robin-Chosen left (next_count counter) cs)
      | inr (c, e) ↦ rw e (
          if_cases (λ (r : Option Candidate × ℕ). Chosen cs r.0) c.eligible
            (λ able. (candidate_at-IsIn (counter % length cs) cs c e, able))
            (λ _. round_robin-Chosen left (next_count counter) cs))
    ]

select_by-Chosen :
    (m : Mode) (start counter : ℕ) (cs : List Candidate)
    → Chosen cs (select_by m start counter cs).0
unfolding select_by
select_by-Chosen random start counter cs = IsPick-Chosen cs _ (select-IsPick start 0 0 cs).0
select_by-Chosen balance start counter cs = IsPick-Chosen cs _ (select-IsPick start 0 0 cs).1
select_by-Chosen (latency tolerance size) start counter cs =
    IsPick-Chosen cs _ (select-IsPick start tolerance size cs).2
select_by-Chosen round_robin start counter cs = round_robin-Chosen (length cs) counter cs

-- A member that the dial may use, as far as the index, the profile and the earlier attempts go.
pub record Fit (a : Ask) (n : Node) (p : EligiblePool) : Type 0 where
  pub listed : contains n.id (eligible_set a.udp p) ≡ true
  pub untried : elem n.tag a.tried ≡ false
  pub allowed : n.allowed ≡ true

-- A member that may be used: fit, and not blocked.
pub record Usable (a : Ask) (n : Node) (p : EligiblePool) : Type 0 where
  pub fit : Fit a n p
  pub unblocked : is_flagged n ≡ false

candidate_of_id :
    (tried : List Bytes) (id : ℕ) (o : Option Node) → (candidate_of tried id o).id ≡ id
candidate_of_id tried id none = refl
candidate_of_id tried id (some n) = refl

find_id_id : (id : ℕ) (nodes : List Node) (n : Node) → find_id id nodes ≡ some n → n.id ≡ id
find_id_id id [] n = λ h. absurd (ground (arith, h))
find_id_id id (m ∷ nodes) n =
    if_cases (λ (o : Option Node). o ≡ some n → n.id ≡ id) (m.id == id)
      (λ e h. ground (arith, e, h)) (λ _ h. find_id_id id nodes n h)

-- A candidate in the list stands for an item of the index.
record Listed (tried : List Bytes) (nodes : List Node) (ids : List ℕ) (c : Candidate) : Type 0 where
  place : ℕ
  at : get_elem? place ids ≡ some c.id
  read : c ≡ candidate_of tried c.id (find_id c.id nodes)

candidates-Listed :
    (tried : List Bytes) (nodes : List Node) (ids : List ℕ) (c : Candidate)
    → IsIn c (candidates_of tried nodes ids)
    → Listed tried nodes ids c
candidates-Listed tried nodes [] c m = elim m [ ]
candidates-Listed tried nodes (id ∷ ids) c here =
    let same = sym (candidate_of_id tried id (find_id id nodes)) in
    record {
      place = 0;
      at = ap some same;
      read = ap (λ k. candidate_of tried k (find_id k nodes)) same;
    }
candidates-Listed tried nodes (id ∷ ids) c (there m) =
    let rest = candidates-Listed tried nodes ids c m in
    record { place = suc rest.place; at = rest.at; read = rest.read }

eligible_set-IsValid : (udp : Bool) (p : EligiblePool) → ValidPool p → IsValid (eligible_set udp p)
eligible_set-IsValid true p v = v.udp
eligible_set-IsValid false p v = v.tcp

abbrev FitIfSome : Ask → EligiblePool → Option Node → Type 0
FitIfSome a p none = Unit
FitIfSome a p (some n) = Fit a n p

node_of-Fit :
    (a : Ask) (nodes : List Node) (p : EligiblePool) (o : Option Candidate)
    → ValidPool p
    → Chosen (candidates_of a.tried nodes (eligible_set a.udp p).items) o
    → FitIfSome a p (node_of nodes o)
node_of-Fit a nodes p none v h = tt
node_of-Fit a nodes p (some c) v h =
    let l = candidates-Listed a.tried nodes (eligible_set a.udp p).items c h.0 in
    elim (Option-cases (find_id c.id nodes)) [
      | inl e ↦ rw e tt
      | inr (n, e) ↦ rw e (record {
        listed = ground (
          arith,
          (eligible_set-IsValid a.udp p v).indexed c.id l.place l.at,
          find_id_id c.id nodes n e,
        );
        untried = ground (arith, l.read, e, h.1);
        allowed = ground (arith, l.read, e, h.1);
      })
    ]

-- A selection that did not panic, and what it found.
abbrev Selected : Ask → Option (Option Node × State) → Type 0
Selected a none = ⊥
Selected a (some (none, st)) = ValidPool st.pool
Selected a (some (some n, st)) = Usable a n st.pool × ValidPool st.pool

after_select-Selected :
    (a : Ask) (again : State → Option (Option Node × State)) (o : Option Node) (st : State)
    → ((u : State) → ValidPool u.pool → Selected a (again u))
    → ValidPool st.pool
    → FitIfSome a st.pool o
    → Selected a (after_select again (o, st))
after_select-Selected a again none st more v f = v
after_select-Selected a again (some n) st more v f =
    let removed = set_member_eligible-Set (served n) false st.pool v.still_open v.tcp v.udp in
    if_cases (Selected a) (not (is_flagged n))
      (λ e. (record { fit = f; unblocked = ground (arith, e) }, v))
      (λ _.
        rw removed.answer
          (more _ (record { still_open = refl; tcp = removed.tcp.valid; udp = removed.udp.valid })))

select_healthy-Selected :
    (left : ℕ) (a : Ask) (nodes : List Node) (st : State)
    → ValidPool st.pool
    → Selected a (select_healthy_member left a nodes st)
unfolding select_healthy_member select_eligible_member
select_healthy-Selected zero a nodes st v = v
select_healthy-Selected (suc left) a nodes st v =
    after_select-Selected a (select_healthy_member left a nodes) _ _
      (λ u w. select_healthy-Selected left a nodes u w) v
      (node_of-Fit a nodes st.pool _ v (select_by-Chosen a.mode (a.starts left) st.rr_counter _))

-- What a pick answers: a member that may be used, or none; never a panic.
abbrev pub Answer : Ask → Option (Picked × State) → Type 0
Answer a none = ⊥
Answer a (some (picked n, st)) = Usable a n st.pool × ValidPool st.pool
Answer a (some (refused e, st)) = ValidPool st.pool

found_or-Answer :
    (a : Ask) (without : State → Option (Picked × State)) (o : Option (Option Node × State))
    → ((st : State) → ValidPool st.pool → Answer a (without st))
    → Selected a o
    → Answer a (found_or a without o)
found_or-Answer a without none w h = h
found_or-Answer a without (some (none, st)) w h = w st h
found_or-Answer a without (some (some n, st)) w h = h

abbrev pub ValidRelease : Option (List Node × EligiblePool) → Type 0
ValidRelease none = Unit
ValidRelease (some (nodes, p)) = ValidPool p

select_again-Answer :
    (a : Ask) (released : Option (List Node × EligiblePool)) (st : State)
    → ValidRelease released
    → ValidPool st.pool
    → Answer a (select_again a released st)
select_again-Answer a none st r v = v
select_again-Answer a (some (nodes, p)) st r v =
    found_or-Answer a give_up _ (λ _ w. w)
      (select_healthy-Selected 2 a nodes (record st { pool = p }) r)

-- The member that the affinity cache names.
abbrev UsableIfSome : Ask → EligiblePool → Option Node → Type 0
UsableIfSome a p none = Unit
UsableIfSome a p (some n) = Usable a n p

use_or_forget-Usable :
    (a : Ask) (p : EligiblePool) (o : Option Node) (c : StickyCache)
    → UsableIfSome a p (use_or_forget a p o c).0
unfolding member_eligible_for_profile
use_or_forget-Usable a p none c = tt
use_or_forget-Usable a p (some n) c =
    if_cases (λ (r : Option Node × StickyCache). UsableIfSome a p r.0)
      (not (elem n.tag a.tried) && member_eligible_for_profile a.udp n p)
      (λ e. record {
        fit = record {
          listed = ground (arith, e);
          untried = ground (arith, e);
          allowed = ground (arith, e);
        };
        unblocked = ground (arith, e);
      })
      (λ _. tt)

use_tag-Usable :
    (a : Ask) (p : EligiblePool) (nodes : List Node) (r : Option Bytes × StickyCache)
    → UsableIfSome a p (use_tag a p nodes r).0
use_tag-Usable a p nodes (none, c) = tt
use_tag-Usable a p nodes (some tag, c) = use_or_forget-Usable a p (find_tag tag nodes) c

sticky_member-Usable :
    (a : Ask) (p : EligiblePool) (nodes : List Node) (o : Option StickyCache)
    → UsableIfSome a p (sticky_member a p nodes o).0
sticky_member-Usable a p nodes none = tt
sticky_member-Usable a p nodes (some c) =
    if_cases (λ (r : Option Node × Option StickyCache). UsableIfSome a p r.0) (is_nil a.sticky_key)
      (λ _. tt) (λ _. use_tag-Usable a p nodes (get a.sticky_key a.now c))

behind_sticky-Answer :
    (a : Ask) (released : Option (List Node × EligiblePool)) (nodes : List Node) (st : State)
    (r : Option Node × Option StickyCache)
    → ValidRelease released
    → ValidPool st.pool
    → UsableIfSome a st.pool r.0
    → Answer a (pick_behind_sticky a released nodes st r)
behind_sticky-Answer a released nodes st (some n, sticky) rv v u = (u, v)
behind_sticky-Answer a released nodes st (none, sticky) rv v u =
    found_or-Answer a (select_again a released) _ (λ w wv. select_again-Answer a released w rv wv)
      (select_healthy-Selected 2 a nodes (record st { sticky = sticky }) v)

-- A dial through the shared pool gets a member that may be used, or none: it is in the index of the
-- network asked for, was not tried before, is allowed by the client's profile and not marked as
-- blocked. This holds in random, balanced, latency and round-robin mode, whether the member comes
-- from the affinity cache, from one of the selections or from the selection behind a release of
-- automatic bans; the indexes stay well formed, and nothing panics on the way.
pub pick_shared-Answer :
    (a : Ask) (released : Option (List Node × EligiblePool)) (nodes : List Node) (st : State)
    → ValidPool st.pool
    → ValidRelease released
    → Answer a (pick_shared a released nodes st)
unfolding pick_shared
pick_shared-Answer a released nodes st v rv =
    behind_sticky-Answer a released nodes st (sticky_member a st.pool nodes st.sticky) rv v
      (sticky_member-Usable a st.pool nodes st.sticky)
