-- ===== src/Pool/Pick/Affinity.antt =====
-- A client comes back to the member that it was given.
use proxyfleet.Base.{
  ℕ, ◌+◌, ◌<◌, true, not, ◌&&◌, Option, none, some, List, [], ◌∷◌, Bytes, is_nil, ◌≡◌, ◌≢◌, refl,
  sym, ap, ◌∙◌, if_cases, arith, subst,
}
use proxyfleet.Config.Jobs.{elem}
use proxyfleet.Pool.Eligible.{EligiblePool}
use proxyfleet.Pool.Sticky.{StickyCache, get}
use proxyfleet.Pool.Pick.{
  Node, State, Ask, Picked, picked, refused, find_tag, member_eligible_for_profile, use_or_forget,
  use_tag, sticky_member, pick_behind_sticky, pick_shared,
}
use proxyfleet.Pool.Pick.Memory.{Cached, Bound, Remembered, pick_shared-Remembered}

-- The look-up of a client whose binding names a member that may be used.
use_tag_found :
    (again : Ask) (p : EligiblePool) (nodes : List Node) (n : Node) (tag : Bytes)
    (r : Option Bytes × StickyCache)
    → r.0 ≡ some tag
    → find_tag tag nodes ≡ some n
    → (not (elem n.tag again.tried) && member_eligible_for_profile again.udp n p) ≡ true
    → (use_tag again p nodes r).0 ≡ some n
use_tag_found again p nodes n tag (none, c) e f g = absurd (ground (arith, e))
use_tag_found again p nodes n tag (some t, c) e f g =
    ap (λ (o : Option Node). (use_or_forget again p o c).0)
      (ap (λ s. find_tag s nodes) (tag_of t tag e) ∙ f)
    ∙ rw g refl
  where
    tag_of : (t tag : Bytes) → some t ≡ some tag → t ≡ tag
    tag_of t tag e = ground (arith, e)

sticky_found :
    (again : Ask) (p : EligiblePool) (nodes : List Node) (n : Node) (tag : Bytes) (c : StickyCache)
    → again.sticky_key ≢ []
    → (get again.sticky_key again.now c).0 ≡ some tag
    → find_tag tag nodes ≡ some n
    → (not (elem n.tag again.tried) && member_eligible_for_profile again.udp n p) ≡ true
    → (sticky_member again p nodes (some c)).0 ≡ some n
sticky_found again p nodes n tag c k e f g =
    if_cases (λ (r : Option Node × Option StickyCache). r.0 ≡ some n) (is_nil again.sticky_key)
      (λ empty. absurd (k (nil_of again.sticky_key empty)))
      (λ _. use_tag_found again p nodes n tag (get again.sticky_key again.now c) e f g)
  where
    nil_of : (s : Bytes) → is_nil s ≡ true → s ≡ []
    nil_of [] e = refl
    nil_of (x ∷ s) e = absurd (ground (arith, e))

abbrev pub member_of : Option (Picked × State) → Option Node
member_of none = none
member_of (some (picked n, st)) = some n
member_of (some (refused e, st)) = none

behind_found :
    (again : Ask) (released : Option (List Node × EligiblePool)) (nodes : List Node) (st : State)
    (n : Node) (r : Option Node × Option StickyCache)
    → r.0 ≡ some n
    → member_of (pick_behind_sticky again released nodes st r) ≡ some n
behind_found again released nodes st n (none, o) e = absurd (ground (arith, e))
behind_found again released nodes st n (some m, o) e = e

again_found :
    (ttl : ℕ) (a again : Ask) (released : Option (List Node × EligiblePool)) (nodes : List Node)
    (st : State) (n m : Node) (o : Option StickyCache)
    → st.sticky ≡ o
    → Bound ttl a n o
    → a.sticky_key ≢ []
    → again.sticky_key ≡ a.sticky_key
    → again.now < a.now + ttl
    → find_tag n.tag nodes ≡ some m
    → (not (elem m.tag again.tried) && member_eligible_for_profile again.udp m st.pool) ≡ true
    → member_of (pick_shared again released nodes st) ≡ some m
unfolding pick_shared
again_found ttl a again released nodes st n m none e b k same early f g = absurd b
again_found ttl a again released nodes st n m (some c) e b k same early f g =
    behind_found again released nodes st m (sticky_member again st.pool nodes st.sticky) (
      ap (λ (o : Option StickyCache). (sticky_member again st.pool nodes o).0) e
      ∙ sticky_found again st.pool nodes m n.tag c (λ empty. k (sym same ∙ empty))
          (ap (λ key. (get key again.now c).0) same ∙ b again.now early) f g)

-- A client comes back: when a client with a name has got a member with a tag, by the affinity cache or
-- by selection, and asks again within the time to live with nothing in between, it gets the member
-- of that tag again, if that one still may be used: it serves the network asked for now, stands in
-- its index, is not marked as blocked, allowed by the profile and not tried before.
pub pick_shared-pick_shared :
    (ttl : ℕ) (a again : Ask) (released released_again : Option (List Node × EligiblePool))
    (nodes later_nodes : List Node) (st st' : State) (n m : Node)
    → Cached ttl st.sticky
    → a.sticky_key ≢ []
    → pick_shared a released nodes st ≡ some (picked n, st')
    → n.tag ≢ []
    → again.sticky_key ≡ a.sticky_key
    → again.now < a.now + ttl
    → find_tag n.tag later_nodes ≡ some m
    → (not (elem m.tag again.tried) && member_eligible_for_profile again.udp m st'.pool) ≡ true
    → member_of (pick_shared again released_again later_nodes st') ≡ some m
pick_shared-pick_shared ttl a again released released_again nodes later_nodes st st' n m v k e t
      same early f g =
    let bound : Bound ttl a n st'.sticky =
      subst (Remembered ttl a) e (pick_shared-Remembered ttl a k released nodes st v) t in
    again_found ttl a again released_again later_nodes st' n m st'.sticky refl bound k same early f
      g
