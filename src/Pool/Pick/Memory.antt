-- ===== src/Pool/Pick/Memory.antt =====
-- What a pick leaves in the affinity cache.
use proxyfleet.Base.{
  ℕ, zero, suc, ◌+◌, ◌<◌, true, false, not, ◌&&◌, Option, none, some, List, [], ◌∷◌, Bytes, is_nil,
  ◌≡◌, ◌≢◌, refl, sym, ap, ◌∙◌, if_cases, arith, bytes_eq, subst,
}
use proxyfleet.Config.Jobs.{elem}
use proxyfleet.Pool.Eligible.{EligiblePool, set_member_eligible}
use proxyfleet.Pool.Sticky.{StickyCache, get, set, remove}
use proxyfleet.Pool.Sticky.Laws.{
  IsValid, get-set, get-IsValid, remove-IsValid, get_refreshed, get_ttl, remove_ttl,
}
use proxyfleet.Pool.Pick.{
  Node, State, Ask, Picked, picked, refused, find_tag, is_flagged, served, without_member,
  after_select, select_eligible_member, member_eligible_for_profile, select_healthy_member,
  remember, use_or_forget, use_tag, sticky_member, found_or, give_up, select_again,
  pick_behind_sticky, pick_shared,
}

-- A valid cache with this time to live.
abbrev pub Cached : ℕ → Option StickyCache → Type 0
Cached ttl none = ⊥
Cached ttl (some c) = IsValid c × (c.ttl ≡ ttl)

-- The cache names this member for the client until the binding runs out.
abbrev pub Bound : ℕ → Ask → Node → Option StickyCache → Type 0
Bound ttl a n none = ⊥
Bound ttl a n (some c) =
    (later : ℕ) → later < a.now + ttl → (get a.sticky_key later c).0 ≡ some n.tag

pub nil_of : (s : Bytes) → is_nil s ≡ true → s ≡ []
nil_of [] e = refl
nil_of (x ∷ s) e = absurd (ground (arith, e))

set-Bound :
    (ttl : ℕ) (a : Ask) (n : Node) (c : StickyCache)
    → a.sticky_key ≢ []
    → n.tag ≢ []
    → Cached ttl (some c)
    → Bound ttl a n (some (set a.sticky_key n.tag a.now c))
set-Bound ttl a n c k t v later early =
    get-set a.sticky_key n.tag a.now later c v.0 k t ∙ ground (arith, v.1, early)

remember-Bound :
    (ttl : ℕ) (a : Ask) (n : Node) (o : Option StickyCache)
    → a.sticky_key ≢ []
    → n.tag ≢ []
    → Cached ttl o
    → Bound ttl a n (remember a n o)
remember-Bound ttl a n none k t v = v
remember-Bound ttl a n (some c) k t v =
    if_cases (Bound ttl a n) (is_nil a.sticky_key) (λ e. absurd (k (nil_of a.sticky_key e)))
      (λ _. set-Bound ttl a n c k t v)
  where
    nil_of : (s : Bytes) → is_nil s ≡ true → s ≡ []
    nil_of [] e = refl
    nil_of (x ∷ s) e = absurd (ground (arith, e))

-- What a pick leaves in the cache.
abbrev pub Remembered : ℕ → Ask → Option (Picked × State) → Type 0
Remembered ttl a none = Unit
Remembered ttl a (some (picked n, st)) = n.tag ≢ [] → Bound ttl a n st.sticky
Remembered ttl a (some (refused e, st)) = Unit

-- A selection leaves the cache alone.
abbrev LeavesCache : Option StickyCache → Option (Option Node × State) → Type 0
LeavesCache o none = Unit
LeavesCache o (some (n, st)) = st.sticky ≡ o

without_member-Leaves :
    (o : Option StickyCache) (again : State → Option (Option Node × State)) (st : State)
    (p : Option EligiblePool)
    → ((u : State) → u.sticky ≡ o → LeavesCache o (again u))
    → st.sticky ≡ o
    → LeavesCache o (without_member again st p)
without_member-Leaves o again st none h e = tt
without_member-Leaves o again st (some p) h e = h (record st { pool = p }) e

after_select-Leaves :
    (o : Option StickyCache) (again : State → Option (Option Node × State)) (n : Option Node)
    (st : State)
    → ((u : State) → u.sticky ≡ o → LeavesCache o (again u))
    → st.sticky ≡ o
    → LeavesCache o (after_select again (n, st))
after_select-Leaves o again none st h e = e
after_select-Leaves o again (some n) st h e =
    if_cases (LeavesCache o) (not (is_flagged n)) (λ _. e)
      (λ _. without_member-Leaves o again st (set_member_eligible (served n) false st.pool) h e)

select_healthy-Leaves :
    (left : ℕ) (a : Ask) (nodes : List Node) (st : State) (o : Option StickyCache)
    → st.sticky ≡ o
    → LeavesCache o (select_healthy_member left a nodes st)
unfolding select_healthy_member select_eligible_member
select_healthy-Leaves zero a nodes st o e = e
select_healthy-Leaves (suc left) a nodes st o e =
    after_select-Leaves o (select_healthy_member left a nodes) _ _
      (λ u f. select_healthy-Leaves left a nodes u o f) e

module _ (ttl : ℕ) (a : Ask) (k : a.sticky_key ≢ []) where
  found_or-Remembered :
      (without : State → Option (Picked × State)) (s : Option StickyCache)
      (o : Option (Option Node × State))
      → Cached ttl s
      → ((st : State) → st.sticky ≡ s → Remembered ttl a (without st))
      → LeavesCache s o
      → Remembered ttl a (found_or a without o)
  found_or-Remembered without s none v w h = tt
  found_or-Remembered without s (some (none, st)) v w h = w st h
  found_or-Remembered without s (some (some n, st)) v w h =
      λ t. remember-Bound ttl a n st.sticky k t (subst (Cached ttl) (sym h) v)

  select_again-Remembered :
      (released : Option (List Node × EligiblePool)) (st : State) (s : Option StickyCache)
      → Cached ttl s
      → st.sticky ≡ s
      → Remembered ttl a (select_again a released st)
  select_again-Remembered none st s v e = tt
  select_again-Remembered (some (nodes, p)) st s v e =
      found_or-Remembered give_up s _ v (λ _ _. tt)
        (select_healthy-Leaves 2 a nodes (record st { pool = p }) s e)

  -- The cache behind the look-up, with the member that it named.
  abbrev StickyOk : Option Node × Option StickyCache → Type 0
  StickyOk (none, o) = Cached ttl o
  StickyOk (some n, o) = n.tag ≢ [] → Bound ttl a n o

  behind_sticky-Remembered :
      (released : Option (List Node × EligiblePool)) (nodes : List Node) (st : State)
      (r : Option Node × Option StickyCache)
      → StickyOk r
      → Remembered ttl a (pick_behind_sticky a released nodes st r)
  behind_sticky-Remembered released nodes st (some n, o) h = h
  behind_sticky-Remembered released nodes st (none, o) h =
      found_or-Remembered (select_again a released) o _ h
        (λ u e. select_again-Remembered released u o h e)
        (select_healthy-Leaves 2 a nodes (record st { sticky = o }) o refl)

  -- The cache names this tag for the client until the binding runs out.
  abbrev Names : Bytes → StickyCache → Type 0
  Names tag c = (later : ℕ) → later < a.now + ttl → (get a.sticky_key later c).0 ≡ some tag

  find_tag_tag :
      (tag : Bytes) (nodes : List Node) (n : Node) → find_tag tag nodes ≡ some n → n.tag ≡ tag
  find_tag_tag tag [] n = λ h. absurd (ground (arith, h))
  find_tag_tag tag (m ∷ nodes) n =
      if_cases (λ (o : Option Node). o ≡ some n → n.tag ≡ tag) (bytes_eq m.tag tag)
        (λ e h. ground (arith, e, h)) (λ _ h. find_tag_tag tag nodes n h)

  removed : (c : StickyCache) → Cached ttl (some c) → Cached ttl (some (remove a.sticky_key c))
  removed c v = (remove-IsValid a.sticky_key c v.0, remove_ttl a.sticky_key c ∙ v.1)

  use_or_forget-Ok :
      (p : EligiblePool) (tag : Bytes) (o : Option Node) (c : StickyCache)
      → Cached ttl (some c)
      → ((n : Node) → o ≡ some n → n.tag ≡ tag)
      → (tag ≢ [] → Names tag c)
      → StickyOk ((use_or_forget a p o c).0, some (use_or_forget a p o c).1)
  use_or_forget-Ok p tag none c v same named = removed c v
  use_or_forget-Ok p tag (some n) c v same named =
      if_cases (λ (r : Option Node × StickyCache). StickyOk (r.0, some r.1))
        (not (elem n.tag a.tried) && member_eligible_for_profile a.udp n p)
        (λ _ t later early.
          let e = same n refl in named (λ empty. t (e ∙ empty)) later early ∙ ap some (sym e))
        (λ _. removed c v)

  use_tag-Ok :
      (p : EligiblePool) (nodes : List Node) (r : Option Bytes × StickyCache)
      → Cached ttl (some r.1)
      → ((tag : Bytes) → r.0 ≡ some tag → tag ≢ [] → Names tag r.1)
      → StickyOk ((use_tag a p nodes r).0, some (use_tag a p nodes r).1)
  use_tag-Ok p nodes (none, c) v named = v
  use_tag-Ok p nodes (some tag, c) v named =
      use_or_forget-Ok p tag (find_tag tag nodes) c v (λ n e. find_tag_tag tag nodes n e)
        (named tag refl)

  sticky_member-Ok :
      (p : EligiblePool) (nodes : List Node) (o : Option StickyCache)
      → Cached ttl o
      → StickyOk (sticky_member a p nodes o)
  sticky_member-Ok p nodes none v = v
  sticky_member-Ok p nodes (some c) v =
      let looked = get a.sticky_key a.now c in
      if_cases StickyOk (is_nil a.sticky_key) (λ _. v)
        (λ _.
          use_tag-Ok p nodes looked
            (get-IsValid a.sticky_key a.now c v.0, get_ttl a.sticky_key a.now c ∙ v.1)
            (λ tag e t later early.
              ap (λ (d : StickyCache). (get a.sticky_key later d).0)
                (get_refreshed a.sticky_key tag a.now c t e)
              ∙ get-set a.sticky_key tag a.now later c v.0 k t
              ∙ ground (arith, v.1, early)))

  pub pick_shared-Remembered :
      (released : Option (List Node × EligiblePool)) (nodes : List Node) (st : State)
      → Cached ttl st.sticky
      → Remembered ttl a (pick_shared a released nodes st)
  unfolding pick_shared
  pick_shared-Remembered released nodes st v =
      behind_sticky-Remembered released nodes st (sticky_member a st.pool nodes st.sticky)
        (sticky_member-Ok st.pool nodes st.sticky v)
