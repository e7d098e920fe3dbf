-- ===== src/Pool/Eligible.antt =====
-- internal/outbound/pool/pool.go: the index of the members that may be selected, `memberSet`, and
-- `setMemberEligible`, which keeps one for TCP and one for UDP. A member stands for its pointer. An
-- operation that would index out of range answers `none`: Go panics there.
pub mod Index
pub mod Setting
use proxyfleet.Base.{
  ℕ, zero, suc, ◌+◌, ◌-◌, ◌%◌, ◌^◌, ◌>>=◌, ◌&&◌, Bool, true, false, not, Option, none, some, List,
  [], ◌∷◌, ◌++◌, length, take, if◌then◌else◌, lookup, insert, delete, ltb, ℕ_key, ◌==◌,
}

pub record MemberSet : Type 0 where
  pub items : List ℕ
  pub index : List (ℕ × ℕ)

unfoldable pub new_member_set : MemberSet
new_member_set = record { items = []; index = [] }

-- The item at a position.
abbrev pub get_elem? : ℕ → List ℕ → Option ℕ
get_elem? i [] = none
get_elem? zero (x ∷ xs) = some x
get_elem? (suc i) (x ∷ xs) = get_elem? i xs

abbrev pub set_elem : ℕ → ℕ → List ℕ → List ℕ
set_elem i y [] = []
set_elem zero y (x ∷ xs) = y ∷ xs
set_elem (suc i) y (x ∷ xs) = x ∷ set_elem i y xs

unfoldable pub add : ℕ → MemberSet → MemberSet
add member s = elim (lookup member s.index) [
  | some _ ↦ s
  | none ↦ record {
    items = s.items ++ (member ∷ []);
    index = insert member (length s.items) s.index;
  }
]

-- The last item takes the place of the one removed.
unfoldable pub swap_out : ℕ → ℕ → Option ℕ → MemberSet → Option MemberSet
swap_out member idx none s = none
swap_out member idx (some replacement) s =
    if ltb idx (length s.items)
    then some (record {
      items = take (length s.items - 1) (set_elem idx replacement s.items);
      index = delete member (insert replacement idx s.index);
    })
    else none

unfoldable pub remove : ℕ → MemberSet → Option MemberSet
remove member s = elim (lookup member s.index) [
  | none ↦ some s
  | some idx ↦ swap_out member idx (get_elem? (length s.items - 1) s.items) s
]

abbrev pub contains : ℕ → MemberSet → Bool
contains member s = elim (lookup member s.index) [ none ↦ false | some _ ↦ true ]

-- A member, and the networks that its outbound serves.
pub record Served : Type 0 where
  pub member : ℕ
  pub tcp : Bool
  pub udp : Bool

pub record EligiblePool : Type 0 where
  pub closed : Bool
  pub eligible_tcp : MemberSet
  pub eligible_udp : MemberSet
  pub eligible_version : ℕ

abbrev pub put : Bool → ℕ → MemberSet → Option MemberSet
put wanted member s = if wanted then some (add member s) else remove member s

-- The `atomic.Uint64` counts changes of the TCP index.
abbrev pub bump : Bool → Bool → ℕ → ℕ
bump before after version =
    if (if before then not after else after) then (version + 1) % 2 ^ 64 else version

unfoldable pub set_member_eligible : Served → Bool → EligiblePool → Option EligiblePool
set_member_eligible n eligible p = if p.closed then some p else do
  tcp ← put (eligible && n.tcp) n.member p.eligible_tcp
  udp ← put (eligible && n.udp) n.member p.eligible_udp
  some (record p {
    eligible_tcp = tcp;
    eligible_udp = udp;
    eligible_version =
        bump (contains n.member p.eligible_tcp) (contains n.member tcp) p.eligible_version;
  })

-- Additions and removals one after the other.
pub data Op : Type 0 where
  adds : ℕ → Op
  removes : ℕ → Op

unfoldable pub run : List Op → MemberSet → Option MemberSet
run [] s = some s
run (adds m ∷ ops) s = run ops (add m s)
run (removes m ∷ ops) s = elim (remove m s) [ none ↦ none | some s' ↦ run ops s' ]

-- What the last operation on a member says of it.
abbrev pub last_word : ℕ → List Op → Bool → Bool
last_word m [] before = before
last_word m (adds k ∷ ops) before = last_word m ops (if k == m then true else before)
last_word m (removes k ∷ ops) before = last_word m ops (if k == m then false else before)
