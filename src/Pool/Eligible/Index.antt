-- ===== src/Pool/Eligible/Index.antt =====
-- The index agrees with the items.
use proxyfleet.Base.{
  ℕ, zero, suc, ◌-◌, ◌<◌, ◌≡◌, inl, inr, true, false, none, some, List, [], ◌∷◌, ◌++◌, length, take,
  if◌then◌else◌, lookup, insert, delete, ltb, lt→ltb, ◌==◌, refl, ap, ◌∙◌, arith, lookup-insert,
  lookup-delete, lookup-nil, Option-cases, ℕ_key,
}
use proxyfleet.Pool.Eligible.{
  MemberSet, new_member_set, get_elem?, set_elem, add, swap_out, remove, contains, Op, adds,
  removes, run, last_word,
}

get_elem?-append :
    (i x : ℕ) (xs : List ℕ)
    → get_elem? i (xs ++ (x ∷ [])) ≡ (if i == length xs then some x else get_elem? i xs)
get_elem?-append zero x [] = ground arith
get_elem?-append (suc i) x [] = ground arith
get_elem?-append zero x (y ∷ xs) = ground arith
get_elem?-append (suc i) x (y ∷ xs) = ground (arith, get_elem?-append i x xs)

get_elem?-set_elem :
    (i j x : ℕ) (xs : List ℕ)
    → j < length xs
    → get_elem? i (set_elem j x xs) ≡ (if i == j then some x else get_elem? i xs)
get_elem?-set_elem i j x [] h = absurd (omega (arith, h))
get_elem?-set_elem zero zero x (y ∷ xs) h = ground arith
get_elem?-set_elem (suc i) zero x (y ∷ xs) h = ground arith
get_elem?-set_elem zero (suc j) x (y ∷ xs) h = ground arith
get_elem?-set_elem (suc i) (suc j) x (y ∷ xs) h =
    ground (arith, get_elem?-set_elem i j x xs (omega (arith, h)))

get_elem?-take :
    (i n : ℕ) (xs : List ℕ) → get_elem? i (take n xs) ≡ (if ltb i n then get_elem? i xs else none)
get_elem?-take i zero [] = ground arith
get_elem?-take i zero (x ∷ xs) = ground arith
get_elem?-take i (suc n) [] = ground arith
get_elem?-take zero (suc n) (x ∷ xs) = ground arith
get_elem?-take (suc i) (suc n) (x ∷ xs) = ground (arith, get_elem?-take i n xs)

get_elem?-within : (i x : ℕ) (xs : List ℕ) → get_elem? i xs ≡ some x → i < length xs
get_elem?-within i x [] h = absurd (ground (arith, h))
get_elem?-within zero x (y ∷ xs) h = omega arith
get_elem?-within (suc i) x (y ∷ xs) h = omega (arith, get_elem?-within i x xs h)

get_elem?-exists : (i : ℕ) (xs : List ℕ) → i < length xs → (x : ℕ) × (get_elem? i xs ≡ some x)
get_elem?-exists i [] h = absurd (omega (arith, h))
get_elem?-exists zero (x ∷ xs) h = (x, refl)
get_elem?-exists (suc i) (x ∷ xs) h = get_elem?-exists i xs (omega (arith, h))

-- Each member's place is the one that the index names.
pub record IsValid (s : MemberSet) : Type 0 where
  pub placed : (m i : ℕ) → lookup m s.index ≡ some i → get_elem? i s.items ≡ some m
  pub indexed : (m i : ℕ) → get_elem? i s.items ≡ some m → lookup m s.index ≡ some i

pub new_member_set-IsValid : IsValid new_member_set
unfolding new_member_set
new_member_set-IsValid = record {
  placed = λ m i h. absurd (ground (arith, lookup-nil {V = ℕ} m, h));
  indexed = λ m i h. absurd (ground (arith, h));
}

pub add-IsValid : (k : ℕ) (s : MemberSet) → IsValid s → IsValid (add k s)
unfolding add
add-IsValid k s v = elim (Option-cases (lookup k s.index)) [
  | inr (j, found) ↦ rw (found, add) v
  | inl new ↦
      rw (new, add)
        (record {
          placed = λ m i h. ground (
            arith,
            v.placed m i,
            lookup-insert k m (length s.items) s.index,
            get_elem?-append i k s.items,
            get_elem?-within i m s.items,
          );
          indexed = λ m i h. ground (
            arith,
            v.indexed m i,
            lookup-insert k m (length s.items) s.index,
            get_elem?-append i k s.items,
          );
        })
]

pub contains-add :
    (k m : ℕ) (s : MemberSet) → contains m (add k s) ≡ (if k == m then true else contains m s)
unfolding add
contains-add k m s = elim (Option-cases (lookup k s.index)) [
  | inr (j, found) ↦ rw (found, add) (ground (arith, found))
  | inl new ↦ rw (new, add) (ground (arith, lookup-insert k m (length s.items) s.index))
]

abbrev swapped : ℕ → ℕ → ℕ → MemberSet → MemberSet
swapped k idx r s = record {
  items = take (length s.items - 1) (set_elem idx r s.items);
  index = delete k (insert r idx s.index);
}

lookup-swapped :
    (k idx r m : ℕ) (s : MemberSet)
    → lookup m (swapped k idx r s).index
      ≡ (if k == m then none else if r == m then some idx else lookup m s.index)
lookup-swapped k idx r m s =
    ground (arith, lookup-delete k m (insert r idx s.index), lookup-insert r m idx s.index)

get_elem?-swapped :
    (k idx r i : ℕ) (s : MemberSet)
    → idx < length s.items
    → get_elem? i (swapped k idx r s).items ≡ (
        if ltb i (length s.items - 1)
        then (if i == idx then some r else get_elem? i s.items)
        else none)
get_elem?-swapped k idx r i s h = ground (
  arith,
  get_elem?-take i (length s.items - 1) (set_elem idx r s.items),
  get_elem?-set_elem i idx r s.items h,
)

-- A removal takes the member out and keeps the rest.
pub record Removed (k : ℕ) (s : MemberSet) : Type 0 where
  pub rest : MemberSet
  pub answer : remove k s ≡ some rest
  pub valid : IsValid rest
  pub others : (m : ℕ) → contains m rest ≡ (if k == m then false else contains m s)

swapped-IsValid :
    (k idx r : ℕ) (s : MemberSet)
    → IsValid s
    → lookup k s.index ≡ some idx
    → lookup r s.index ≡ some (length s.items - 1)
    → idx < length s.items
    → IsValid (swapped k idx r s)
swapped-IsValid k idx r s v found last h = record {
  placed = λ m i e. ground (
    arith,
    lookup-swapped k idx r m s,
    get_elem?-swapped k idx r i s h,
    v.placed m i,
    v.placed k idx,
    v.placed r (length s.items - 1),
    get_elem?-within i m s.items,
  );
  indexed = λ m i e. ground (
    arith,
    lookup-swapped k idx r m s,
    get_elem?-swapped k idx r i s h,
    v.indexed m i,
    v.placed k idx,
  );
}

pub remove-Removed : (k : ℕ) (s : MemberSet) → IsValid s → Removed k s
unfolding remove swap_out
remove-Removed k s v = elim (Option-cases (lookup k s.index)) [
  | inl absent ↦ record {
    rest = s;
    answer = rw (absent, remove) refl;
    valid = v;
    others = λ m. ground (arith, absent);
  }
  | inr (idx, found) ↦
      let within = get_elem?-within idx k s.items (v.placed k idx found) in
      let (r, last) = get_elem?-exists (length s.items - 1) s.items (omega (arith, within)) in
      record {
        rest = swapped k idx r s;
        answer = rw (found, last, remove, swap_out, lt→ltb idx (length s.items) within) refl;
        valid = swapped-IsValid k idx r s v found (v.indexed r (length s.items - 1) last) within;
        others = λ m. ground (arith, lookup-swapped k idx r m s, v.indexed r (length s.items - 1));
      }
]

pub record Indexed (ops : List Op) (s : MemberSet) : Type 0 where
  pub result : MemberSet
  pub answer : run ops s ≡ some result
  pub valid : IsValid result
  pub members : (m : ℕ) → contains m result ≡ last_word m ops (contains m s)

run-from : (ops : List Op) (s : MemberSet) → IsValid s → Indexed ops s
unfolding run
run-from [] s v = record { result = s; answer = refl; valid = v; members = λ m. refl }
run-from (adds k ∷ ops) s v =
    let rest = run-from ops (add k s) (add-IsValid k s v) in
    record {
      result = rest.result;
      answer = rest.answer;
      valid = rest.valid;
      members = λ m. rest.members m ∙ ap (last_word m ops) (contains-add k m s);
    }
run-from (removes k ∷ ops) s v =
    let gone = remove-Removed k s v in
    let rest = run-from ops gone.rest gone.valid in
    record {
      result = rest.result;
      answer = rw (gone.answer, run) rest.answer;
      valid = rest.valid;
      members = λ m. rest.members m ∙ ap (last_word m ops) (gone.others m);
    }

-- The index of eligible members never goes wrong: any sequence of additions and removals, repeated
-- and idle ones included, runs from the empty set without an index out of range, ends with the
-- place of each member at the place that the index names and nothing else there, and holds exactly
-- the members whose last operation was an addition.
pub run-Indexed : (ops : List Op) → Indexed ops new_member_set
run-Indexed ops = run-from ops new_member_set new_member_set-IsValid
