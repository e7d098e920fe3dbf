-- ===== src/Jobs/Store/Choice.antt =====
-- The node that `Acquire` picks.
use proxyfleet.Base.{
  ℕ, ◌≤◌, ◌≡◌, ◌≢◌, ◌⊎◌, true, inl, inr, refl, sym, subst, ◌∙◌, false, Bool-cases, List, [], ◌∷◌,
  Bytes, bytes_discrete, All, arith,
}
use proxyfleet.Jobs.Store.Lease.{SelectedNode}
use proxyfleet.Jobs.Store.Bindings.{is_full, better_node, choose_node}

-- The name is one of the candidates' names.
pub data IsOneOf (node : Bytes) : List SelectedNode → Type 0 where
  here : {c : SelectedNode} {cs : List SelectedNode} → c.node ≡ node → IsOneOf node (c ∷ cs)
  there : {c : SelectedNode} {cs : List SelectedNode} → IsOneOf node cs → IsOneOf node (c ∷ cs)

-- No candidate with room is less loaded.
abbrev pub IsLeast : ℕ → (Bytes → ℕ) → Bytes → List SelectedNode → Type 0
IsLeast limit load node = All (λ c. is_full limit (load c.node) ≡ false → load node ≤ load c.node)

-- Every candidate has a name.
abbrev pub AllNamed : List SelectedNode → Type 0
AllNamed = All (λ c. c.node ≢ [])

-- Where a choice comes from, and what it is no worse than.
record Chosen (limit : ℕ) (load : Bytes → ℕ) (best : Bytes) (cs : List SelectedNode) (n : Bytes)
    : Type 0 where
  named : best ≢ [] → n ≢ []
  no_worse : best ≢ [] → load n ≤ load best
  least : IsLeast limit load n cs
  source : (n ≡ best) ⊎ ((is_full limit (load n) ≡ false) × IsOneOf n cs)

module _ (limit : ℕ) (load : Bytes → ℕ) where
  better_node_named :
      (best : Bytes) (c : SelectedNode)
      → c.node ≢ []
      → (best ≢ []) ⊎ (is_full limit (load c.node) ≡ false)
      → better_node limit load best c ≢ []
  unfolding better_node bytes_discrete
  better_node_named best c named h = ground arith

  better_node_le :
      (best : Bytes) (c : SelectedNode)
      → best ≢ []
      → load (better_node limit load best c) ≤ load best
  unfolding better_node bytes_discrete
  better_node_le best c h = ground arith

  better_node_least :
      (best : Bytes) (c : SelectedNode)
      → is_full limit (load c.node) ≡ false
      → load (better_node limit load best c) ≤ load c.node
  unfolding better_node bytes_discrete
  better_node_least best c h = ground arith

  better_node_source :
      (best : Bytes) (c : SelectedNode)
      → (better_node limit load best c ≡ best)
        ⊎ ((better_node limit load best c ≡ c.node) × (is_full limit (load c.node) ≡ false))
  unfolding better_node bytes_discrete
  better_node_source best c = ground arith

  source_step :
      (best n : Bytes) (c : SelectedNode) (cs : List SelectedNode)
      → (n ≡ better_node limit load best c) ⊎ ((is_full limit (load n) ≡ false) × IsOneOf n cs)
      → (n ≡ best) ⊎ ((is_full limit (load n) ≡ false) × IsOneOf n (c ∷ cs))
  source_step best n c cs (inr (room, m)) = inr (room, there m)
  source_step best n c cs (inl e) = elim (better_node_source best c) [
    | inl same ↦ inl (e ∙ same)
    | inr (taken, room) ↦
        inr (
          subst (λ x. is_full limit (load x) ≡ false) (sym (e ∙ taken)) room,
          here (sym (e ∙ taken)),
        )
  ]

  choose_node-Chosen :
      (best : Bytes) (cs : List SelectedNode)
      → AllNamed cs
      → Chosen limit load best cs (choose_node limit load best cs)
  unfolding choose_node
  choose_node-Chosen best [] a = record {
    named = λ h. h;
    no_worse = λ _. omega arith;
    least = tt;
    source = inl refl;
  }
  choose_node-Chosen best (c ∷ cs) a =
      let rest = choose_node-Chosen (better_node limit load best c) cs a.1 in
      record {
        named = λ h. rest.named (better_node_named best c a.0 (inl h));
        no_worse = λ h.
            omega (
              arith,
              rest.no_worse (better_node_named best c a.0 (inl h)),
              better_node_le best c h,
            );
        least = (
          λ room. omega (
            arith,
            rest.no_worse (better_node_named best c a.0 (inr room)),
            better_node_least best c room,
          ),
          rest.least,
        );
        source = source_step best _ c cs rest.source;
      }

first_choice :
    (limit : ℕ) (load : Bytes → ℕ) (c : SelectedNode) (cs : List SelectedNode)
    → choose_node limit load [] (c ∷ cs) ≡ []
    → choose_node limit load (better_node limit load [] c) cs ≡ []
unfolding choose_node
first_choice limit load c cs e = e

better_node_full :
    (limit : ℕ) (load : Bytes → ℕ) (c : SelectedNode)
    → is_full limit (load c.node) ≡ true
    → better_node limit load [] c ≡ []
unfolding better_node
better_node_full limit load c full = ground arith

skip_full :
    (limit : ℕ) (load : Bytes → ℕ) (c : SelectedNode) (cs : List SelectedNode)
    → is_full limit (load c.node) ≡ true
    → choose_node limit load [] (c ∷ cs) ≡ []
    → choose_node limit load [] cs ≡ []
skip_full limit load c cs full e =
    subst (λ best. choose_node limit load best cs ≡ []) (better_node_full limit load c full)
      (first_choice limit load c cs e)

no_room :
    (limit : ℕ) (load : Bytes → ℕ) (cs : List SelectedNode)
    → AllNamed cs
    → choose_node limit load [] cs ≡ []
    → All (λ c. is_full limit (load c.node) ≡ true) cs
no_room limit load [] a e = tt
no_room limit load (c ∷ cs) a e = elim (Bool-cases (is_full limit (load c.node))) [
  | inl full ↦ (full, no_room limit load cs a.1 (skip_full limit load c cs full e))
  | inr room ↦ absurd (
      (choose_node-Chosen limit load (better_node limit load [] c) cs a.1).named
        (better_node_named limit load [] c a.0 (inr room)) (first_choice limit load c cs e))
]

-- The choice of `Acquire` from any ranking of nodes with names: if a node is chosen, it is a
-- candidate with room, and no candidate with room carries fewer accounts; if none is chosen, every
-- candidate is full.
pub choose_node_lem :
    (limit : ℕ) (load : Bytes → ℕ) (cs : List SelectedNode)
    → AllNamed cs
    → (choose_node limit load [] cs ≢ []
        → (is_full limit (load (choose_node limit load [] cs)) ≡ false)
          × IsOneOf (choose_node limit load [] cs) cs
          × IsLeast limit load (choose_node limit load [] cs) cs)
      × (choose_node limit load [] cs ≡ [] → All (λ c. is_full limit (load c.node) ≡ true) cs)
choose_node_lem limit load cs a = (
  λ h.
      let chosen = choose_node-Chosen limit load [] cs a in
      elim chosen.source [ inl e ↦ absurd (h e) | inr (room, m) ↦ (room, m, chosen.least) ],
  no_room limit load cs a,
)
