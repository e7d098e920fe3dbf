-- ===== src/Config/Jobs/Distinct.antt =====
-- The loop over the jobs: no name, password or endpoint is given twice.
use proxyfleet.Base.{◌≤◌, ◌≡◌, ◌≢◌, false, List, [], ◌∷◌, length, is_nil, codes, All}
use proxyfleet.Config.Jobs.{Job, Setup, Texts, Marks, elem, effective_ingress}
use proxyfleet.Config.Jobs.Loop.{Outcome, accepted, marked, endpoint_passwords}
use proxyfleet.Config.Jobs.Accepted.{New, Fine}
use proxyfleet.Config.Jobs.Rounds.{Given}

-- Two jobs that no client can mix up.
pub record Differ (j k : Job) : Type 0 where
  pub name : k.name ≢ j.name
  pub password : is_nil k.password ≡ false → k.password ≢ j.password
  pub endpoint :
      effective_ingress j ≡ codes "endpoint"
      → effective_ingress k ≡ codes "endpoint"
      → k.endpoint ≢ j.endpoint

abbrev pub Pairwise : List Job → Type 0
Pairwise [] = Unit
Pairwise (j ∷ js) = All (Differ j) js × Pairwise js

-- Each job is new to what the loop has seen before it.
abbrev Apart : Marks → List Job → Type 0
Apart m [] = Unit
Apart m (k ∷ ks) = New m k × Apart (marked m k) ks

record Later (m : Marks) (j k : Job) : Type 0 where
  fresh : New m k
  differ : Differ j k

-- Each accepted job is the one given in its place.
abbrev pub AllGiven : Texts → List Job → List Job → Type 0
AllGiven t [] [] = Unit
AllGiven t [] (_ ∷ _) = ⊥
AllGiven t (_ ∷ _) [] = ⊥
AllGiven t (j ∷ js) (k ∷ ks) = Given t j k × AllGiven t js ks

record Passed (t : Texts) (c : Setup) (m : Marks) (js ks : List Job) : Type 0 where
  apart : Apart m ks
  fine : All (Fine t c) ks
  complete : length ks ≡ length js
  given : AllGiven t js ks

data Rest (j : Job) (o : Outcome (List Job)) (ks : List Job) : Type 0 where
  rest_is : (js : List Job) → o ≡ accepted js → j ∷ js ≡ ks → Rest j o ks

-- A whole configuration of jobs.
pub record WellFormed (t : Texts) (c : Setup) (js ks : List Job) : Type 0 where
  pub few : length ks ≤ 64
  pub complete : length ks ≡ length js
  pub given : AllGiven t js ks
  pub pairwise : Pairwise ks
  pub private_passwords :
      All
        (λ k. is_nil k.password ≡ false → elem k.password (endpoint_passwords c.endpoints) ≡ false)
        ks
  pub fine : All (Fine t c) ks
