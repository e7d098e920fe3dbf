-- ===== src/Examples/Sweeps.antt =====
-- Connections and sweeps at concrete inputs.
use proxyfleet.Base.{
  ◌≡◌, none, some, [], ◌∷◌, lookup, insert, bytes_discrete, bytes_key, refl, codes, ℕ,
}
use proxyfleet.Jobs.Store.Lease.{Lease, new_lease, lease_key, version}
use proxyfleet.Jobs.Store.State.{replaced, Error, Store, ok, err}
use proxyfleet.Jobs.Store.Activity.{Hold, hold, hold_locked, sweep_idle}
use proxyfleet.Jobs.Store.Sweeps.{Idle, sweep_idle-all_or_nothing, hold-sweep_idle}
use proxyfleet.Examples.Data.{codec, job, alice, alice_key, lease, bound}

sweep_idle-all_or_nothing_example :
    ((n : ℕ) (t : Store)
      → sweep_idle codec (job ∷ []) 500 replaced bound ≡ (ok n, t)
      → ((l : Lease)
          → lookup alice_key bound.leases ≡ some l
          → Idle codec (job ∷ []) 500 bound alice_key l
          → lookup alice_key t.leases ≡ none)
        × (lookup alice_key bound.leases ≡ none → lookup alice_key t.leases ≡ none))
    × ((e : Error) (t : Store)
        → sweep_idle codec (job ∷ []) 500 replaced bound ≡ (err e, t)
        → lookup alice_key t.leases ≡ lookup alice_key bound.leases)
unfolding lookup
sweep_idle-all_or_nothing_example =
    sweep_idle-all_or_nothing codec (job ∷ []) 500 replaced bound alice_key (refl, tt) refl

abbrev connection : Hold
connection = (hold_locked codec 15 alice_key lease bound).0

abbrev connected : Store
connected = (hold_locked codec 15 alice_key lease bound).1

holding : hold codec 15 (codes "j") alice (codes "r1") bound ≡ (ok connection, connected)
unfolding hold lookup version lease_key new_lease bytes_discrete
holding = refl

hold-sweep_idle_example :
    (l : Lease) × (lookup alice_key bound.leases ≡ some l)
    × (version codec l ≡ codes "r1")
    × (lookup alice_key (sweep_idle codec (job ∷ []) 500 replaced connected).1.leases
        ≡ some (record l { last_used_at = 15 }))
unfolding hold_locked insert lookup lease_key bytes_discrete
hold-sweep_idle_example =
    hold-sweep_idle codec 15 500 (codes "j") alice (codes "r1") (job ∷ []) replaced connection bound
      connected (refl, tt) holding
