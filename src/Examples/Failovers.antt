-- ===== src/Examples/Failovers.antt =====
-- Failovers that are reserved, commit, are fenced off and abort, at concrete inputs.
use proxyfleet.Base.{
  some, bytes_key, ℕ_key, ◌≡◌, ◌⊎◌, [], ◌∷◌, lookup, insert, bytes_discrete, refl, codes,
}
use proxyfleet.Jobs.Store.Lease.{Lease, expired, version, lease_key, new_lease}
use proxyfleet.Jobs.Store.State.{
  account_load, reserved_accounts, Reservation, Store, unavailable, ok, err, save,
}
use proxyfleet.Jobs.Store.Activity.{Hold, hold_locked}
use proxyfleet.Jobs.Store.Failover.{
  begin_failover, begin_with, reserve, choose_target, better_target,
}
use proxyfleet.Jobs.Store.Config.{
  automatic_failover, shared_ingress, effective_ingress, effective_failure_policy,
}
use proxyfleet.Jobs.Store.Targets.{Sound, begin_failover-Sound}
use proxyfleet.Jobs.Store.Commit.{commit, commit_with, commit_lease, commit_move, moved_lease}
use proxyfleet.Jobs.Store.Commits.{Found, Moved, Adopted, commit_outcome}
use proxyfleet.Examples.Data.{
  bound, job, ranking, codec, request, reserved, reservation, attempt, lease, alice_key,
}

abbrev moved : Lease
moved = moved_lease (request 20 (codes "r2")) reservation lease

abbrev after_commit : Store
after_commit = record reserved {
  leases = (alice_key, moved) ∷ [];
  disk = (alice_key, moved) ∷ [];
  reservations = (0, record reservation { committed = codes "r2" }) ∷ [];
}

abbrev tunnel : Hold
tunnel = (hold_locked codec 20 alice_key moved after_commit).0

abbrev tunnelled : Store
tunnelled = (hold_locked codec 20 alice_key moved after_commit).1

committed :
    commit codec (request 20 (codes "r2")) attempt reserved ≡ (ok (moved, tunnel), tunnelled)
unfolding commit commit_with commit_lease commit_move moved_lease expired version save insert lookup
    bytes_discrete lease_key new_lease
committed = refl

commit_outcome_example :
    (r : Reservation) × (old : Lease) × Found attempt r old reserved
    × (Moved codec
          (request 20 (codes "r2"))
          (lease_key r.expected.job r.expected.session)
          0
          r
          old
          moved
          reserved
          tunnelled
        ⊎ Adopted codec
            (request 20 (codes "r2"))
            (lease_key r.expected.job r.expected.session)
            r
            old
            moved
            reserved
            tunnelled)
commit_outcome_example =
    commit_outcome codec (request 20 (codes "r2")) attempt moved tunnel reserved tunnelled committed

abbrev paused : Store
paused = record reserved { assignment_pauses = 1 }

abbrev after_fence : Store
after_fence = (commit codec (request 20 (codes "r2")) attempt paused).1

fenced_off : commit codec (request 20 (codes "r2")) attempt paused ≡ (err unavailable, after_fence)
unfolding commit commit_with commit_lease lookup lease_key new_lease bytes_discrete
fenced_off = refl

begun :
    begin_failover codec 30 job (codes "p") lease ranking (codes "dial_failed") (codes "a") bound
    ≡ (ok attempt, reserved)
unfolding begin_failover begin_with reserve choose_target better_target account_load
    reserved_accounts automatic_failover shared_ingress effective_ingress effective_failure_policy
    expired version insert lookup lease_key new_lease bytes_discrete
begun = refl

begin_failover-Sound_example :
    (old : Lease) × (r : Reservation) × (lookup alice_key bound.leases ≡ some old)
    × (lookup 0 reserved.reservations ≡ some r)
    × (lookup alice_key reserved.failovers ≡ some 0)
    × Sound codec job lease old bound r
unfolding lookup lease_key new_lease bytes_discrete
begin_failover-Sound_example =
    begin_failover-Sound codec 30 job (codes "p") lease ranking (codes "dial_failed") (codes "a")
      attempt bound reserved refl begun
