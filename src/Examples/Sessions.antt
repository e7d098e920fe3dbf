-- ===== src/Examples/Sessions.antt =====
-- Sessions of one job, bound, moved and released, at concrete inputs.
use proxyfleet.Base.{◌≤◌, ◌≡◌, true, [], ◌∷◌, lookup, insert, bytes_discrete, refl, arith, codes}
use proxyfleet.Jobs.Store.Lease.{lease_key, new_lease, version}
use proxyfleet.Jobs.Store.State.{
  Store, capacity, conflict, ok, err, save, account_load, reserved_accounts,
}
use proxyfleet.Jobs.Store.Bindings.{
  is_listed, acquire, acquire_new, choose_node, better_node, bind, migrate, migrate_lease, rebind,
  load_of_others,
}
use proxyfleet.Jobs.Store.Limits.{WithinLimits, acquire-WithinLimits}
use proxyfleet.Jobs.Store.Fencing.{migrate-migrate}
use proxyfleet.Jobs.Store.Moves.{migrate-limit}
use proxyfleet.Examples.Data.{
  codec, job, empty, ranking, request, alice, lease, bound, move, moved_to_b, after_move, node,
}

-- The first session gets the first node.
acquired :
    acquire codec (request 10 (codes "r1")) job (codes "p") alice ranking empty ≡ (ok lease, bound)
unfolding acquire acquire_new choose_node better_node bind save account_load reserved_accounts
    insert lookup bytes_discrete
acquired = refl

acquire-WithinLimits_example : WithinLimits job alice ranking lease empty bound
unfolding lookup
acquire-WithinLimits_example =
    acquire-WithinLimits codec (request 10 (codes "r1")) job (codes "p") alice ranking lease empty
      bound ((λ e. ground (arith, e)), ((λ e. ground (arith, e)), tt)) refl acquired

-- The only node is full.
abbrev after_refusal : Store
after_refusal =
    (acquire codec (request 20 (codes "r2")) job (codes "p") (codes "bob") (node (codes "a") ∷ [])
      bound).1

refused :
    acquire codec
      (request 20 (codes "r2"))
      job
      (codes "p")
      (codes "bob")
      (node (codes "a") ∷ [])
      bound
    ≡ (err capacity, after_refusal)
unfolding acquire acquire_new choose_node better_node account_load reserved_accounts lookup
    lease_key new_lease bytes_discrete
refused = refl

migrated :
    migrate codec (request 20 (codes "r2")) job (codes "p") move ranking bound
    ≡ (ok moved_to_b, after_move)
unfolding migrate migrate_lease rebind save account_load reserved_accounts insert lookup version
    is_listed load_of_others lease_key new_lease bytes_discrete
migrated = refl

migrate-migrate_example :
    migrate codec (request 30 (codes "r3")) job (codes "p") move ranking after_move
    ≡ (err conflict, after_move)
migrate-migrate_example =
    migrate-migrate codec (request 20 (codes "r2")) (request 30 (codes "r3")) job (codes "p")
      (codes "p") move move ranking ranking moved_to_b bound after_move refl refl
      (λ e. ground (arith, e)) (λ e. ground (arith, e)) migrated

abbrev after_conflict : Store
after_conflict = (migrate codec (request 30 (codes "r3")) job (codes "p") move ranking after_move).1

outdated :
    migrate codec (request 30 (codes "r3")) job (codes "p") move ranking after_move
    ≡ (err conflict, after_conflict)
unfolding migrate migrate_lease lookup version lease_key new_lease bytes_discrete
outdated = refl

migrate-limit_example :
    (account_load after_move (codes "j") (codes "b") ≤ 1) × (is_listed (codes "b") ranking ≡ true)
unfolding lookup lease_key new_lease bytes_discrete
migrate-limit_example =
    migrate-limit codec (request 20 (codes "r2")) job (codes "p") move ranking lease moved_to_b
      bound after_move refl (λ e. ground (arith, e)) (λ r e. absurd (ground (arith, e)))
      (omega arith) migrated
