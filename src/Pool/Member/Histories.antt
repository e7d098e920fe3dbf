-- ===== src/Pool/Member/Histories.antt =====
-- Every history of operations on a shared state keeps it well formed.
use proxyfleet.Base.{ℕ, ◌<◌, some, none, List, [], ◌∷◌, Bytes, All, arith}
use proxyfleet.Pool.Member.State.{
  Member, MemberHealth, persist_transition, schedule_blacklist_expiry, schedule_cooldown_expiry,
}
use proxyfleet.Pool.Member.Watch.{subscribe, unsubscribe}
use proxyfleet.Pool.Member.Retire.{
  retire_if_unused, inc_active, dec_active, release_owner, attach_entry, acquire_new,
}
use proxyfleet.Pool.Member.Run.{
  Event, fail, succeed, probe_passed, look_banned, look_cooling, ban_timer, cooldown_timer, watch,
  unwatch, connect, disconnect, drop_owner, attach, admin_release, admin_ban, step, run, IsSane,
}
use proxyfleet.Pool.Member.Invariant.{
  Inv, is_blacklisted-Inv, is_cooling_down-Inv, expire_blacklist-Inv, expire_cooldown-Inv,
  record_success-Inv, release_after_probe-Inv, force_release-Inv, blacklist_member-Inv,
}
use proxyfleet.Pool.Member.FailureInvariant.{record_failure_with_source-Inv}

subscribe-Inv : (now at now' again : ℕ) (m : Member) → Inv m → Inv (subscribe now at now' again m).1
unfolding subscribe
subscribe-Inv now at now' again m v =
    ground (arith, is_cooling_down-Inv now' again _ (is_blacklisted-Inv now at m v))

retire_if_unused-Inv : (at : ℕ) (m : Member) → Inv m → Inv (retire_if_unused at m).1
unfolding retire_if_unused persist_transition
retire_if_unused-Inv at m v = ground arith

-- One operation.
pub step-Inv : (e : Event) (m : Member) → IsSane e → Inv m → Inv (step e m)
unfolding step unsubscribe inc_active dec_active release_owner attach_entry
step-Inv (fail r t th b c tr) m h v = record_failure_with_source-Inv r t th b c tr m v
step-Inv (succeed r at) m h v = record_success-Inv r at m v
step-Inv (probe_passed r) m h v = release_after_probe-Inv r m v
step-Inv (look_banned now at) m h v = is_blacklisted-Inv now at m v
step-Inv (look_cooling now at) m h v = is_cooling_down-Inv now at m v
step-Inv (ban_timer u at now s) m h v = expire_blacklist-Inv u at now s m v
step-Inv (cooldown_timer u at s) m h v = expire_cooldown-Inv u at s m v
step-Inv (watch now at now' s) m h v = subscribe-Inv now at now' s m v
step-Inv (unwatch id) m h v = ground arith
step-Inv connect m h v = ground arith
step-Inv (disconnect at) m h v = retire_if_unused-Inv at _ (ground arith)
step-Inv (drop_owner at) m h v = retire_if_unused-Inv at _ (ground arith)
step-Inv (attach now at e) m h v = ground arith
step-Inv (admin_release r) m h v = force_release-Inv r m v
step-Inv (admin_ban r d) m h v = blacklist_member-Inv r d m h v

-- Every ban is flagged and armed, and every set flag has a reason: after any history of operations
-- from a well-formed state, in which each manual ban ends after Go's zero time, the fast flag
-- covers every recorded ban, a set flag has a recorded ban or cooldown behind it, a state that is
-- not banned has no deadline and no manual mark, and while the state is open each ban and each
-- cooldown has the timer for exactly its deadline.
pub run-Inv : (es : List Event) (m : Member) → All IsSane es → Inv m → Inv (run es m)
unfolding run
run-Inv [] m h v = v
run-Inv (e ∷ es) m h v = run-Inv es (step e m) h.1 (step-Inv e m h.0 v)

-- A state restored from any saved record is well formed, unless its cooldown runs out between the
-- restoring and the arming of the timers.
pub acquire_new-Inv :
    (now armed_at : ℕ) (tag : Bytes) (h : MemberHealth)
    → (now < h.cooldown_until → armed_at < h.cooldown_until)
    → Inv (acquire_new now armed_at tag (some h))
unfolding acquire_new schedule_blacklist_expiry schedule_cooldown_expiry
acquire_new-Inv now armed_at tag h later = ground arith

pub acquire_new_fresh-Inv :
    (now armed_at : ℕ) (tag : Bytes) → Inv (acquire_new now armed_at tag none)
unfolding acquire_new schedule_blacklist_expiry schedule_cooldown_expiry
acquire_new_fresh-Inv now armed_at tag = ground arith
