-- ===== src/Pool/Member/Watch.antt =====
-- shared_state.go: `subscribeBlacklist` and the function that it returns.
use proxyfleet.Base.{ℕ, ◌+◌, ◌||◌, Option, none, some, if◌then◌else◌, ℕ_key, insert, delete}
use proxyfleet.Pool.Member.State.{Member}
use proxyfleet.Pool.Member.Expiry.{is_blacklisted, is_cooling_down}

-- The watcher's id, if one was installed, and the state; the callback is called once with what the
-- elapsed deadlines leave.
unfoldable pub subscribe : ℕ → ℕ → ℕ → ℕ → Member → Option ℕ × Member
subscribe now saved_at now' saved_again m =
    let (blacklisted, looked) = is_blacklisted now saved_at m in
    let (cooling, settled) = is_cooling_down now' saved_again looked in
    let id = settled.next_watcher + 1 in
    if m.closed then (none, m) else (
      some id,
      record settled {
        next_watcher = id;
        watchers = insert id (cooling || blacklisted) settled.watchers;
      },
    )

unfoldable pub unsubscribe : ℕ → Member → Member
unsubscribe id m = record m { watchers = delete id m.watchers }
