-- ===== src/Pool/Member/Expiry.antt =====
-- shared_state.go: deadlines that pass, found by a reader (`isBlacklistedTransitionLocked`,
-- `isCoolingDownTransitionLocked`) or by a timer (`expireBlacklist`, `expireCooldown`).
use proxyfleet.Base.{ℕ, Bool, false, ◌&&◌, ◌||◌, not, some, none, ltb, leb, ◌==◌, if◌then◌else◌}
use proxyfleet.Monitor.Entry
use proxyfleet.Pool.Member.State.{
  Member, on_entry, publish_blacklist, persist_transition, is_blocked_at,
}

abbrev drop_blacklist : Member → Member
drop_blacklist m = record m {
  blacklisted = false;
  blacklisted_until = 0;
  manual_blacklist = false;
  blacklist_timer = none;
}

abbrev drop_cooldown : Member → Member
drop_cooldown m = record m { cooldown_until = 0; cooldown_timer = none }

-- What both ways of expiry do last: the entry, the watchers if nothing else blocks, the record.
unfoldable pub after_blacklist_expiry : ℕ → Bool → Member → Member
after_blacklist_expiry saved_at blocked m =
    let noted = record m { entry = on_entry Entry.clear_blacklist m.entry } in
    persist_transition saved_at (if blocked then noted else publish_blacklist false noted)

unfoldable pub after_cooldown_expiry : ℕ → Bool → Member → Member
after_cooldown_expiry saved_at blocked m =
    let noted = record m { entry = on_entry Entry.clear_cooldown m.entry } in
    persist_transition saved_at (if blocked then noted else publish_blacklist false noted)

-- `isBlacklistedTransitionLocked`: `now.After(until)` lifts the ban, an equal instant does not.
unfoldable pub is_blacklisted : ℕ → ℕ → Member → Bool × Member
is_blacklisted now saved_at m =
    let expired = m.blacklisted && ltb m.blacklisted_until now in
    let lifted = if expired then drop_blacklist m else m in
    let blocked = is_blocked_at now lifted in
    let flagged = record lifted { blacklisted_fast = blocked } in
    (
      lifted.blacklisted,
      if expired then after_blacklist_expiry saved_at blocked flagged else flagged,
    )

-- `isCoolingDownTransitionLocked`: `!until.After(now)` ends the cooldown.
unfoldable pub is_cooling_down : ℕ → ℕ → Member → Bool × Member
is_cooling_down now saved_at m =
    let expired = not (m.cooldown_until == 0) && leb m.cooldown_until now in
    let ended = if expired then drop_cooldown m else m in
    let cooling = ltb now ended.cooldown_until in
    let blocked = ended.blacklisted || cooling in
    let flagged = record ended { blacklisted_fast = blocked } in
    (cooling, if expired then after_cooldown_expiry saved_at blocked flagged else flagged)

unfoldable pub is_blocked : ℕ → ℕ → ℕ → Member → Bool × Member
is_blocked now saved_at saved_again m =
    let (blacklisted, looked) = is_blacklisted now saved_at m in
    let (cooling, m') = is_cooling_down now saved_again looked in (blacklisted || cooling, m')

-- `expireBlacklist`, the timer's callback for the deadline `expected`; `remaining_at` is the reading
-- of `time.Until`, `now` the one that the cooldown is held against.
unfoldable pub expire_blacklist : ℕ → ℕ → ℕ → ℕ → Member → Member
expire_blacklist expected remaining_at now saved_at m =
    if m.closed
    then m
    else if not m.blacklisted || not (m.blacklisted_until == expected)
    then m
    else if ltb remaining_at expected
    then record m { blacklist_timer = some expected }
    else let blocked = ltb now m.cooldown_until in
      after_blacklist_expiry saved_at blocked
        (record (drop_blacklist m) { blacklisted_fast = blocked })

unfoldable pub expire_cooldown : ℕ → ℕ → ℕ → Member → Member
expire_cooldown expected remaining_at saved_at m =
    if m.closed
    then m
    else if not (m.cooldown_until == expected)
    then m
    else if ltb remaining_at expected
    then record m { cooldown_timer = some expected }
    else after_cooldown_expiry saved_at m.blacklisted
        (record (drop_cooldown m) { blacklisted_fast = m.blacklisted })
