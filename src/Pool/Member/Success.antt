-- ===== src/Pool/Member/Success.antt =====
-- shared_state.go: evidence of health (`recordSuccessWithLatency`, `releaseAfterProbeLocked`) and
-- the administrator's decisions (`forceRelease`, `blacklistSharedMember`).
use proxyfleet.Base.{
  ℕ, Bool, true, false, ◌&&◌, ◌||◌, not, none, ltb, if◌then◌else◌, ℤ, add_duration,
}
use proxyfleet.Monitor.Entry
use proxyfleet.Pool.Member.State.{
  Member, Readings, on_entry, publish_blacklist, schedule_blacklist_expiry, persist_transition,
  is_blocked_at,
}
use proxyfleet.Pool.Member.Expiry.{is_cooling_down}

-- `recordSuccessWithLatency`; `cooling_saved` is the reading of the record that ends a cooldown.
unfoldable pub record_success : Readings → ℕ → Member → Member
record_success r cooling_saved m =
    if m.closed
    then m
    else let (cooling, looked) = is_cooling_down r.decided cooling_saved m in
      let blocked = looked.blacklisted || cooling in
      let note = λ (e : Entry.Entry).
        Entry.mark_initial_check_done (not blocked) (Entry.record_success r.noted e) in
      persist_transition r.saved (record looked {
        failures = 0;
        blacklisted_fast = blocked;
        entry = on_entry note looked.entry;
      })

-- What `releaseAfterProbeLocked` clears: all but a live manual ban and a live cooldown.
unfoldable pub clear_automatic : Bool → Bool → Member → Member
clear_automatic manual cooling m =
    let freed = if manual then record m { failures = 0 } else record m {
      failures = 0;
      blacklisted = false;
      blacklisted_until = 0;
      manual_blacklist = false;
      blacklist_timer = none;
    } in
    if cooling then freed else record freed { cooldown_until = 0; cooldown_timer = none }

unfoldable pub release_after_probe : Readings → Member → Bool × Member
unfolding clear_automatic
release_after_probe r m =
    let was_blocked = is_blocked_at r.decided m in
    let manual = m.blacklisted && m.manual_blacklist && ltb r.decided m.blacklisted_until in
    let cooling = ltb r.decided m.cooldown_until in
    let blocked = manual || cooling in
    let cleared = record (clear_automatic manual cooling m) { blacklisted_fast = blocked } in
    let unban = λ (e : Entry.Entry). if manual then e else Entry.clear_blacklist e in
    let thaw = λ (e : Entry.Entry). if cooling then e else Entry.clear_cooldown e in
    let noted = record cleared { entry = on_entry (λ e. thaw (unban e)) cleared.entry } in
    let told = if was_blocked && not blocked then publish_blacklist false noted else noted in
    if m.closed then (false, m) else (was_blocked && not blocked, persist_transition r.saved told)

unfoldable pub force_release : Readings → Member → Member
force_release r m =
    let was_blocked = is_blocked_at r.decided m in
    let forget = λ (e : Entry.Entry).
      Entry.clear_cooldown (Entry.clear_blacklist (Entry.invalidate_probe_results r.noted e)) in
    let cleared = record m {
      failures = 0;
      blacklisted = false;
      blacklisted_until = 0;
      manual_blacklist = false;
      cooldown_until = 0;
      blacklist_timer = none;
      cooldown_timer = none;
      blacklisted_fast = false;
      entry = on_entry forget m.entry;
    } in
    let told = if was_blocked then publish_blacklist false cleared else cleared in
    if m.closed then m else persist_transition r.saved told

-- `blacklistSharedMember`, on the state that its tag finds.
unfoldable pub blacklist_member : Readings → ℤ → Member → Member
blacklist_member r duration m =
    let until = add_duration r.decided duration in
    let note = λ (e : Entry.Entry).
      Entry.clear_cooldown
        (Entry.blacklist_until until (Entry.invalidate_probe_results r.noted e)) in
    let banned = record m {
      blacklisted = true;
      blacklisted_until = until;
      manual_blacklist = true;
      cooldown_until = 0;
      cooldown_timer = none;
      failures = 0;
      blacklisted_fast = true;
      entry = on_entry note m.entry;
    } in
    if m.closed
    then m
    else persist_transition r.saved
        (schedule_blacklist_expiry until (publish_blacklist true banned))
