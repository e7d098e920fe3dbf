-- ===== src/Pool/Member/Handover.antt =====
-- A retired state hands its holds to the next owner through its saved record.
use proxyfleet.Base.{
  ℕ, ◌≤◌, ◌≡◌, ◌≢◌, Bool, true, false, ◌&&◌, ◌||◌, some, none, [], Bytes, sym, subst, ltb,
  if◌then◌else◌, pos, refl, arith,
}
use proxyfleet.Pool.Member.State.{
  Member, MemberHealth, persist_transition, health_record, schedule_blacklist_expiry,
  schedule_cooldown_expiry,
}
use proxyfleet.Pool.Member.Retire.{
  retire_if_unused, release_owner, acquire_new, acquire, fresh, restore, arm_timers,
}

-- The holds of a state that still run at some time.
pub record SameHolds (now : ℕ) (m n : Member) : Type 0 where
  pub failures : n.failures ≡ m.failures
  pub banned : n.blacklisted ≡ (m.blacklisted && ltb now m.blacklisted_until)
  pub ban_until : n.blacklisted ≡ true → n.blacklisted_until ≡ m.blacklisted_until
  pub manual : n.blacklisted ≡ true → n.manual_blacklist ≡ m.manual_blacklist
  pub cooldown : n.cooldown_until ≡ (if ltb now m.cooldown_until then m.cooldown_until else 0)
  pub flagged : n.blacklisted_fast ≡ (n.blacklisted || ltb now m.cooldown_until)
  pub alive : n.closed ≡ false

-- What is restored from a record, in terms of the record.
record Restored (now : ℕ) (h : MemberHealth) (n : Member) : Type 0 where
  failures : n.failures ≡ h.failures
  banned : n.blacklisted ≡ ltb now h.blacklisted_until
  ban_until : n.blacklisted ≡ true → n.blacklisted_until ≡ h.blacklisted_until
  manual : n.blacklisted ≡ true → n.manual_blacklist ≡ h.manual_blacklist
  cooldown : n.cooldown_until ≡ (if ltb now h.cooldown_until then h.cooldown_until else 0)
  flagged : n.blacklisted_fast ≡ (n.blacklisted || ltb now h.cooldown_until)
  alive : n.closed ≡ false

restore-Restored :
    (now : ℕ) (tag : Bytes) (h : MemberHealth) → Restored now h (restore now h (fresh tag))
unfolding restore
restore-Restored now tag h = ground arith

arm_timers-Restored :
    (now armed_at : ℕ) (h : MemberHealth) (m : Member)
    → Restored now h m
    → Restored now h (arm_timers armed_at m)
unfolding arm_timers schedule_blacklist_expiry schedule_cooldown_expiry
arm_timers-Restored now armed_at h m v = ground arith

-- What a record keeps of a state.
record Kept (saved_at : ℕ) (m : Member) (h : MemberHealth) : Type 0 where
  failures : h.failures ≡ m.failures
  manual : h.manual_blacklist ≡ m.manual_blacklist
  banned :
      h.blacklisted_until
      ≡ (if m.blacklisted && ltb saved_at m.blacklisted_until then m.blacklisted_until else 0)
  cooldown : h.cooldown_until ≡ (if ltb saved_at m.cooldown_until then m.cooldown_until else 0)

health_record-Kept : (saved_at : ℕ) (m : Member) → Kept saved_at m (health_record saved_at m)
unfolding health_record
health_record-Kept saved_at m = record {
  failures = refl;
  manual = refl;
  banned = refl;
  cooldown = refl;
}

Restored-SameHolds :
    (saved_at now : ℕ) (m n : Member) (h : MemberHealth)
    → saved_at ≤ now
    → Kept saved_at m h
    → Restored now h n
    → SameHolds now m n
Restored-SameHolds saved_at now m n h later k v = ground arith

acquire_new-SameHolds :
    (saved_at now armed_at : ℕ) (tag : Bytes) (m : Member)
    → saved_at ≤ now
    → SameHolds now m (acquire_new now armed_at tag (some (health_record saved_at m)))
unfolding acquire_new
acquire_new-SameHolds saved_at now armed_at tag m later =
    Restored-SameHolds saved_at now m _ (health_record saved_at m) later
      (health_record-Kept saved_at m)
      (arm_timers-Restored now armed_at _ _ (restore-Restored now tag _))

-- The state that the last owner leaves.
record Retired (saved_at : ℕ) (m : Member) (gone : Bool) (n : Member) : Type 0 where
  retired : gone ≡ true
  closed : n.closed ≡ true
  saved : n.saved ≡ some (health_record saved_at (record m { owners = 0 }))

release_owner-Retired :
    (saved_at : ℕ) (m : Member)
    → m.closed ≡ false
    → m.tag ≢ []
    → m.owners ≤ 1
    → m.active ≡ pos 0
    → m.watchers ≡ []
    → Retired saved_at m (release_owner saved_at m).0 (release_owner saved_at m).1
unfolding release_owner retire_if_unused persist_transition
release_owner-Retired saved_at m live named last idle unwatched = ground arith

any_owners :
    (now k : ℕ) (m n : Member) → SameHolds now (record m { owners = k }) n → SameHolds now m n
any_owners now k m n v = record {
  failures = v.failures;
  banned = v.banned;
  ban_until = v.ban_until;
  manual = v.manual;
  cooldown = v.cooldown;
  flagged = v.flagged;
  alive = v.alive;
}

-- What is left for the tag of a state: its record, the state gone from the store.
abbrev pub next_owner : ℕ → ℕ → Member → Member
next_owner now armed_at m = acquire now armed_at m.tag none m.saved

-- Retirement loses no hold: when the last owner releases an idle, unwatched state with a tag, the
-- state is closed and leaves the store, and whoever acquires the tag later gets an open state with
-- the same failure count, the ban with its deadline and manual mark if it still runs then, and the
-- cooldown if it still runs then, and no other hold. The fast flag is set exactly if one of them runs.
pub release_owner-acquire :
    (saved_at now armed_at : ℕ) (m : Member)
    → m.closed ≡ false
    → m.tag ≢ []
    → m.owners ≤ 1
    → m.active ≡ pos 0
    → m.watchers ≡ []
    → saved_at ≤ now
    → ((release_owner saved_at m).0 ≡ true)
      × ((release_owner saved_at m).1.closed ≡ true)
      × SameHolds now m (next_owner now armed_at (release_owner saved_at m).1)
unfolding acquire
release_owner-acquire saved_at now armed_at m live named last idle unwatched later =
    let gone = release_owner-Retired saved_at m live named last idle unwatched in
    (
      gone.retired,
      gone.closed,
      subst (λ h. SameHolds now m (acquire_new now armed_at (release_owner saved_at m).1.tag h))
          (sym gone.saved)
          (any_owners now 0 m _ (
            acquire_new-SameHolds saved_at now armed_at (release_owner saved_at m).1.tag
              (record m { owners = 0 }) later)),
    )
