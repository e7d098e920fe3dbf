-- ===== src/Pool/Release.antt =====
-- internal/outbound/pool/pool.go, `releaseIfAllBlacklisted`: when every member is blocked, a pool that
-- fails open retries the ones that failures have blocked. What the members' watchers do then is
-- modelled with their health (Pool/Member).
use proxyfleet.Base.{
  ℕ, ◌<◌, Bool, true, false, not, ◌||◌, if◌then◌else◌, if_cases, Option, none, some, List, [], ◌∷◌,
  is_nil, ◌≡◌, refl, sym, ap, ◌∙◌, subst, Bytes, arith,
}
use proxyfleet.Pool.Member.State.{Member, Readings, publish_blacklist, persist_transition}
use proxyfleet.Pool.Member.Expiry.{
  is_blocked, is_blacklisted, is_cooling_down, after_blacklist_expiry, after_cooldown_expiry,
}
use proxyfleet.Pool.Member.Success.{release_after_probe, clear_automatic}
use proxyfleet.Pool.Member.Run.{Event, look_banned, look_cooling, probe_passed, step, run}
use proxyfleet.Pool.Member.Holds.{ManualBan, Cooling, run-ManualBan, run-Cooling}

-- A member of the pool: its shared state, if it has one, and the clock where it is saved and released.
pub record Slot : Type 0 where
  pub shared : Option Member
  pub saved_at : ℕ
  pub saved_again : ℕ
  pub release : Readings

abbrev looked : ℕ → Slot → Option Member → Bool × Slot
looked now s none = (false, s)
looked now s (some m) =
    let (blocked, m') = is_blocked now s.saved_at s.saved_again m in
    (blocked, record s { shared = some m' })

-- The scan, which ends at the first member that is not blocked.
unfoldable pub all_blocked : ℕ → List Slot → Bool × List Slot
all_blocked now [] = (true, [])
all_blocked now (s ∷ slots) =
    let here = looked now s s.shared in
    let rest = all_blocked now slots in
    if here.0 then (rest.0, here.1 ∷ rest.1) else (false, here.1 ∷ slots)

-- `releaseAutomaticBlacklist`.
abbrev released_slot : Slot → Option Member → Bool × Slot
released_slot s none = (false, s)
released_slot s (some m) =
    let (released, m') = release_after_probe s.release m in
    (released, record s { shared = some m' })

unfoldable pub release_all : List Slot → Bool × List Slot
release_all [] = (false, [])
release_all (s ∷ slots) =
    let this = released_slot s s.shared in
    let rest = release_all slots in (this.0 || rest.0, this.1 ∷ rest.1)

unfoldable pub release_if_all_blacklisted : Bool → Bool → ℕ → List Slot → Bool × List Slot
release_if_all_blacklisted dedicated fail_open now slots =
    let scan = all_blocked now slots in
    let released = release_all scan.1 in
    if dedicated || not fail_open || is_nil slots
    then (false, slots)
    else if scan.0
    then released
    else (false, scan.1)

-- What happened to each member of a list, in order.
abbrev pub Each : (Slot → Slot → Type 0) → List Slot → List Slot → Type 0
Each R [] [] = Unit
Each R [] (_ ∷ _) = ⊥
Each R (_ ∷ _) [] = ⊥
Each R (s ∷ ss) (t ∷ ts) = R s t × Each R ss ts

abbrev Held : (Member → Type 0) → Option Member → Type 0
Held P none = ⊥
Held P (some m) = P m

-- Which node the member's shared state is about.
abbrev tag_of : Option Member → Option Bytes
tag_of none = none
tag_of (some m) = some m.tag

-- The member's node is the same, and a ban by an administrator and a cooldown that end later than
-- the operation stay.
pub record KeepsHolds (now : ℕ) (s t : Slot) : Type 0 where
  pub same_clock : t.release ≡ s.release
  pub same_member : tag_of t.shared ≡ tag_of s.shared
  pub manual :
      (u : ℕ)
      → now < u
      → s.release.decided < u
      → Held (ManualBan u) s.shared
      → Held (ManualBan u) t.shared
  pub cooling :
      (u : ℕ)
      → now < u
      → s.release.decided < u
      → Held (Cooling u) s.shared
      → Held (Cooling u) t.shared

kept : (now : ℕ) (s : Slot) → KeepsHolds now s s
kept now s = record {
  same_clock = refl;
  same_member = refl;
  manual = λ u _ _ h. h;
  cooling = λ u _ _ h. h;
}

abbrev looks : ℕ → ℕ → ℕ → List Event
looks now saved_at saved_again = look_banned now saved_at ∷ look_cooling now saved_again ∷ []

is_blocked-run :
    (now saved_at saved_again : ℕ) (m : Member)
    → (is_blocked now saved_at saved_again m).1 ≡ run (looks now saved_at saved_again) m
unfolding is_blocked run step
is_blocked-run now saved_at saved_again m = refl

is_blocked-tag :
    (now saved_at saved_again : ℕ) (m : Member)
    → (is_blocked now saved_at saved_again m).1.tag ≡ m.tag
unfolding is_blocked is_blacklisted is_cooling_down after_blacklist_expiry after_cooldown_expiry
    publish_blacklist persist_transition
is_blocked-tag now saved_at saved_again m = ground arith

release_after_probe-tag : (r : Readings) (m : Member) → (release_after_probe r m).1.tag ≡ m.tag
unfolding release_after_probe clear_automatic publish_blacklist persist_transition
release_after_probe-tag r m = ground arith

looked-KeepsHolds :
    (now : ℕ) (s : Slot) (o : Option Member) → s.shared ≡ o → KeepsHolds now s (looked now s o).1
looked-KeepsHolds now s none e = kept now s
looked-KeepsHolds now s (some m) e =
    let same = is_blocked-run now s.saved_at s.saved_again m in
    let tag = ap some (is_blocked-tag now s.saved_at s.saved_again m) in
    let events = looks now s.saved_at s.saved_again in
    record {
      same_clock = refl;
      same_member = tag ∙ ap tag_of (sym e);
      manual = λ u early _ h.
          subst (ManualBan u) (sym same)
            (run-ManualBan u events m (early, (early, tt)) (subst (Held (ManualBan u)) e h));
      cooling = λ u early _ h.
          subst (Cooling u) (sym same)
            (run-Cooling u events m (early, (early, tt)) (subst (Held (Cooling u)) e h));
    }

release_run :
    (r : Readings) (m : Member) → (release_after_probe r m).1 ≡ run (probe_passed r ∷ []) m
unfolding run step
release_run r m = refl

released-KeepsHolds :
    (now : ℕ) (s : Slot) (o : Option Member) → s.shared ≡ o → KeepsHolds now s (released_slot s o).1
released-KeepsHolds now s none e = kept now s
released-KeepsHolds now s (some m) e =
    let same = release_run s.release m in
    let tag = ap some (release_after_probe-tag s.release m) in
    let events = probe_passed s.release ∷ [] in
    record {
      same_clock = refl;
      same_member = tag ∙ ap tag_of (sym e);
      manual = λ u _ early h.
          subst (ManualBan u) (sym same)
            (run-ManualBan u events m (early, tt) (subst (Held (ManualBan u)) e h));
      cooling = λ u _ early h.
          subst (Cooling u) (sym same)
            (run-Cooling u events m (early, tt) (subst (Held (Cooling u)) e h));
    }

Each-kept : (now : ℕ) (slots : List Slot) → Each (KeepsHolds now) slots slots
Each-kept now [] = tt
Each-kept now (s ∷ slots) = (kept now s, Each-kept now slots)

all_blocked-Each :
    (now : ℕ) (slots : List Slot) → Each (KeepsHolds now) slots (all_blocked now slots).1
unfolding all_blocked
all_blocked-Each now [] = tt
all_blocked-Each now (s ∷ slots) =
    let this = looked-KeepsHolds now s s.shared refl in
    if_cases (λ (r : Bool × List Slot). Each (KeepsHolds now) (s ∷ slots) r.1)
      (looked now s s.shared).0 (λ _. (this, all_blocked-Each now slots))
      (λ _. (this, Each-kept now slots))

release_all-Each : (now : ℕ) (slots : List Slot) → Each (KeepsHolds now) slots (release_all slots).1
unfolding release_all
release_all-Each now [] = tt
release_all-Each now (s ∷ slots) =
    (released-KeepsHolds now s s.shared refl, release_all-Each now slots)

both_keep : (now : ℕ) (s t u : Slot) → KeepsHolds now s t → KeepsHolds now t u → KeepsHolds now s u
both_keep now s t u a b = record {
  same_clock = b.same_clock ∙ a.same_clock;
  same_member = b.same_member ∙ a.same_member;
  manual =
      λ v e f h. b.manual v e (subst (λ r. r.decided < v) (sym a.same_clock) f) (a.manual v e f h);
  cooling = λ v e f h.
      b.cooling v e (subst (λ r. r.decided < v) (sym a.same_clock) f) (a.cooling v e f h);
}

Each-both :
    (now : ℕ) (ss ts us : List Slot)
    → Each (KeepsHolds now) ss ts
    → Each (KeepsHolds now) ts us
    → Each (KeepsHolds now) ss us
Each-both now [] [] [] a b = tt
Each-both now [] [] (u ∷ us) a b = absurd b
Each-both now [] (t ∷ ts) us a b = absurd a
Each-both now (s ∷ ss) [] us a b = absurd a
Each-both now (s ∷ ss) (t ∷ ts) [] a b = absurd b
Each-both now (s ∷ ss) (t ∷ ts) (u ∷ us) a b =
    (both_keep now s t u a.0 b.0, Each-both now ss ts us a.1 b.1)

-- Failing open never undoes an administrator's decision or a cooldown: whatever the options and the
-- states of the members, the members stay the same nodes in the same order, each that has a shared
-- state keeps one; each that is banned by hand stays so until the same instant, and each that
-- cools down, and is flagged, goes on doing so, if the ban or the cooldown ends later than the
-- clock's readings in the operation.
pub release_if_all_blacklisted-Each :
    (dedicated fail_open : Bool) (now : ℕ) (slots : List Slot)
    → Each (KeepsHolds now) slots (release_if_all_blacklisted dedicated fail_open now slots).1
unfolding release_if_all_blacklisted
release_if_all_blacklisted-Each dedicated fail_open now slots =
    let P : Bool × List Slot → Type 0 = λ r. Each (KeepsHolds now) slots r.1 in
    let scanned = (all_blocked now slots).1 in
    if_cases P (dedicated || not fail_open || is_nil slots) (λ _. Each-kept now slots)
      (λ _.
        if_cases P (all_blocked now slots).0
          (λ _.
            Each-both now slots scanned (release_all scanned).1 (all_blocked-Each now slots)
              (release_all-Each now scanned))
          (λ _. all_blocked-Each now slots))
