-- ===== src/Pool/Member/Watchers.antt =====
-- What the watchers have last been told after every operation of the node.
use proxyfleet.Base.{
  ℕ, ◌<◌, ◌≤◌, ◌≡◌, ◌≢◌, Bool, true, false, ◌||◌, Option, if_cases, ap, ◌∙◌, [], ◌∷◌, ℕ_key, insert,
  sym, subst, positive_or_pos, arith,
}
use proxyfleet.Pool.Member.State.{
  Member, Readings, publish_blacklist, persist_transition, schedule_blacklist_expiry,
  schedule_cooldown_expiry, is_blocked_at,
}
use proxyfleet.Pool.Member.Failure.{
  FailureDecision, FailurePolicy, record_failure_locked, record_failure_with_source,
  record_failure_cases, under_manual_ban, lift_expired, cool_down, strike, announce_failure,
  decide_failure, manual_ban_at, minute,
}
use proxyfleet.Pool.Member.Success.{release_after_probe}
use proxyfleet.Pool.Member.Expiry.{
  is_blacklisted, is_cooling_down, expire_cooldown, after_blacklist_expiry, after_cooldown_expiry,
}
use proxyfleet.Pool.Member.Watch.{subscribe, unsubscribe}
use proxyfleet.Pool.Member.Retire.{
  retire_if_unused, inc_active, dec_active, release_owner, attach_entry,
}
use proxyfleet.Pool.Member.Run.{
  Event, fail, succeed, probe_passed, look_banned, look_cooling, ban_timer, cooldown_timer, watch,
  unwatch, connect, disconnect, drop_owner, attach, admin_release, admin_ban, step, run,
}
use proxyfleet.Pool.Member.Notices.{
  Settled, Noticed, told, release_after_probe-Settled, force_release-Settled,
  blacklist_member-Settled, is_blacklisted-Settled, is_cooling_down-Settled,
  expire_blacklist-Settled, expire_cooldown-Settled, record_success-Settled, told-delete,
  told-insert, told-publish,
}

announce_failure-Settled :
    (r : Readings) (p : FailurePolicy) (was expired : Bool) (d : FailureDecision) (m : Member)
    → (m.closed ≡ false → told was m.watchers ≡ true)
    → Noticed r.decided m
    → Settled (announce_failure r p was expired d m)
unfolding announce_failure publish_blacklist persist_transition schedule_blacklist_expiry
    schedule_cooldown_expiry
announce_failure-Settled r p was expired d m h n =
    ground (arith, told-publish false m.watchers, told-publish true m.watchers)

-- Deciding about a failure tells nobody, and a cooldown that it starts lies ahead.
record SameAudience (now : ℕ) (m n : Member) : Type 0 where
  watchers : n.watchers ≡ m.watchers
  closed : n.closed ≡ m.closed
  ahead : Noticed now n

decide_failure-SameAudience :
    (now : ℕ) (p : FailurePolicy) (m : Member)
    → 0 < p.transient_cooldown
    → Noticed now m
    → SameAudience now m (decide_failure now p (lift_expired now m)).1
unfolding decide_failure cool_down strike lift_expired
decide_failure-SameAudience now p m h n = ground arith

fast_told :
    (now : ℕ) (m : Member)
    → Noticed now m
    → Settled m
    → m.closed ≡ false
    → told (is_blocked_at now m) m.watchers ≡ true
fast_told now m n v live =
    let same : is_blocked_at now m ≡ m.blacklisted_fast = ground arith in
    subst (λ b. told b m.watchers ≡ true) (sym same) (v.known live)

under_manual_ban-Settled :
    (r : Readings) (p : FailurePolicy) (m : Member)
    → Settled m
    → manual_ban_at r.decided (lift_expired r.decided m) ≡ true
    → Settled (under_manual_ban r p (lift_expired r.decided m)).1
unfolding under_manual_ban lift_expired persist_transition
under_manual_ban-Settled r p m v h = ground arith

record_failure-Settled :
    (r : Readings) (p : FailurePolicy) (m : Member)
    → 0 < p.transient_cooldown
    → Noticed r.decided m
    → Settled m
    → Settled (record_failure_locked r p m).1
record_failure-Settled r p m h n v =
    record_failure_cases (λ o. Settled o.1) r p m (λ _. v)
      (λ _ banned. under_manual_ban-Settled r p m v banned)
      (λ live _.
        let same = decide_failure-SameAudience r.decided p m h n in
        announce_failure-Settled r p _ _ _ _
          (λ _.
            subst (λ ws. told (is_blocked_at r.decided m) ws ≡ true) (sym same.watchers)
              (fast_told r.decided m n v live))
          same.ahead)

is_blacklisted_answer :
    (now at : ℕ) (m : Member)
    → (is_blacklisted now at m).0 ≡ (is_blacklisted now at m).1.blacklisted
unfolding is_blacklisted after_blacklist_expiry publish_blacklist persist_transition
is_blacklisted_answer now at m = ground arith

is_cooling_down_answer :
    (now at : ℕ) (m : Member)
    → (is_cooling_down now at m).1.blacklisted_fast
      ≡ ((is_cooling_down now at m).0 || m.blacklisted)
unfolding is_cooling_down after_cooldown_expiry publish_blacklist persist_transition
is_cooling_down_answer now at m = ground arith

install-Settled :
    (id : ℕ) (b : Bool) (m : Member)
    → m.blacklisted_fast ≡ b
    → Settled m
    → Settled (record m { next_watcher = id; watchers = insert id b m.watchers })
install-Settled id b m e v = ground (arith, told-insert b id m.watchers)

subscribe-Settled :
    (now at now' s : ℕ) (m : Member)
    → Noticed now m
    → Settled m
    → Settled (subscribe now at now' s m).1
unfolding subscribe
subscribe-Settled now at now' s m n v =
    let looked = (is_blacklisted now at m).1 in
    if_cases (λ (o : Option ℕ × Member). Settled o.1) m.closed (λ _. v)
      (λ _.
        install-Settled _ _ (is_cooling_down now' s looked).1
          (is_cooling_down_answer now' s looked
            ∙ ap (λ b. (is_cooling_down now' s looked).0 || b)
                (sym (is_blacklisted_answer now at m)))
          (is_cooling_down-Settled now' s looked (is_blacklisted-Settled now at m n v)))

-- The operation meets no cooldown that has passed unnoticed. Looking at the cooldown, its timer,
-- a success and a manual ban may come late.
abbrev pub IsPrompt : Event → Member → Type 0
IsPrompt (fail r _ _ _ _ _) m = Noticed r.decided m
IsPrompt (probe_passed r) m = Noticed r.decided m
IsPrompt (look_banned now _) m = Noticed now m
IsPrompt (ban_timer _ _ now _) m = Noticed now m
IsPrompt (watch now _ _ _) m = Noticed now m
IsPrompt (admin_release r) m = Noticed r.decided m
IsPrompt _ m = Unit {0}

-- Watchers never miss a change: as long as no operation overtakes a cooldown that has passed
-- unnoticed, every operation keeps what it finds: each watcher of an open state was last told
-- exactly the fast flag, and the flag is set exactly while a ban or a cooldown is recorded.
pub step-Settled : (e : Event) (m : Member) → IsPrompt e m → Settled m → Settled (step e m)
unfolding step unsubscribe inc_active dec_active release_owner retire_if_unused attach_entry
    persist_transition record_failure_with_source
step-Settled (fail r t th b c tr) m h v =
    record_failure-Settled r _ m (positive_or_pos c minute (omega arith)) h v
step-Settled (succeed r at) m h v = record_success-Settled r at m v
step-Settled (probe_passed r) m h v = release_after_probe-Settled r m h v
step-Settled (look_banned now at) m h v = is_blacklisted-Settled now at m h v
step-Settled (look_cooling now at) m h v = is_cooling_down-Settled now at m v
step-Settled (ban_timer u at now s) m h v = expire_blacklist-Settled u at now s m h v
step-Settled (cooldown_timer u at s) m h v = expire_cooldown-Settled u at s m v
step-Settled (watch now at now' s) m h v = subscribe-Settled now at now' s m h v
step-Settled (unwatch id) m h v = ground (arith, told-delete m.blacklisted_fast id m.watchers)
step-Settled connect m h v = ground arith
step-Settled (disconnect at) m h v = ground arith
step-Settled (drop_owner at) m h v = ground arith
step-Settled (attach now at e) m h v = ground arith
step-Settled (admin_release r) m h v = force_release-Settled r m h v
step-Settled (admin_ban r d) m h v = blacklist_member-Settled r d m v

-- A state that nothing blocks and whose watchers have heard nothing since `m`.
pub record Unheard (m n : Member) : Type 0 where
  pub watchers : n.watchers ≡ m.watchers
  pub flag : n.blacklisted_fast ≡ false
  pub nothing : (n.blacklisted ≡ false) × (n.cooldown_until ≡ 0)

release-Unheard :
    (r : Readings) (m : Member)
    → m.closed ≡ false
    → m.blacklisted ≡ false
    → m.cooldown_until ≤ r.decided
    → Unheard m (release_after_probe r m).1
unfolding release_after_probe publish_blacklist persist_transition
release-Unheard r m live free passed = record {
  watchers = ground arith;
  flag = ground arith;
  nothing = ground arith;
}

late_timer-Unheard :
    (m n : Member) (c left saved_at : ℕ)
    → c ≢ 0
    → Unheard m n
    → Unheard m (expire_cooldown c left saved_at n)
unfolding expire_cooldown
late_timer-Unheard m n c left saved_at h v =
    subst (Unheard m) (sym (ground (arith, h, v.nothing))) v

look_banned-Unheard :
    (m n : Member) (now saved : ℕ) → Unheard m n → Unheard m (is_blacklisted now saved n).1
unfolding is_blacklisted
look_banned-Unheard m n now saved v = record {
  watchers = ground (arith, v.watchers, v.nothing);
  flag = ground (arith, v.nothing);
  nothing = ground (arith, v.nothing);
}

look_cooling-Unheard :
    (m n : Member) (now saved : ℕ) → Unheard m n → Unheard m (is_cooling_down now saved n).1
unfolding is_cooling_down
look_cooling-Unheard m n now saved v = record {
  watchers = ground (arith, v.watchers, v.nothing);
  flag = ground (arith, v.nothing);
  nothing = ground (arith, v.nothing);
}

-- A lost wake-up: in an open state in which every watcher knows the fast flag, and the flag is set
-- exactly while a ban or a cooldown is recorded, and which is not banned and has a cooldown that
-- has passed at `r.decided` while its timer waits for the lock, a healthy probe that comes first
-- ends the cooldown and clears the flag, but every watcher was last told that the node is blocked
-- and is told nothing; the timer's callback behind it, whenever it runs, and then a look at the ban
-- and one at the cooldown leave the watchers and the flag so.
pub release_after_probe-silent :
    (r : Readings) (m : Member) (left saved_at now saved now' saved' : ℕ)
    → Settled m
    → m.closed ≡ false
    → m.blacklisted ≡ false
    → m.cooldown_until ≢ 0
    → m.cooldown_until ≤ r.decided
    → (told true m.watchers ≡ true)
      × Unheard m (step (probe_passed r) m)
      × Unheard m (
          run
            (probe_passed r
              ∷ cooldown_timer m.cooldown_until left saved_at
              ∷ look_banned now saved
              ∷ look_cooling now' saved'
              ∷ [])
            m)
unfolding step run
release_after_probe-silent r m left saved_at now saved now' saved' v live free cooling passed =
    let silent = release-Unheard r m live free passed in
    (
      subst (λ b. told b m.watchers ≡ true) (v.flagged cooling) (v.known live),
      silent,
      look_cooling-Unheard m _ now' saved' (
          look_banned-Unheard m _ now saved
            (late_timer-Unheard m _ m.cooldown_until left saved_at cooling silent)),
    )
