-- ===== src/Pool/Member/Notices.antt =====
-- What the watchers, the pools' indexes of eligible members, have last been told, and what the
-- operations other than a failure leave them with.
use proxyfleet.Base.{
  ℕ, ◌<◌, ◌≡◌, ◌≢◌, ◌⊎◌, Bool, true, false, not, ◌&&◌, List, [], ◌∷◌, map, ℤ, ℕ_key, insert, delete,
  refl, arith,
}
use proxyfleet.Pool.Member.State.{
  Member, Readings, publish_blacklist, persist_transition, schedule_blacklist_expiry,
}
use proxyfleet.Pool.Member.Success.{
  record_success, release_after_probe, force_release, blacklist_member,
}
use proxyfleet.Pool.Member.Expiry.{
  is_blacklisted, is_cooling_down, expire_blacklist, expire_cooldown, after_blacklist_expiry,
  after_cooldown_expiry,
}

abbrev same_bool : Bool → Bool → Bool
same_bool true b = b
same_bool false b = not b

-- Whether every watcher was last told `b`.
unfoldable pub told : Bool → List (ℕ × Bool) → Bool
told b [] = true
told b ((id, last) ∷ ws) = same_bool b last && told b ws

pub told-publish : (b : Bool) (ws : List (ℕ × Bool)) → told b (map (λ w. (w.0, b)) ws) ≡ true
unfolding told
told-publish b [] = refl
told-publish b ((id, last) ∷ ws) = ground (arith, told-publish b ws)

pub told-insert :
    (b : Bool) (id : ℕ) (ws : List (ℕ × Bool)) → told b ws ≡ true → told b (insert id b ws) ≡ true
unfolding told insert
told-insert b id [] h = ground arith
told-insert b id ((j, last) ∷ ws) h = ground (arith, told-insert b id ws)

pub told-delete :
    (b : Bool) (id : ℕ) (ws : List (ℕ × Bool)) → told b ws ≡ true → told b (delete id ws) ≡ true
unfolding told delete
told-delete b id [] h = refl
told-delete b id ((j, last) ∷ ws) h = ground (arith, told-delete b id ws)

-- An open state whose watchers all know the fast flag, which covers every cooldown.
pub record Settled (m : Member) : Type 0 where
  pub known : m.closed ≡ false → told m.blacklisted_fast m.watchers ≡ true
  pub flagged : m.cooldown_until ≢ 0 → m.blacklisted_fast ≡ true
  pub ban_flagged : m.blacklisted ≡ true → m.blacklisted_fast ≡ true
  pub reason : m.blacklisted_fast ≡ true → (m.blacklisted ≡ true) ⊎ (m.cooldown_until ≢ 0)

-- No cooldown of the state has passed unnoticed at `now`.
abbrev pub Noticed : ℕ → Member → Type 0
Noticed now m = (m.cooldown_until ≡ 0) ⊎ (now < m.cooldown_until)

pub release_after_probe-Settled :
    (r : Readings) (m : Member)
    → Noticed r.decided m
    → Settled m
    → Settled (release_after_probe r m).1
unfolding release_after_probe publish_blacklist persist_transition
release_after_probe-Settled r m h v = ground (arith, told-publish false m.watchers)

pub force_release-Settled :
    (r : Readings) (m : Member) → Noticed r.decided m → Settled m → Settled (force_release r m)
unfolding force_release publish_blacklist persist_transition
force_release-Settled r m h v = ground (arith, told-publish false m.watchers)

pub blacklist_member-Settled :
    (r : Readings) (d : ℤ) (m : Member) → Settled m → Settled (blacklist_member r d m)
unfolding blacklist_member publish_blacklist persist_transition schedule_blacklist_expiry
blacklist_member-Settled r d m v = ground (arith, told-publish true m.watchers)

pub is_blacklisted-Settled :
    (now at : ℕ) (m : Member) → Noticed now m → Settled m → Settled (is_blacklisted now at m).1
unfolding is_blacklisted after_blacklist_expiry publish_blacklist persist_transition
is_blacklisted-Settled now at m h v = ground (arith, told-publish false m.watchers)

-- A look at the cooldown settles the state however late it comes.
pub is_cooling_down-Settled :
    (now at : ℕ) (m : Member) → Settled m → Settled (is_cooling_down now at m).1
unfolding is_cooling_down after_cooldown_expiry publish_blacklist persist_transition
is_cooling_down-Settled now at m v = ground (arith, told-publish false m.watchers)

pub expire_blacklist-Settled :
    (u at now s : ℕ) (m : Member)
    → Noticed now m
    → Settled m
    → Settled (expire_blacklist u at now s m)
unfolding expire_blacklist after_blacklist_expiry publish_blacklist persist_transition
expire_blacklist-Settled u at now s m h v = ground (arith, told-publish false m.watchers)

pub expire_cooldown-Settled :
    (u at s : ℕ) (m : Member) → Settled m → Settled (expire_cooldown u at s m)
unfolding expire_cooldown after_cooldown_expiry publish_blacklist persist_transition
expire_cooldown-Settled u at s m v = ground (arith, told-publish false m.watchers)

pub record_success-Settled :
    (r : Readings) (at : ℕ) (m : Member) → Settled m → Settled (record_success r at m)
unfolding record_success is_cooling_down after_cooldown_expiry publish_blacklist persist_transition
record_success-Settled r at m v = ground (arith, told-publish false m.watchers)
