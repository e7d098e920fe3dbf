-- ===== src/Pool/Member/Answers.antt =====
-- What `isBlocked` answers, and what the look leaves behind.
use proxyfleet.Base.{ℕ, Bool, refl, ◌∙◌, ◌≡◌, ◌&&◌, ◌||◌, ltb, leb, if◌then◌else◌, arith}
use proxyfleet.Pool.Member.State.{Member, publish_blacklist, persist_transition}
use proxyfleet.Pool.Member.Expiry.{
  is_blocked, is_blacklisted, is_cooling_down, after_blacklist_expiry, after_cooldown_expiry,
}

-- What a look at the ban finds and keeps.
record BanSeen (now : ℕ) (m : Member) (o : Bool × Member) : Type 0 where
  answer : o.0 ≡ (m.blacklisted && leb now m.blacklisted_until)
  ban : o.1.blacklisted ≡ (m.blacklisted && leb now m.blacklisted_until)
  cooldown : o.1.cooldown_until ≡ m.cooldown_until

-- What a look at the cooldown finds and keeps.
record CooldownSeen (now : ℕ) (m : Member) (o : Bool × Member) : Type 0 where
  answer : o.0 ≡ ltb now m.cooldown_until
  ban : o.1.blacklisted ≡ m.blacklisted
  cooldown : o.1.cooldown_until ≡ (if ltb now m.cooldown_until then m.cooldown_until else 0)
  flagged : o.1.blacklisted_fast ≡ (m.blacklisted || ltb now m.cooldown_until)

is_blacklisted-BanSeen : (now at : ℕ) (m : Member) → BanSeen now m (is_blacklisted now at m)
unfolding is_blacklisted after_blacklist_expiry publish_blacklist persist_transition
is_blacklisted-BanSeen now at m = ground arith

is_cooling_down-CooldownSeen :
    (now at : ℕ) (m : Member) → CooldownSeen now m (is_cooling_down now at m)
unfolding is_cooling_down after_cooldown_expiry publish_blacklist persist_transition
is_cooling_down-CooldownSeen now at m = ground arith

-- A look finds exactly the holds that still run: it answers that the node is blocked if a ban is
-- recorded whose deadline has not passed (its very instant still bans) or a cooldown that ends
-- later, and it leaves the fast flag at its answer, that ban and that cooldown, and nothing that
-- has run out.
pub is_blocked_lem :
    (now saved_at saved_again : ℕ) (m : Member)
    → let banned = m.blacklisted && leb now m.blacklisted_until in
      let cooling = ltb now m.cooldown_until in
      let looked = is_blocked now saved_at saved_again m in
      (looked.0 ≡ (banned || cooling))
      × (looked.1.blacklisted_fast ≡ (banned || cooling))
      × (looked.1.blacklisted ≡ banned)
      × (looked.1.cooldown_until ≡ (if cooling then m.cooldown_until else 0))
unfolding is_blocked
is_blocked_lem now saved_at saved_again m =
    let looked = (is_blacklisted now saved_at m).1 in
    let b = is_blacklisted-BanSeen now saved_at m in
    let c = is_cooling_down-CooldownSeen now saved_again looked in
    (
      rw (b.answer, c.answer, b.cooldown) refl,
      rw (c.flagged, b.cooldown, b.ban) refl,
      c.ban ∙ b.ban,
      rw (c.cooldown, b.cooldown) refl,
    )
