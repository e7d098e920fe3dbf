-- ===== src/Pool/Dial/Balance.antt =====
-- Whatever the calls answer, what a request opens, takes and begins is closed, dropped and ended.
use proxyfleet.Base.{ℕ, ◌+◌, ◌≤◌, ◌≡◌, Bool, true, false, List, [], ◌∷◌, ◌==◌, if◌then◌else◌}
use proxyfleet.Pool.Dial.{
  Effect, takes, drops, inc_active, dials, opens, closes, begins, aborts, dec_active, Next,
  connected, failed, again, Outcome, connection, error,
}

-- How often an effect of a kind occurs.
abbrev pub count : (Effect → Bool) → List Effect → ℕ
count p [] = 0
count p (e ∷ es) = (if p e then 1 else 0) + count p es

abbrev pub is_inc : ℕ → Effect → Bool
is_inc m (inc_active k) = k == m
is_inc m _ = false

abbrev pub is_dec : ℕ → Effect → Bool
is_dec m (dec_active k) = k == m
is_dec m _ = false

abbrev pub is_dial : Effect → Bool
is_dial (dials k) = true
is_dial _ = false

abbrev pub is_open : ℕ → Effect → Bool
is_open m (opens k) = k == m
is_open m _ = false

abbrev pub is_close : ℕ → Effect → Bool
is_close m (closes k) = k == m
is_close m _ = false

abbrev pub is_begin : Effect → Bool
is_begin begins = true
is_begin _ = false

abbrev pub is_abort : Effect → Bool
is_abort aborts = true
is_abort _ = false

abbrev pub is_take : Effect → Bool
is_take takes = true
is_take _ = false

abbrev pub is_drop : Effect → Bool
is_drop drops = true
is_drop _ = false

abbrev one_if : Bool → ℕ
one_if b = if b then 1 else 0

-- The connections to `m` and the holds that are open behind a round.
abbrev open_after : ℕ → Next → ℕ
open_after m (connected k _ _) = one_if (k == m)
open_after m _ = 0

abbrev held_after : Next → ℕ
held_after (connected _ held _) = one_if held
held_after (failed _ u) = one_if u.held
held_after (again _ u) = one_if u.held

abbrev begun_after : Next → ℕ
begun_after (connected _ _ failover) = one_if failover
begun_after (failed _ u) = one_if u.failover
begun_after (again _ u) = one_if u.failover

record RoundOk (m begun held : ℕ) (r : List Effect × Next) : Type 0 where
  opened : count (is_open m) r.0 ≡ count (is_close m) r.0 + open_after m r.1
  failovers : begun + count is_begin r.0 ≡ count is_abort r.0 + begun_after r.1
  active : count (is_inc m) r.0 ≡ count (is_dec m) r.0 + open_after m r.1
  holds : held + count is_take r.0 ≡ count is_drop r.0 + held_after r.1
  few : count is_dial r.0 ≤ 1

-- The connections to `m` and the holds that the caller is given.
abbrev pub open_connections : ℕ → Outcome → ℕ
open_connections m (connection k _) = one_if (k == m)
open_connections m (error _) = 0

abbrev pub given_holds : Outcome → ℕ
given_holds (connection _ held) = one_if held
given_holds (error _) = 0

pub record Balanced (m begun held rounds : ℕ) (r : List Effect × Outcome) : Type 0 where
  pub opened : count (is_open m) r.0 ≡ count (is_close m) r.0 + open_connections m r.1
  pub failovers : begun + count is_begin r.0 ≡ count is_abort r.0
  pub active : count (is_inc m) r.0 ≡ count (is_dec m) r.0 + open_connections m r.1
  pub holds : held + count is_take r.0 ≡ count is_drop r.0 + given_holds r.1
  pub few : count is_dial r.0 ≤ rounds
