-- ===== src/Geoip/Lifecycle.antt =====
-- internal/geoip/router.go: starting and stopping the router. `lifecycleMu` is held throughout
-- `Start` up to the publication of the server, and in `Stop` before and behind the shutdown, which
-- runs without it. An error is a number.
pub mod Stopping
use proxyfleet.Base.{
  ℕ, ◌+◌, ◌-◌, ◌<◌, Bool, true, false, not, ◌&&◌, Option, none, some, if◌then◌else◌,
}

pub data State : Type 0 where
  new_state : State
  running : State
  stopping : State
  stopped : State

pub data StartAnswer : Type 0 where
  started : StartAnswer
  already_started : StartAnswer
  router_stopped : StartAnswer
  context_error : StartAnswer
  listen_error : StartAnswer

-- What the context says before and behind the binding, and whether the address can be bound.
pub record Surroundings : Type 0 where
  pub cancelled : Bool
  pub binds : Bool
  pub cancelled_later : Bool

-- The router's lifecycle; whether it holds a server with its listener; how many calls of `Stop`
-- are shutting it down; how many listeners were ever published; how many shutdowns are over.
pub record Life : Type 0 where
  pub state : State
  pub server : Bool
  pub stop_err : Option ℕ
  pub shutting_down : ℕ
  pub published : ℕ
  pub shutdowns : ℕ

unfoldable pub new_life : Life
new_life = record {
  state = new_state;
  server = false;
  stop_err = none;
  shutting_down = 0;
  published = 0;
  shutdowns = 0;
}

-- `Start` of a new router, under the lock.
unfoldable pub start_new : Surroundings → Life → StartAnswer × Life
start_new s l =
    if not s.binds
    then (listen_error, l)
    else if s.cancelled_later
    then (context_error, l)
    else (started, record l { state = running; server = true; published = l.published + 1 })

unfoldable pub start_in : Surroundings → Life → State → StartAnswer × Life
start_in s l new_state = start_new s l
start_in s l running = (already_started, l)
start_in s l stopping = (router_stopped, l)
start_in s l stopped = (router_stopped, l)

unfoldable pub start : Surroundings → Life → StartAnswer × Life
start s l = if s.cancelled then (context_error, l) else start_in s l l.state

-- What a call of `Stop` goes on to do behind its first lock: return the error kept, wait for the
-- call that shuts down, or shut down.
pub data StopAnswer : Type 0 where
  returns : Option ℕ → StopAnswer
  waits : StopAnswer
  shuts_down : StopAnswer

unfoldable pub begin_stop_in : Life → State → StopAnswer × Life
begin_stop_in l stopped = (returns l.stop_err, l)
begin_stop_in l stopping = (waits, l)
begin_stop_in l _ = (shuts_down, record l { state = stopping; shutting_down = l.shutting_down + 1 })

unfoldable pub begin_stop : Life → StopAnswer × Life
begin_stop l = begin_stop_in l l.state

-- The second locked part of the call that shuts down; `err` is what the shutdown answered.
unfoldable pub end_stop : Option ℕ → Life → Life
end_stop err l = record l {
  state = stopped;
  server = false;
  stop_err = err;
  shutting_down = l.shutting_down - 1;
  shutdowns = l.shutdowns + 1;
}

unfoldable pub is_running : State → Bool
is_running running = true
is_running _ = false

pub data Step : Life → Life → Type 0 where
  starts : {l : Life} (s : Surroundings) → Step l (start s l).1
  begins_stop : {l : Life} → Step l (begin_stop l).1
  ends_stop : {l : Life} (err : Option ℕ) → 0 < l.shutting_down → Step l (end_stop err l)

pub data Reaches (l : Life) : Life → Type 0 where
  here : Reaches l l
  then_step : {m n : Life} → Reaches l m → Step m n → Reaches l n
