-- ===== src/Geoip/Lifecycle/Stopping.antt =====
-- A router is started once and stopped once, and stays stopped.
use proxyfleet.Base.{ℕ, ◌+◌, ◌<◌, ◌≤◌, ◌≡◌, true, false, Option, if_cases, refl, ap, ◌∙◌, arith}
use proxyfleet.Geoip.Lifecycle.{
  State, new_state, running, stopping, stopped, StartAnswer, Surroundings, Life, new_life,
  start_new, start_in, start, begin_stop_in, begin_stop, end_stop, Step, starts, begins_stop,
  ends_stop, Reaches, here, then_step,
}

-- What each state says of the rest.
abbrev pub Inv : State → Life → Type 0
Inv new_state l = (l.server ≡ false) × (l.published ≡ 0) × (l.shutting_down ≡ 0) × (l.shutdowns ≡ 0)
Inv running l = (l.server ≡ true) × (l.published ≡ 1) × (l.shutting_down ≡ 0) × (l.shutdowns ≡ 0)
Inv stopping l = (l.published ≤ 1) × (l.shutting_down ≡ 1) × (l.shutdowns ≡ 0)
Inv stopped l = (l.server ≡ false) × (l.published ≤ 1) × (l.shutting_down ≡ 0) × (l.shutdowns ≡ 1)

abbrev Kept : Life → Type 0
Kept l = Inv l.state l

start_in-Kept :
    (s : Surroundings) (l : Life) (state : State)
    → l.state ≡ state
    → Inv state l
    → Kept (start_in s l state).1
unfolding start_in start_new
start_in-Kept s l new_state e v = ground (arith, e, v)
start_in-Kept s l running e v = rw e v
start_in-Kept s l stopping e v = rw e v
start_in-Kept s l stopped e v = rw e v

start-Kept : (s : Surroundings) (l : Life) → Kept l → Kept (start s l).1
unfolding start
start-Kept s l v =
    if_cases (λ (o : StartAnswer × Life). Kept o.1) s.cancelled (λ _. v)
      (λ _. start_in-Kept s l l.state refl v)

begin_stop_in-Kept :
    (l : Life) (state : State) → l.state ≡ state → Inv state l → Kept (begin_stop_in l state).1
unfolding begin_stop_in
begin_stop_in-Kept l new_state e v = ground (arith, v)
begin_stop_in-Kept l running e v = ground (arith, v)
begin_stop_in-Kept l stopping e v = rw e v
begin_stop_in-Kept l stopped e v = rw e v

begin_stop-Kept : (l : Life) → Kept l → Kept (begin_stop l).1
unfolding begin_stop
begin_stop-Kept l v = begin_stop_in-Kept l l.state refl v

-- Only a router that is stopping is being shut down.
end_stop-Kept :
    (err : Option ℕ) (l : Life) (state : State)
    → Inv state l
    → 0 < l.shutting_down
    → Kept (end_stop err l)
unfolding end_stop
end_stop-Kept err l new_state v h = absurd (ground (arith, v, h))
end_stop-Kept err l running v h = absurd (ground (arith, v, h))
end_stop-Kept err l stopping v h = ground (arith, v, h)
end_stop-Kept err l stopped v h = absurd (ground (arith, v, h))

step-Kept : {l u : Life} → Step l u → Kept l → Kept u
step-Kept {l} (starts s) v = start-Kept s l v
step-Kept {l} begins_stop v = begin_stop-Kept l v
step-Kept {l} (ends_stop err h) v = end_stop-Kept err l l.state v h

new_life-Kept : Kept new_life
unfolding new_life
new_life-Kept = (refl, refl, refl, refl)

reaches-Kept : {l : Life} → Reaches new_life l → Kept l
reaches-Kept here = new_life-Kept
reaches-Kept (then_step r s) = step-Kept s (reaches-Kept r)

Inv-bounds :
    (state : State) (l : Life)
    → Inv state l
    → (l.published ≤ 1) × (l.shutting_down + l.shutdowns ≤ 1)
Inv-bounds new_state l v = ground (arith, v)
Inv-bounds running l v = ground (arith, v)
Inv-bounds stopping l v = ground (arith, v)
Inv-bounds stopped l v = ground (arith, v)

start_in-stopped :
    (s : Surroundings) (l : Life) (state : State) → state ≡ stopped → (start_in s l state).1 ≡ l
unfolding start_in
start_in-stopped s l new_state e = absurd (ground (arith, e))
start_in-stopped s l running e = refl
start_in-stopped s l stopping e = refl
start_in-stopped s l stopped e = refl

begin_stop_in-stopped : (l : Life) (state : State) → state ≡ stopped → (begin_stop_in l state).1 ≡ l
unfolding begin_stop_in
begin_stop_in-stopped l new_state e = absurd (ground (arith, e))
begin_stop_in-stopped l running e = absurd (ground (arith, e))
begin_stop_in-stopped l stopping e = refl
begin_stop_in-stopped l stopped e = refl

start-stopped : (s : Surroundings) (l : Life) → l.state ≡ stopped → (start s l).1 ≡ l
unfolding start
start-stopped s l e =
    if_cases (λ (o : StartAnswer × Life). o.1 ≡ l) s.cancelled (λ _. refl)
      (λ _. start_in-stopped s l l.state e)

step-stopped : {l u : Life} → Step l u → l.state ≡ stopped → l.shutting_down ≡ 0 → u ≡ l
unfolding begin_stop
step-stopped {l} (starts s) e idle = start-stopped s l e
step-stopped {l} begins_stop e idle = begin_stop_in-stopped l l.state e
step-stopped {l} (ends_stop err h) e idle = absurd (omega (arith, h, idle))

stays : {l u : Life} → Reaches l u → l.state ≡ stopped → l.shutting_down ≡ 0 → u ≡ l
stays here e idle = refl
stays (then_step r s) e idle =
    let same = stays r e idle in
    step-stopped s (ap (λ m. m.state) same ∙ e) (ap (λ m. m.shutting_down) same ∙ idle) ∙ same

Inv-idle : (state : State) (l : Life) → state ≡ stopped → Inv state l → l.shutting_down ≡ 0
Inv-idle new_state l e v = absurd (ground (arith, e))
Inv-idle running l e v = absurd (ground (arith, e))
Inv-idle stopping l e v = absurd (ground (arith, e))
Inv-idle stopped l e v = v.2

-- What a life can come to.
pub record OneLife (l : Life) : Type 0 where
  pub one_listener : l.published ≤ 1
  pub one_shutdown : l.shutting_down + l.shutdowns ≤ 1
  pub last : l.state ≡ stopped → (u : Life) → Reaches l u → u ≡ l

-- A router lives once: whatever calls of `Start` and `Stop` are interleaved, and whatever the
-- context, the binding and the shutdown answer, at most one listener is published and at most one
-- call shuts down, be it under way or over; and once the router is stopped no call changes anything
-- any more, so that it never runs again and every `Stop` returns the same error.
pub reaches-OneLife : {l : Life} → Reaches new_life l → OneLife l
reaches-OneLife {l} r =
    let v = reaches-Kept r in
    let bounds = Inv-bounds l.state l v in
    record {
      one_listener = bounds.0;
      one_shutdown = bounds.1;
      last = λ e u q. stays q e (Inv-idle l.state l e v);
    }
