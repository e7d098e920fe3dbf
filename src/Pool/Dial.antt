-- ===== src/Pool/Dial.antt =====
-- internal/outbound/pool/pool.go, the retry loop of `DialContext`. What the calls of a round answer
-- is an argument, so that they may answer anything; what the loop does with it is a list of
-- effects. That of `ListenPacket` is the same without failover.
pub mod Balance
use proxyfleet.Base.{
  ℕ, zero, suc, ◌+◌, ◌&&◌, Bool, true, false, not, Option, none, some, List, [], ◌∷◌, ◌++◌, ◌==◌,
  if◌then◌else◌,
}

-- The answers in one round: the member picked and whether the pick took a hold on the job's session
-- (`use.done`), a backoff for local resources, `admitDial`, `failoverLeaseForDial`, the dial
-- itself, `p.closed` behind it, `commitJobFailover`, the context's error,
-- `pauseForLocalResourceError` and `prepareJobFailover`.
pub record Round : Type 0 where
  pub picked : Option ℕ
  pub takes_hold : Bool
  pub backs_off : Bool
  pub admitted : Bool
  pub can_failover : Bool
  pub connects : Bool
  pub closed : Bool
  pub commits : Bool
  pub cancelled : Bool
  pub shortage : Bool
  pub prepares : Bool

pub data Effect : Type 0 where
  takes : Effect
  drops : Effect
  inc_active : ℕ → Effect
  dials : ℕ → Effect
  opens : ℕ → Effect
  closes : ℕ → Effect
  dec_active : ℕ → Effect
  logs : ℕ → Effect
  records_failure : ℕ → Effect
  forgets_sticky : Effect
  begins : Effect
  aborts : Effect

pub data DialError : Type 0 where
  no_member : DialError
  resource_backoff : DialError
  pool_closed : DialError
  commit_rejected : DialError
  context_error : DialError
  local_shortage : DialError
  alternate_failed : DialError
  no_failover : DialError
  all_failed : DialError

-- What `use` holds: a failover that was begun, and the hold on a session.
pub record Use : Type 0 where
  pub failover : Bool
  pub held : Bool

-- How a round ends: with a connection, which takes over the hold, with an error, or with a member
-- that failed and another attempt.
pub data Next : Type 0 where
  connected : ℕ → Bool → Bool → Next
  failed : DialError → Use → Next
  again : ℕ → Use → Next

-- `use.done()`, where there is one.
abbrev pub drop_hold : Bool → List Effect
drop_hold held = if held then drops ∷ [] else []

abbrev pub take_hold : Bool → List Effect
take_hold taken = if taken then takes ∷ [] else []

-- Behind a dial that succeeded, with the connection that it opened.
unfoldable pub after_success : Round → ℕ → Use → List Effect × Next
after_success r m u =
    if r.closed
    then (opens m ∷ closes m ∷ dec_active m ∷ [], failed pool_closed u)
    else if not u.failover
    then (opens m ∷ [], connected m u.held u.failover)
    else if r.commits
    then (opens m ∷ (drop_hold u.held ++ (takes ∷ [])), connected m true u.failover)
    else (opens m ∷ closes m ∷ dec_active m ∷ [], failed commit_rejected u)

-- Behind a dial that failed and is the member's fault; `more` says that attempts are left.
unfoldable pub after_blame : Bool → Bool → Round → ℕ → Use → List Effect × Next
after_blame sticky more r m u =
    let forget = if sticky then forgets_sticky ∷ [] else [] in
    let begin = if r.can_failover && more then begins ∷ [] else [] in
    if u.failover
    then (records_failure m ∷ [], failed alternate_failed u)
    else if r.can_failover && more && not r.prepares
    then (records_failure m ∷ [], failed no_failover u)
    else (
      records_failure m ∷ (begin ++ forget),
      again m (record { failover = r.can_failover && more; held = u.held }),
    )

-- Behind a dial that failed.
unfoldable pub after_failure : Bool → Bool → Round → ℕ → Use → List Effect × Next
after_failure sticky more r m u =
    let (effects, next) = after_blame sticky more r m u in
    if r.closed
    then (dec_active m ∷ logs m ∷ [], failed pool_closed u)
    else if r.cancelled
    then (dec_active m ∷ logs m ∷ [], failed context_error u)
    else if r.shortage
    then (dec_active m ∷ logs m ∷ [], failed local_shortage u)
    else (dec_active m ∷ logs m ∷ effects, next)

unfoldable pub attempt_with : Bool → Bool → Round → Use → Option ℕ → List Effect × Next
attempt_with sticky more r u none = ([], failed no_member u)
attempt_with sticky more r u (some m) =
    let (effects, next) =
      if r.connects then after_success r m u else after_failure sticky more r m u in
    if r.backs_off
    then ([], failed resource_backoff u)
    else if not r.admitted
    then ([], failed pool_closed u)
    else (inc_active m ∷ dials m ∷ effects, next)

-- One round.
unfoldable pub attempt : Bool → Bool → Round → Use → List Effect × Next
attempt sticky more r u =
    let (effects, next) = attempt_with sticky more r (record u { held = r.takes_hold }) r.picked in
    (drop_hold u.held ++ (take_hold r.takes_hold ++ effects), next)

-- The deferred calls.
abbrev pub finish : Use → List Effect
finish u = (if u.failover then aborts ∷ [] else []) ++ drop_hold u.held

pub data Outcome : Type 0 where
  connection : ℕ → Bool → Outcome
  error : DialError → Outcome

-- The answers to each attempt, by its number and the members tried.
abbrev pub World : Type 0
World = ℕ → List ℕ → Round

-- What is behind a round, by what another attempt would do.
unfoldable pub resume :
    (ℕ → Use → List Effect × Outcome) → List Effect → Next → List Effect × Outcome
resume later effects (connected m held failover) =
    (effects ++ finish (record { failover = failover; held = false }), connection m held)
resume later effects (failed e u) = (effects ++ finish u, error e)
resume later effects (again m u) = let (rest, outcome) = later m u in (effects ++ rest, outcome)

-- The loop, by the attempts left; without any the last error is returned.
unfoldable pub dial : Bool → World → ℕ → ℕ → List ℕ → Use → List Effect × Outcome
dial sticky w zero k tried u = (finish u, error all_failed)
dial sticky w (suc n) k tried u =
    let (effects, next) = attempt sticky (not (n == 0)) (w k tried) u in
    resume (λ m u'. dial sticky w n (k + 1) (m ∷ tried) u') effects next

-- `DialContext` in a pool that is open, for at most `max_attempts`.
unfoldable pub dial_context : Bool → World → ℕ → List Effect × Outcome
dial_context sticky w max_attempts =
    dial sticky w max_attempts 1 [] (record { failover = false; held = false })
