-- ===== src/Pool/Pick.antt =====
-- internal/outbound/pool/pool.go, `pickMemberExcludingForTarget`: which member a dial gets, by the
-- dedicated listener, the affinity cache, the selection among the eligible members, and the
-- selection once more behind a release of automatic bans. How a job's session picks its node, and
-- what that release has made of the members by the time of the second selection, are arguments.
pub mod Sound
pub mod Memory
pub mod Affinity
pub mod Modes
use proxyfleet.Base.{
  ℕ, zero, suc, ◌+◌, ◌%◌, ◌^◌, Bool, true, false, not, ◌&&◌, ◌||◌, ◌==◌, if◌then◌else◌, Option,
  none, some, List, [], ◌∷◌, length, Bytes, bytes_eq, is_nil,
}
use proxyfleet.Config.Jobs.{elem}
use proxyfleet.Pool.Eligible.{MemberSet, contains, Served, EligiblePool, set_member_eligible}
use proxyfleet.Pool.Selection.{Candidate, select_random, select_balanced, select_latency}
use proxyfleet.Pool.Sticky.{StickyCache, get, set, remove}

-- What a pick reads of a member: its pointer and tag, the networks of its outbound, whether it has
-- shared state and `blacklistedFast` is set there, whether the client's profile allows it, its open
-- connections, and its latency for the target.
pub record Node : Type 0 where
  pub id : ℕ
  pub tag : Bytes
  pub tcp : Bool
  pub udp : Bool
  pub shared : Bool
  pub blacklisted_fast : Bool
  pub allowed : Bool
  pub active : ℕ
  pub latency : ℕ

pub record State : Type 0 where
  pub pool : EligiblePool
  pub rr_counter : ℕ
  pub sticky : Option StickyCache

-- The modes but for `modeQuality`, whose scores are floating point.
pub data Mode : Type 0 where
  random : Mode
  balance : Mode
  latency : ℕ → ℕ → Mode
  round_robin : Mode

-- What a dial asks for; `starts` are the random starts, by the attempts left.
pub record Ask : Type 0 where
  pub udp : Bool
  pub tried : List Bytes
  pub sticky_key : Bytes
  pub now : ℕ
  pub mode : Mode
  pub starts : ℕ → ℕ

pub data PickError : Type 0 where
  no_dedicated : PickError
  no_application : PickError
  job_refused : PickError
  no_healthy : PickError

pub data Picked : Type 0 where
  picked : Node → Picked
  refused : PickError → Picked

abbrev pub find_tag : Bytes → List Node → Option Node
find_tag tag [] = none
find_tag tag (n ∷ nodes) = if bytes_eq n.tag tag then some n else find_tag tag nodes

abbrev pub find_id : ℕ → List Node → Option Node
find_id id [] = none
find_id id (n ∷ nodes) = if n.id == id then some n else find_id id nodes

-- `supportsMemberNetwork`.
abbrev pub supports : Bool → Node → Bool
supports udp n = if udp then n.udp else n.tcp

abbrev pub eligible_set : Bool → EligiblePool → MemberSet
eligible_set udp p = if udp then p.eligible_udp else p.eligible_tcp

abbrev pub is_flagged : Node → Bool
is_flagged n = n.shared && n.blacklisted_fast

unfoldable pub member_eligible_for_profile : Bool → Node → EligiblePool → Bool
member_eligible_for_profile udp n p =
    supports udp n && not (is_flagged n) && contains n.id (eligible_set udp p) && n.allowed

-- What the selection reads of a member of the index.
abbrev pub candidate_of : List Bytes → ℕ → Option Node → Candidate
candidate_of tried id none = record { id = id; eligible = false; active = 0; latency = 0 }
candidate_of tried id (some n) = record {
  id = id;
  eligible = not (elem n.tag tried) && n.allowed;
  active = n.active;
  latency = n.latency;
}

abbrev pub candidates_of : List Bytes → List Node → List ℕ → List Candidate
candidates_of tried nodes [] = []
candidates_of tried nodes (id ∷ ids) =
    candidate_of tried id (find_id id nodes) ∷ candidates_of tried nodes ids

abbrev pub candidate_at : ℕ → List Candidate → Option Candidate
candidate_at i [] = none
candidate_at zero (c ∷ cs) = some c
candidate_at (suc i) (c ∷ cs) = candidate_at i cs

abbrev pub if_eligible : Option Candidate × ℕ → Option Candidate → ℕ → Option Candidate × ℕ
if_eligible later none counter = later
if_eligible later (some c) counter = if c.eligible then (some c, counter) else later

-- `rrCounter` is an `atomic.Uint32`.
abbrev pub next_count : ℕ → ℕ
next_count counter = (counter + 1) % 2 ^ 32

-- The loop of the round-robin mode, by the offsets left. Where the counter wraps within the loop, a
-- candidate may be visited twice and another one not at all.
unfoldable pub select_round_robin : ℕ → ℕ → List Candidate → Option Candidate × ℕ
select_round_robin zero counter cs = (none, counter)
select_round_robin (suc left) counter cs =
    if_eligible (select_round_robin left (next_count counter) cs)
      (candidate_at (counter % length cs) cs) (next_count counter)

unfoldable pub select_by : Mode → ℕ → ℕ → List Candidate → Option Candidate × ℕ
select_by random start counter cs = (select_random start cs, counter)
select_by balance start counter cs = (select_balanced start cs, counter)
select_by (latency tolerance size) start counter cs =
    (select_latency tolerance size start cs, counter)
select_by round_robin start counter cs = select_round_robin (length cs) counter cs

abbrev pub node_of : List Node → Option Candidate → Option Node
node_of nodes none = none
node_of nodes (some c) = find_id c.id nodes

unfoldable pub select_eligible_member : Ask → List Node → ℕ → State → Option Node × State
select_eligible_member a nodes start st =
    let ids = (eligible_set a.udp st.pool).items in
    let (c, counter) = select_by a.mode start st.rr_counter (candidates_of a.tried nodes ids) in
    (node_of nodes c, record st { rr_counter = counter })

-- `none` stands for a panic, from here on.
abbrev pub without_member :
    (State → Option (Option Node × State))
    → State
    → Option EligiblePool
    → Option (Option Node × State)
without_member again st none = none
without_member again st (some p) = again (record st { pool = p })

abbrev pub served : Node → Served
served n = record { member = n.id; tcp = n.tcp; udp = n.udp }

abbrev pub after_select :
    (State → Option (Option Node × State)) → Option Node × State → Option (Option Node × State)
after_select again (none, st) = some (none, st)
after_select again (some n, st) =
    if not (is_flagged n)
    then some (some n, st)
    else without_member again st (set_member_eligible (served n) false st.pool)

-- The attempts of `selectHealthyMemberExcludingForTarget`.
unfoldable pub select_healthy_member : ℕ → Ask → List Node → State → Option (Option Node × State)
select_healthy_member zero a nodes st = some (none, st)
select_healthy_member (suc left) a nodes st =
    after_select (select_healthy_member left a nodes)
      (select_eligible_member a nodes (a.starts left) st)

abbrev pub remember : Ask → Node → Option StickyCache → Option StickyCache
remember a n none = none
remember a n (some c) =
    if is_nil a.sticky_key then some c else some (set a.sticky_key n.tag a.now c)

-- The node that the affinity cache names, if it can be used, or the cache without it.
abbrev pub use_or_forget :
    Ask → EligiblePool → Option Node → StickyCache → Option Node × StickyCache
use_or_forget a p none c = (none, remove a.sticky_key c)
use_or_forget a p (some n) c =
    if not (elem n.tag a.tried) && member_eligible_for_profile a.udp n p
    then (some n, c)
    else (none, remove a.sticky_key c)

abbrev pub use_tag :
    Ask → EligiblePool → List Node → Option Bytes × StickyCache → Option Node × StickyCache
use_tag a p nodes (none, c) = (none, c)
use_tag a p nodes (some tag, c) = use_or_forget a p (find_tag tag nodes) c

abbrev pub sticky_member :
    Ask → EligiblePool → List Node → Option StickyCache → Option Node × Option StickyCache
sticky_member a p nodes none = (none, none)
sticky_member a p nodes (some c) =
    if is_nil a.sticky_key
    then (none, some c)
    else let (n, c') = use_tag a p nodes (get a.sticky_key a.now c) in (n, some c')

-- Behind a selection: a member that is remembered for the client, or what follows without one.
abbrev pub found_or :
    Ask → (State → Option (Picked × State)) → Option (Option Node × State) → Option (Picked × State)
found_or a without none = none
found_or a without (some (none, st)) = without st
found_or a without (some (some n, st)) =
    some (picked n, record st { sticky = remember a n st.sticky })

abbrev pub give_up : State → Option (Picked × State)
give_up st = some (refused no_healthy, st)

-- Behind `releaseIfAllBlacklisted`, with the members as they are if it has released any.
abbrev pub select_again : Ask → Option (List Node × EligiblePool) → State → Option (Picked × State)
select_again a none st = give_up st
select_again a (some (nodes, p)) st =
    found_or a give_up (select_healthy_member 2 a nodes (record st { pool = p }))

abbrev pub pick_behind_sticky :
    Ask
    → Option (List Node × EligiblePool)
    → List Node
    → State
    → Option Node × Option StickyCache
    → Option (Picked × State)
pick_behind_sticky a released nodes st (some n, sticky) =
    some (picked n, record st { sticky = sticky })
pick_behind_sticky a released nodes st (none, sticky) =
    found_or a (select_again a released)
      (select_healthy_member 2 a nodes (record st { sticky = sticky }))

-- A dial through the shared pool.
unfoldable pub pick_shared :
    Ask → Option (List Node × EligiblePool) → List Node → State → Option (Picked × State)
pick_shared a released nodes st =
    pick_behind_sticky a released nodes st (sticky_member a st.pool nodes st.sticky)

-- What the inbound of a dial says: the tag of a dedicated member (empty if there is none), the answer
-- of the job's session, and whether it is reserved for applications.
pub record Inbound : Type 0 where
  pub dedicated : Bytes
  pub job : Option (Option Node)
  pub for_applications : Bool

abbrev pub dedicated_member : Bool → Option Node → Picked
dedicated_member udp none = refused no_dedicated
dedicated_member udp (some n) = if supports udp n then picked n else refused no_dedicated

abbrev pub job_member : Option Node → Picked
job_member none = refused job_refused
job_member (some n) = picked n

abbrev pub pick_without_job :
    Inbound
    → Ask
    → Option (List Node × EligiblePool)
    → List Node
    → State
    → Option (Option Node)
    → Option (Picked × State)
pick_without_job i a released nodes st (some answer) = some (job_member answer, st)
pick_without_job i a released nodes st none =
    let shared = pick_shared a released nodes st in
    if i.for_applications then some (refused no_application, st) else shared

unfoldable pub pick_member :
    Inbound → Ask → Option (List Node × EligiblePool) → List Node → State → Option (Picked × State)
pick_member i a released nodes st =
    let rest = pick_without_job i a released nodes st i.job in
    if is_nil i.dedicated
    then rest
    else some (dedicated_member a.udp (find_tag i.dedicated nodes), st)
