-- ===== src/Examples/Data.antt =====
-- A job, its nodes and a store with one session.
use proxyfleet.Base.{ℕ, true, false, List, [], ◌∷◌, Bytes, length, codes}
use proxyfleet.Jobs.Store.Config.{JobConfig}
use proxyfleet.Jobs.Store.Lease.{Lease, SelectedNode, Codec, lease_key, new_lease}
use proxyfleet.Jobs.Store.State.{replaced, Store, Reservation}
use proxyfleet.Jobs.Store.Bindings.{Request, Migration}
use proxyfleet.Jobs.Store.Failover.{Attempt}

-- A codec that writes nothing down.
abbrev pub codec : Codec
codec = record { digest = λ l. 1 ∷ []; encoded_size = λ ls. length ls }

abbrev pub job : JobConfig
job = record {
  name = codes "j";
  mode = codes "pinned";
  failure_policy = codes "failover";
  ingress = codes "shared";
  password = [];
  endpoint = [];
  session_idle_timeout = 100;
  session_ttl = 0;
  max_sessions = 2;
  max_accounts_per_node = 1;
}

abbrev pub empty : Store
empty = record {
  failovers = [];
  reservations = [];
  next_reservation = 0;
  active = [];
  activity_dirty = false;
  opened_at = 0;
  persistent = true;
  leases = [];
  assignment_pauses = 0;
  disk = [];
}

abbrev pub node : Bytes → SelectedNode
node n = record { node = n; name = n }

abbrev pub ranking : List SelectedNode
ranking = node (codes "a") ∷ node (codes "b") ∷ []

abbrev pub request : ℕ → Bytes → Request
request now fresh = record { now = now; fresh = fresh; written = replaced }

abbrev pub alice : Bytes
alice = codes "alice"

abbrev pub lease : Lease
lease = new_lease job (codes "p") alice (codes "a") 10 (codes "r1")

abbrev pub bound : Store
bound = record empty {
  leases = (lease_key (codes "j") alice, lease) ∷ [];
  disk = (lease_key (codes "j") alice, lease) ∷ [];
}

abbrev pub alice_key : Bytes
alice_key = lease_key (codes "j") alice

-- A move of the session to the node `b`.
abbrev pub move : Migration
move = record { session = alice; node = codes "b"; expected_revision = codes "r1" }

abbrev pub moved_to_b : Lease
moved_to_b = new_lease job (codes "p") alice (codes "b") 20 (codes "r2")

abbrev pub after_move : Store
after_move = record empty {
  leases = (alice_key, moved_to_b) ∷ [];
  disk = (alice_key, moved_to_b) ∷ [];
}

-- The node `b` reserved for the session.
abbrev pub reservation : Reservation
reservation = record {
  expected = lease;
  target = node (codes "b");
  policy = codes "p";
  reason = codes "dial_failed";
  from_name = codes "a";
  committed = [];
  users = 1;
}

abbrev pub reserved : Store
reserved = record bound {
  failovers = (alice_key, 0) ∷ [];
  reservations = (0, reservation) ∷ [];
  next_reservation = 1;
}

abbrev pub attempt : Attempt
attempt = record { reservation = 0; closed = false }
