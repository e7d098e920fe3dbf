-- ===== src/Jobs/Store/Lease.antt =====
-- internal/jobs: a session's binding to a node, its keys and its version.
use proxyfleet.Base.{
  ℕ, ◌+◌, Bool, not, ◌&&◌, Option, none, List, [], ◌∷◌, ◌++◌, Bytes, bytes_eq, ltb, ◌==◌,
  if◌then◌else◌,
}
use proxyfleet.Jobs.Store.Config.{JobConfig}

pub record FailoverEvent : Type 0 where
  pub at : ℕ
  pub from_node : Bytes
  pub to_node : Bytes
  pub from_name : Bytes
  pub to_name : Bytes
  pub reason : Bytes

pub record Lease : Type 0 where
  pub last_used_at : ℕ
  pub job : Bytes
  pub session : Bytes
  pub node : Bytes
  pub policy : Bytes
  pub expires_at : ℕ
  pub permanent : Bool
  pub revision : Bytes
  pub failover_count : ℕ
  pub last_failover : Option FailoverEvent

-- `SelectedNode`; its measurement is not read here.
pub record SelectedNode : Type 0 where
  pub node : Bytes
  pub name : Bytes

-- What the store takes from the JSON and SHA-256 libraries: the digest of a lease without a
-- revision, and the size of the encoded leases.
pub record Codec : Type 0 where
  pub digest : Lease → Bytes
  pub encoded_size : List (Bytes × Lease) → ℕ

unfoldable pub expired : ℕ → Lease → Bool
expired now l = not l.permanent && not (ltb now l.expires_at)

-- `Version`: use does not change it.
unfoldable pub version : Codec → Lease → Bytes
version c l =
    if bytes_eq l.revision [] then c.digest (record l { last_used_at = 0 }) else l.revision

-- `leaseKey`: a zero byte parts the two names.
unfoldable pub lease_key : Bytes → Bytes → Bytes
lease_key job session = job ++ (0 ∷ session)

unfoldable pub activity_key : Codec → Lease → Bytes
activity_key c l = lease_key l.job l.session ++ (0 ∷ version c l)

-- `newLease`; its two readings of the clock are one, `fresh` is `rand.Text()`.
unfoldable pub new_lease : JobConfig → Bytes → Bytes → Bytes → ℕ → Bytes → Lease
new_lease j policy session node now fresh = record {
  last_used_at = now;
  job = j.name;
  session = session;
  node = node;
  policy = policy;
  expires_at = if j.session_ttl == 0 then 0 else now + j.session_ttl;
  permanent = j.session_ttl == 0;
  revision = fresh;
  failover_count = 0;
  last_failover = none;
}
