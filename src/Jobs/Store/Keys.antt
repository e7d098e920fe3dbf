-- ===== src/Jobs/Store/Keys.antt =====
-- The keys of sessions do not collide.
use proxyfleet.Base.{◌≡◌, ◌≢◌, refl, [], ◌∷◌, Bytes, All, arith}
use proxyfleet.Jobs.Store.Lease.{lease_key}

-- No byte is zero. Names of jobs match a pattern of letters, digits and dashes.
abbrev pub HasNoZero : Bytes → Type 0
HasNoZero = All (λ b. b ≢ 0)

-- Two names parted by a zero byte determine both names: two sessions of jobs whose names hold no
-- zero byte have one key only if they are the same session of the same job.
pub lease_key-injective :
    (job job' session session' : Bytes)
    → HasNoZero job
    → HasNoZero job'
    → lease_key job session ≡ lease_key job' session'
    → (job ≡ job') × (session ≡ session')
unfolding lease_key
lease_key-injective [] [] session session' h h' e = (refl, ground arith)
lease_key-injective [] (b ∷ job') session session' h h' e = absurd (h'.0 (ground arith))
lease_key-injective (b ∷ job) [] session session' h h' e = absurd (h.0 (ground arith))
lease_key-injective (b ∷ job) (b' ∷ job') session session' h h' e =
    ground (arith, lease_key-injective job job' session session' h.1 h'.1 (ground arith))
