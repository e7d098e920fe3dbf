-- ===== src/Config/Sessions/Wire.antt =====
-- A session's name on the wire is read back, and fits.
use mathlib.Core.List.{append_assoc}
use proxyfleet.Base.{
  ℕ, ◌+◌, ◌<◌, ◌≤◌, ◌≡◌, ◌≢◌, ◌↔◌, inl, inr, ◌&&◌, ◌||◌, Bool, true, false, not, some, [], ◌∷◌,
  ◌++◌, Bytes, length, is_nil, cut_prefix, contains_byte, cut_prefix-append, cut_prefix-some,
  Option-cases, length-append, refl, sym, ap, ◌∙◌, arith,
}
use proxyfleet.Config.Sessions.{
  has_control, session_username_separator, is_session_byte, all_session_bytes,
  valid_proxy_session_id, proxy_session_id, valid_session_credentials,
}

-- The username that names a session to an endpoint.
abbrev pub wire_name : Bytes → Bytes → Bytes
wire_name base session = base ++ (session_username_separator ++ session)

wire_name_assoc :
    (base session : Bytes)
    → wire_name base session ≡ (base ++ session_username_separator) ++ session
wire_name_assoc base session = sym (append_assoc base session_username_separator session)

-- What it is to be the name of a session of `base`.
abbrev pub IsNameOf : Bytes → Bytes → Bytes → Type 0
IsNameOf base username session =
    (base ≢ []) × (username ≡ wire_name base session) × (valid_proxy_session_id session ≡ true)

is_nil-cases : (s : Bytes) → not (is_nil s) ≡ true → s ≢ []
is_nil-cases [] h = absurd (ground (arith, h))
is_nil-cases (c ∷ s) h = λ e. ground (arith, e)

not_nil : (s : Bytes) → s ≢ [] → not (is_nil s) ≡ true
not_nil [] h = absurd (h refl)
not_nil (c ∷ s) h = refl

both : (a b : Bool) → (a && b) ≡ true → (a ≡ true) × (b ≡ true)
both true b h = (refl, h)
both false b h = absurd (ground (arith, h))

read_name :
    (base username session : Bytes)
    → proxy_session_id base username ≡ (session, true)
    → IsNameOf base username session
unfolding proxy_session_id
read_name base username session h =
    elim (Option-cases (cut_prefix (base ++ session_username_separator) username)) [
      | inl absent ↦ absurd (ground (arith, ap (λ r. r.1) (rw (absent, proxy_session_id) at h)))
      | inr (s, found) ↦
          let h' = rw (found, proxy_session_id) at h in
          let same : s ≡ session = ap (λ r. r.0) h' in
          let (not_empty, valid) = both _ _ (ap (λ r. r.1) h') in
          (
            is_nil-cases base not_empty,
            cut_prefix-some (base ++ session_username_separator) username s found
                ∙ sym (wire_name_assoc base s)
                ∙ ap (wire_name base) same,
            sym (ap valid_proxy_session_id same) ∙ valid,
          )
    ]

written_name :
    (base username session : Bytes)
    → IsNameOf base username session
    → proxy_session_id base username ≡ (session, true)
unfolding proxy_session_id
written_name base username session (not_empty, name, valid) =
    let found : cut_prefix (base ++ session_username_separator) username ≡ some session =
      ap (cut_prefix (base ++ session_username_separator)) (name ∙ wire_name_assoc base session)
      ∙ cut_prefix-append (base ++ session_username_separator) session in
    rw (found, proxy_session_id, valid, not_nil base not_empty) refl

-- A username is read as a session exactly if it is the endpoint's own, which is not empty, with
-- the separator and a valid session id behind it; the session is then that id.
pub proxy_session_id_lem :
    (base username session : Bytes)
    → proxy_session_id base username ≡ (session, true) ↔ IsNameOf base username session
proxy_session_id_lem base username session =
    (read_name base username session, written_name base username session)

has_control-append : (s t : Bytes) → has_control (s ++ t) ≡ (has_control s || has_control t)
unfolding has_control
has_control-append [] t = refl
has_control-append (c ∷ s) t = ground (arith, has_control-append s t)

contains_byte-append :
    (b : ℕ) (s t : Bytes) → contains_byte b (s ++ t) ≡ (contains_byte b s || contains_byte b t)
contains_byte-append b [] t = refl
contains_byte-append b (c ∷ s) t = ground (arith, contains_byte-append b s t)

session_bytes-clean :
    (s : Bytes)
    → all_session_bytes s ≡ true
    → (has_control s ≡ false) × (contains_byte 58 s ≡ false)
unfolding has_control all_session_bytes
session_bytes-clean [] h = (refl, refl)
session_bytes-clean (c ∷ s) h =
    let (first, rest) = both (is_session_byte c) (all_session_bytes s) h in
    let clean = session_bytes-clean s rest in
    (ground (arith, first, clean.0), ground (arith, first, clean.1))

record Sound (base : Bytes) : Type 0 where
  some_bytes : 0 < length base
  short : length base + 137 ≤ 255
  one_piece : contains_byte 58 base ≡ false
  clean : has_control base ≡ false

valid_session_credentials-Sound :
    (base password : Bytes) → valid_session_credentials base password ≡ true → Sound base
unfolding valid_session_credentials
valid_session_credentials-Sound base password ok =
    ground (arith, ok, has_control-append base password)

record SoundId (session : Bytes) : Type 0 where
  short : length session ≤ 128
  bytes : all_session_bytes session ≡ true

valid_proxy_session_id-SoundId :
    (session : Bytes) → valid_proxy_session_id session ≡ true → SoundId session
unfolding valid_proxy_session_id
valid_proxy_session_id-SoundId session valid = ground (arith, valid)

-- A test that fails on all three parts of a name fails on the name.
separator_clean :
    (has_control session_username_separator ≡ false)
    × (contains_byte 58 session_username_separator ≡ false)
unfolding has_control
separator_clean = (refl, refl)

-- What the wire can carry: a Basic credential is cut at its first colon, and SOCKS5 gives a
-- username 255 bytes.
pub record Carried (base session : Bytes) : Type 0 where
  pub fits : length (wire_name base session) ≤ 255
  pub one_piece : contains_byte 58 (wire_name base session) ≡ false
  pub clean : has_control (wire_name base session) ≡ false
  pub read_back : proxy_session_id base (wire_name base session) ≡ (session, true)

-- Every session of an endpoint with valid credentials can be named on the wire: for every valid
-- session id the username is at most 255 bytes long, has no colon and no control character, and is
-- read back as that session.
pub wire_name-Carried :
    (base password session : Bytes)
    → valid_session_credentials base password ≡ true
    → valid_proxy_session_id session ≡ true
    → Carried base session
wire_name-Carried base password session ok valid =
    let own = valid_session_credentials-Sound base password ok in
    let id = valid_proxy_session_id-SoundId session valid in
    let bytes = session_bytes-clean session id.bytes in
    let tail = session_username_separator ++ session in
    record {
      fits = omega (
        arith,
        own.short,
        id.short,
        length-append base tail,
        length-append session_username_separator session,
      );
      one_piece = ground (
        arith,
        contains_byte-append 58 base tail,
        contains_byte-append 58 session_username_separator session,
        own.one_piece,
        separator_clean.1,
        bytes.1,
      );
      clean = ground (
        arith,
        has_control-append base tail,
        has_control-append session_username_separator session,
        own.clean,
        separator_clean.0,
        bytes.0,
      );
      read_back =
          written_name base (wire_name base session) session
            (λ e. ground (arith, own.some_bytes, e), refl, valid);
    }
