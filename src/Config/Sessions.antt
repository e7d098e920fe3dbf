-- ===== src/Config/Sessions.antt =====
-- internal/config/jobs.go: what a session is called on the wire, and the credentials that can carry
-- it. The source ranges over runes where only ASCII is accepted or refused; a byte from 128 on is
-- always part of a rune that is neither, or of the replacement for malformed text.
pub mod Wire
use proxyfleet.Base.{
  ℕ, ◌+◌, ◌&&◌, ◌||◌, Bool, true, false, not, Option, none, some, List, [], ◌∷◌, ◌++◌, Bytes,
  length, is_nil, ltb, leb, ◌==◌, if◌then◌else◌, codes, cut_prefix, contains_byte,
}

unfoldable pub has_control : Bytes → Bool
has_control [] = false
has_control (c ∷ s) = ltb c 32 || c == 127 || has_control s

unfoldable pub valid_application_password : Bytes → Bool
valid_application_password password =
    if ltb (length password) 16 || ltb 255 (length password)
    then false
    else not (has_control password)

abbrev pub session_username_separator : Bytes
session_username_separator = codes "-session-"

abbrev pub is_session_byte : ℕ → Bool
is_session_byte c =
    leb 97 c && leb c 122 || leb 65 c && leb c 90 || leb 48 c && leb c 57 || c == 45 || c == 95

unfoldable pub all_session_bytes : Bytes → Bool
all_session_bytes [] = true
all_session_bytes (c ∷ s) = is_session_byte c && all_session_bytes s

unfoldable pub valid_proxy_session_id : Bytes → Bool
valid_proxy_session_id session =
    if ltb (length session) 1 || ltb 128 (length session) then false else all_session_bytes session

-- Without the prefix, `strings.CutPrefix` answers the text as it is.
unfoldable pub proxy_session_id : Bytes → Bytes → Bytes × Bool
proxy_session_id base username = elim (cut_prefix (base ++ session_username_separator) username) [
  | none ↦ (username, false)
  | some session ↦ (session, not (is_nil base) && valid_proxy_session_id session)
]

unfoldable pub valid_session_credentials : Bytes → Bytes → Bool
valid_session_credentials username password =
    if length username == 0
      || ltb 255 (length username + length session_username_separator + 128)
      || length password == 0
      || ltb 255 (length password)
      || contains_byte 58 username
    then false
    else not (has_control (username ++ password))
