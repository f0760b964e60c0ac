-- ===== src/Gateway/Ssh.antt =====
-- services/ssh-gateway/src/ssh.rs and the grant of api.rs: the checks before an SSH process starts.
-- Base64 and the fingerprint (SHA-256 in base64 without padding) are third-party code, and so they are
-- parameters.
use Prim.Native.String.{◌++◌ as ◌<>◌}
use Prim.Native.Char.{code}
use ctfdpp.Base.{
  ℕ, Bool, false, not, ◌&&◌, ◌||◌, Option, none, some, String, List, [], ◌∷◌, leb, ◌==◌,
  if◌then◌else◌, length, is_empty, byte_length, all_chars, starts_with_char, is_ascii_alphanumeric,
  str_eq, is_ascii, starts_with,
}

pub data TicketPurpose : Type 0 where
  probe terminal : TicketPurpose

pub record TicketGrant : Type 0 where
  pub ticket_id : ℕ
  pub session_id : Option ℕ
  pub purpose : TicketPurpose
  pub host_id : ℕ
  pub hostname : String
  pub ssh_port : ℕ
  pub ssh_user : String
  pub identity_public_key : String
  pub identity_fingerprint : String
  pub trusted_host_public_key : Option String
  pub trusted_host_key_fingerprint : Option String
  pub host_key_alias : String
  pub idle_timeout_seconds : ℕ
  pub absolute_timeout_seconds : ℕ

pub record HostKey : Type 0 where
  pub public_key : String
  pub fingerprint : String

-- `==` of `HostKey`
abbrev pub host_key_eq : HostKey → HostKey → Bool
host_key_eq a b = str_eq a.public_key b.public_key && str_eq a.fingerprint b.fingerprint

abbrev is_lower_or_underscore : ℕ → Bool
is_lower_or_underscore c = (leb b'a' c && leb c b'z') || c == b'_'

abbrev is_login_char : ℕ → Bool
is_login_char c = (leb b'a' c && leb c b'z') || (leb b'0' c && leb c b'9') || c == b'_' || c == b'-'

-- The first character, and all the others.
abbrev user_chars : String → Bool
user_chars String.[] = false
user_chars (String.◌∷◌ c s) = is_lower_or_underscore (code c) && all_chars is_login_char s

unfoldable pub safe_user : String → Bool
safe_user value =
    not (is_empty value)
    && leb (byte_length value) 32
    && all_chars is_ascii value
    && not (str_eq value "root" || str_eq value "toor")
    && user_chars value

abbrev is_alias_char : ℕ → Bool
is_alias_char c = is_ascii_alphanumeric c || c == b'.' || c == b':' || c == b'_' || c == b'-'

unfoldable pub safe_alias : String → Bool
safe_alias value =
    not (is_empty value)
    && leb (byte_length value) 255
    && all_chars is_ascii value
    && not (starts_with_char b'-' value)
    && all_chars is_alias_char value

abbrev pub validate_target : TicketGrant → Bool
validate_target grant = safe_user grant.ssh_user && safe_alias grant.host_key_alias

-- `char::is_whitespace`
abbrev is_whitespace : ℕ → Bool
is_whitespace c =
    (leb 0x9 c && leb c 0xd)
    || c == 0x20
    || c == 0x85
    || c == 0xa0
    || c == 0x1680
    || (leb 0x2000 c && leb c 0x200a)
    || c == 0x2028
    || c == 0x2029
    || c == 0x202f
    || c == 0x205f
    || c == 0x3000

-- `split_whitespace`, with the word that is being read.
abbrev close_word : String → List String → List String
close_word String.[] words = words
close_word (String.◌∷◌ c s) words = String.◌∷◌ c s ∷ words

unfoldable pub fields_from : String → String → List String
fields_from word String.[] = close_word word []
fields_from word (String.◌∷◌ c s) =
    let rest = fields_from "" s in
    let same = fields_from (word <> String.◌∷◌ c "") s in
    if is_whitespace (code c) then close_word word rest else same

abbrev pub split_whitespace : String → List String
split_whitespace value = fields_from "" value

-- b"\0\0\0\x0bssh-ed25519\0\0\0\x20"
abbrev pub ed25519_header : List ℕ
ed25519_header =
    0 ∷ 0 ∷ 0 ∷ 11 ∷ 115 ∷ 115 ∷ 104 ∷ 45 ∷ 101 ∷ 100 ∷ 50 ∷ 53 ∷ 53 ∷ 49 ∷ 57 ∷ 0 ∷ 0 ∷ 0 ∷ 32 ∷ []

module _ (decode : String → Option (List ℕ)) (digest : List ℕ → String) where
  abbrev decoded_key : String → Option (List ℕ) → Option HostKey
  decoded_key encoded none = none
  decoded_key encoded (some decoded) =
      if not (length decoded == 51) || not (starts_with ed25519_header decoded)
      then none
      else some (record {
        public_key = "ssh-ed25519 " <> encoded;
        fingerprint = "SHA256:" <> digest decoded;
      })

  abbrev key_of_fields : List String → Option HostKey
  key_of_fields [] = none
  key_of_fields (kind ∷ []) = none
  key_of_fields (kind ∷ encoded ∷ []) =
      if str_eq kind "ssh-ed25519" then decoded_key encoded (decode encoded) else none
  key_of_fields (kind ∷ encoded ∷ comment ∷ rest) = none

  unfoldable pub canonical_host_key : String → Option HostKey
  canonical_host_key value = key_of_fields (split_whitespace value)

  abbrev consistent : Option String → Option HostKey → Option HostKey
  consistent fingerprint none = none
  consistent none (some key) = none
  consistent (some fingerprint) (some key) =
      if str_eq fingerprint key.fingerprint then some key else none

  abbrev trusted_key : Option String → Option String → Option HostKey
  trusted_key fingerprint none = none
  trusted_key fingerprint (some public_key) = consistent fingerprint (canonical_host_key public_key)

  -- `none` where the code returns an error
  unfoldable pub trusted_host_key : TicketGrant → Option HostKey
  trusted_host_key grant =
      trusted_key grant.trusted_host_key_fingerprint grant.trusted_host_public_key
