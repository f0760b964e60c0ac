-- ===== src/Base/Text.antt =====
-- Texts as the services measure and test them: bytes in UTF-8, characters by their code point.
use Prim.Native.Nat.{ℕ, ◌+◌}
use Prim.Native.String.{String}
use Prim.Native.Char.{code}
use mathlib.Core.List.{List, [], ◌∷◌}
use mathlib.Core.Bool.{Bool, true, false, ◌&&◌, ◌||◌}
use ctfdpp.Base.Tests.{ltb, leb, ◌==◌, if◌then◌else◌}

-- The length of a character in UTF-8.
abbrev pub char_bytes : ℕ → ℕ
char_bytes c = if ltb c 0x80 then 1 else if ltb c 0x800 then 2 else if ltb c 0x10000 then 3 else 4

-- `str::len`, `str::is_empty`, and `chars().all` with a test on the code point
unfoldable pub byte_length : String → ℕ
byte_length String.[] = 0
byte_length (String.◌∷◌ c s) = char_bytes (code c) + byte_length s

abbrev pub is_empty : String → Bool
is_empty String.[] = true
is_empty (String.◌∷◌ c s) = false

unfoldable pub all_chars : (ℕ → Bool) → String → Bool
all_chars p String.[] = true
all_chars p (String.◌∷◌ c s) = p (code c) && all_chars p s

-- `str::starts_with` with a character
abbrev pub starts_with_char : ℕ → String → Bool
starts_with_char c String.[] = false
starts_with_char c (String.◌∷◌ d s) = code d == c

-- `str::is_ascii`, of one code point
abbrev pub is_ascii : ℕ → Bool
is_ascii c = ltb c 0x80

abbrev pub is_ascii_alphanumeric : ℕ → Bool
is_ascii_alphanumeric c =
    (leb b'0' c && leb c b'9') || (leb b'A' c && leb c b'Z') || (leb b'a' c && leb c b'z')

-- `starts_with` of bytes and of texts, which are lists of numbers
unfoldable pub starts_with : List ℕ → List ℕ → Bool
starts_with [] bytes = true
starts_with (p ∷ prefix) [] = false
starts_with (p ∷ prefix) (b ∷ bytes) = p == b && starts_with prefix bytes
