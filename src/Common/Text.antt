-- ===== src/Common/Text.antt =====
-- Rust's `str` as the native text: a list of characters, with its UTF-8 bytes.
use Prim.Native.Nat.{ℕ, zero, suc, ◌+◌, ◌/◌, ◌%◌}
use Prim.Native.Char.{Char, code, nul}
use Prim.Native.String.{String, [], ◌∷◌, ◌++◌ as ◌+++◌}
use mathlib.Core.Bool.{Bool, true, false, ◌&&◌, ◌||◌}
use mathlib.Core.List
use mathlib.Core.List.{List}
use mathlib.Core.Option.{Option, none, some}
use langshell.Common.Tests.{ltb, leb, eqb, if◌then◌else◌, is_some}

-- Text concatenation, as `format!` and `+` build it.
infixr 65 ◌<>◌
abbrev pub ◌<>◌ : String → String → String
s <> t = s +++ t

abbrev pub is_empty : String → Bool
is_empty [] = true
is_empty (_ ∷ _) = false

-- `u8::is_ascii_alphabetic` and `u8::is_ascii_alphanumeric`, of a byte or a code point.
abbrev pub is_ascii_alphabetic : ℕ → Bool
is_ascii_alphabetic b = (leb b'a' b && leb b b'z') || (leb b'A' b && leb b b'Z')

abbrev pub is_ascii_alphanumeric : ℕ → Bool
is_ascii_alphanumeric b = is_ascii_alphabetic b || (leb b'0' b && leb b b'9')

-- The UTF-8 encoding of a code point.
abbrev pub encode_utf8 : ℕ → List ℕ
encode_utf8 n =
    if ltb n 128
    then List.◌∷◌ n List.[]
    else if ltb n 2048
    then List.◌∷◌ (192 + n / 64) (List.◌∷◌ (128 + n % 64) List.[])
    else if ltb n 65536
    then List.◌∷◌ (224 + n / 4096) (List.◌∷◌ (128 + n / 64 % 64) (List.◌∷◌ (128 + n % 64) List.[]))
    else List.◌∷◌ (240 + n / 262144) (
        List.◌∷◌ (128 + n / 4096 % 64)
          (List.◌∷◌ (128 + n / 64 % 64) (List.◌∷◌ (128 + n % 64) List.[])))

-- `str::bytes` and `str::as_bytes`.
unfoldable pub bytes : String → List ℕ
bytes [] = List.[]
bytes (c ∷ s) = List.◌++◌ (encode_utf8 (code c)) (bytes s)

-- `str::strip_prefix`.
unfoldable pub strip_prefix : String → String → Option String
strip_prefix s [] = some s
strip_prefix [] (d ∷ t) = none
strip_prefix (c ∷ s) (d ∷ t) = if eqb (code c) (code d) then strip_prefix s t else none

-- `str::trim_start_matches` of one character.
unfoldable pub trim_start_matches : ℕ → String → String
trim_start_matches n [] = []
trim_start_matches n (c ∷ s) = if eqb (code c) n then trim_start_matches n s else c ∷ s

abbrev cons_trimmed : ℕ → Char → String → String
cons_trimmed n c [] = if eqb (code c) n then [] else c ∷ []
cons_trimmed n c (d ∷ t) = c ∷ d ∷ t

-- `str::trim_end_matches` of one character.
unfoldable pub trim_end_matches : ℕ → String → String
trim_end_matches n [] = []
trim_end_matches n (c ∷ s) = cons_trimmed n c (trim_end_matches n s)

-- `s.split(ch).next().unwrap_or_default()`: what stands before the first `ch`.
unfoldable pub before : ℕ → String → String
before n [] = []
before n (c ∷ s) = if eqb (code c) n then [] else c ∷ before n s

-- Whether a text has a character.
unfoldable pub has_char : ℕ → String → Bool
has_char n [] = false
has_char n (c ∷ s) = eqb (code c) n || has_char n s

-- The character at an index, and the last resort past the end.
unfoldable pub nth_char : String → ℕ → Char
nth_char [] i = nul
nth_char (c ∷ s) zero = c
nth_char (c ∷ s) (suc i) = nth_char s i

decimal_from : ℕ → ℕ → String → String
decimal_from zero n acc = acc
decimal_from (suc fuel) n acc =
    let shown = nth_char "0123456789" (n % 10) ∷ acc in
    elim (ltb n 10) [ true ↦ shown | false ↦ decimal_from fuel (n / 10) shown ]

-- `format!("{}", n)`.
unfoldable pub decimal : ℕ → String
unfolding decimal_from nth_char
decimal n = decimal_from (suc n) n []

escape : ℕ → Char → String
escape n c =
    if eqb n b'"'
    then "\\\""
    else if eqb n 92
    then "\\\\"
    else if eqb n 10
    then "\\n"
    else if eqb n 13
    then "\\r"
    else if eqb n 9
    then "\\t"
    else if eqb n 0
    then "\\0"
    else c ∷ []

escaped : String → String
unfolding escape
escaped [] = []
escaped (c ∷ s) = escape (code c) c <> escaped s

-- `format!("{:?}", s)`: the text in quotes. The `\u{…}` escapes, of the other control characters and
-- of combining marks, are left out.
unfoldable pub debug : String → String
unfolding escaped
debug s = "\"" <> escaped s <> "\""

abbrev cons_head : Char → List String → List String
cons_head c List.[] = List.◌∷◌ (c ∷ []) List.[]
cons_head c (List.◌∷◌ part parts) = List.◌∷◌ (c ∷ part) parts

-- `str::split` at a character.
unfoldable pub split : ℕ → String → List String
split n [] = List.◌∷◌ [] List.[]
split n (c ∷ s) =
    let parts = split n s in if eqb (code c) n then List.◌∷◌ [] parts else cons_head c parts

-- `str::starts_with`.
unfoldable pub starts_with : String → String → Bool
unfolding strip_prefix
starts_with s p = is_some (strip_prefix s p)

-- `char::is_whitespace`, of a code point: the property White_Space.
unfoldable pub is_whitespace : ℕ → Bool
is_whitespace n =
    (leb 9 n && leb n 13)
    || eqb n 32
    || eqb n 0x85
    || eqb n 0xa0
    || eqb n 0x1680
    || (leb 0x2000 n && leb n 0x200a)
    || eqb n 0x2028
    || eqb n 0x2029
    || eqb n 0x202f
    || eqb n 0x205f
    || eqb n 0x3000

trim_start : String → String
unfolding is_whitespace
trim_start [] = []
trim_start (c ∷ s) = if is_whitespace (code c) then trim_start s else c ∷ s

cons_unless_blank : Char → String → String
unfolding is_whitespace
cons_unless_blank c [] = if is_whitespace (code c) then [] else c ∷ []
cons_unless_blank c (d ∷ t) = c ∷ d ∷ t

trim_end : String → String
unfolding cons_unless_blank
trim_end [] = []
trim_end (c ∷ s) = cons_unless_blank c (trim_end s)

-- `str::trim`.
unfoldable pub trim : String → String
unfolding trim_start trim_end
trim s = trim_end (trim_start s)
