-- ===== src/Core/Truncate.antt =====
-- `truncate_utf8` of crates/langshell-core/src/lib.rs, over the native text and its UTF-8 length.
pub mod Longest
use Prim.Native.Char.{len_utf8}
use Prim.Native.String.{[] as nil, ◌∷◌ as ◌::◌}
use Prim.Native.String.len
use Prim.Native.String.append
use text.Mathlib.TextPositions.{len_utf8-pos}
use langshell.Common.{
  ℕ, zero, suc, ◌+◌, ◌-◌, ◌≤◌, ◌<◌, ◌≡◌, refl, ap, ◌∙◌, Bool, true, false, Char, String, len,
  Option, none, some, ltb, leb, eqb, if◌then◌else◌, ◌<>◌, Bool-cases, inl, inr, ◌⊎◌, arith,
}

-- `str::is_char_boundary`.
unfoldable pub is_char_boundary : String → ℕ → Bool
is_char_boundary nil i = eqb i 0
is_char_boundary (c :: s) i =
    if eqb i 0
    then true
    else if ltb i (len_utf8 c)
    then false
    else is_char_boundary s (i - len_utf8 c)

-- What stands before a byte position that is a boundary.
take_bytes : ℕ → String → String
take_bytes i nil = nil
take_bytes i (c :: s) = if eqb i 0 then nil else c :: take_bytes (i - len_utf8 c) s

-- `String::truncate`; `none` is its panic, at a position inside a character.
unfoldable pub truncate : String → ℕ → Option String
unfolding take_bytes is_char_boundary
truncate text n =
    if ltb (len text) n
    then some text
    else if is_char_boundary text n
    then some (take_bytes n text)
    else none

-- `while boundary > 0 && !text.is_char_boundary(boundary) { boundary -= 1; }`
back_up : String → ℕ → ℕ
unfolding is_char_boundary
back_up text zero = zero
back_up text (suc b) =
    let below = back_up text b in if is_char_boundary text (suc b) then suc b else below

-- The text that the argument holds afterwards, and the result.
unfoldable pub truncate_utf8 : String → ℕ → Option (String × Bool)
unfolding back_up truncate
truncate_utf8 text max_bytes =
    if leb (len text) max_bytes
    then some (text, false)
    else elim (truncate text (back_up text max_bytes)) [ none ↦ none | some t ↦ some (t, true) ]
