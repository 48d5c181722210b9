-- ===== src/Core/Digest.antt =====
-- `to_hex`, `digest_json` and `digest_bytes` of crates/langshell-core/src/lib.rs. The hash and the
-- serializer are other packages' code, so they are parameters.
use Prim.Native.String.{[] as nil, ◌∷◌ as ◌::◌}
use langshell.Common.{
  and-eq-true_iff, ◌≤◌, ◌⊎◌, inl, inr, ℕ, zero, suc, ◌+◌, ◌-◌, ◌*◌, ◌/◌, ◌%◌, ◌<◌, ◌≡◌, refl, Bool,
  true, false, ◌&&◌, code, String, Option, none, some, and_then, List, [], ◌∷◌, All, nth_char, leb,
  eqb, if◌then◌else◌, arith,
}
use langshell.Core.{Value}

pub record Hashing : Type 0 where
  pub sha3_256 : List ℕ → List ℕ
  pub to_vec : Value → List ℕ

-- Two digits a byte, from the table HEX.
unfoldable pub to_hex : List ℕ → String
unfolding nth_char
to_hex [] = nil
to_hex (byte ∷ rest) =
    nth_char "0123456789abcdef" (byte / 16)
    :: nth_char "0123456789abcdef" (byte % 16)
    :: to_hex rest

unfoldable pub digest_json : Hashing → Value → String
digest_json h value = to_hex (h.sha3_256 (h.to_vec value))

unfoldable pub digest_bytes : Hashing → List ℕ → String
digest_bytes h bs = to_hex (h.sha3_256 bs)

-- A reader of hexadecimal texts, to say what `to_hex` writes.
hex_value : ℕ → Option ℕ
hex_value n =
    if leb b'0' n && leb n b'9'
    then some (n - 48)
    else if leb b'a' n && leb n b'f'
    then some (n - 87)
    else none

pub from_hex : String → Option (List ℕ)
from_hex nil = some []
from_hex (c :: nil) = none
from_hex (c :: d :: s) =
    let rest = from_hex s in
    and_then (hex_value (code c))
      λ high. and_then (hex_value (code d)) λ low. and_then rest λ bs. some ((high * 16 + low) ∷ bs)

-- A test holds of 0, …, n.
up_to : (ℕ → Bool) → ℕ → Bool
up_to test zero = test 0
up_to test (suc n) = up_to test n && test (suc n)

up_to_lem : (test : ℕ → Bool) (n d : ℕ) → up_to test n ≡ true → d ≤ n → test d ≡ true
unfolding up_to
up_to_lem test zero d h le = let zero_digit : d ≡ 0 = omega arith in rw zero_digit h
up_to_lem test (suc n) d h le =
    let both = (and-eq-true_iff (up_to test n) (test (suc n))).0 h in
    elim (le_cases d n le) [
      | inl below ↦ up_to_lem test n d both.0 below
      | inr last ↦ rw last both.1
    ]
  where
    le_cases : (d n : ℕ) → d ≤ suc n → (d ≤ n) ⊎ (d ≡ suc n)
    le_cases d n h = ground arith

reads : ℕ → Option ℕ → Bool
reads n none = false
reads n (some m) = eqb m n

digit_table : up_to (λ d. reads d (hex_value (code (nth_char "0123456789abcdef" d)))) 15 ≡ true
unfolding up_to reads hex_value nth_char
digit_table = refl

reads-eq : (n : ℕ) (o : Option ℕ) → reads n o ≡ true → o ≡ some n
unfolding reads
reads-eq n none h = cc
reads-eq n (some m) h = ground arith

hex_value-nth_char : (d : ℕ) → d < 16 → hex_value (code (nth_char "0123456789abcdef" d)) ≡ some d
hex_value-nth_char d h = reads-eq d _ (up_to_lem _ 15 d digit_table (omega arith))

abbrev pub IsBytes : List ℕ → Type 0
IsBytes = All (λ b. b < 256)

-- Reading what `to_hex` writes gives the bytes back: no two digests share a text.
pub from_hex-to_hex : (bs : List ℕ) → IsBytes bs → from_hex (to_hex bs) ≡ some bs
unfolding from_hex to_hex
from_hex-to_hex [] h = refl
from_hex-to_hex (b ∷ bs) h =
    rw
      (
        hex_value-nth_char (b / 16) (omega (arith, h.0)),
        hex_value-nth_char (b % 16) (omega arith),
        from_hex-to_hex bs h.1,
      )
      (ground arith)
