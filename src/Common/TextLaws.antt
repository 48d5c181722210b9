-- ===== src/Common/TextLaws.antt =====
-- Laws of prefixes and of cutting a text at a character.
use Prim.Native.Nat.{ℕ}
use Prim.Native.Char.{code}
use Prim.Native.String.{String, [] as nil, ◌∷◌ as ◌::◌}
use Prim.Native.String.append
use text.Mathlib.TextEquality.{Char-path}
use mathlib.Core.Path.{◌≡◌, refl, ap, ◌∙◌}
use mathlib.Core.Bool.{Bool, true, false, ◌||◌}
use mathlib.Core.Option.{none, some}
use mathlib.Core.Logic.{inl, inr}
use native.Mathlib.Omega.{arith}
use langshell.Common.Tests.{eqb, if◌then◌else◌, Bool-cases}
use langshell.Common.Text.{◌<>◌, strip_prefix, before, has_char, is_empty}

pub strip_prefix-append : (p s : String) → strip_prefix (p <> s) p ≡ some s
unfolding strip_prefix
strip_prefix-append nil s = rw (append.nil s) refl
strip_prefix-append (c :: p) s = rw (append.cons c p s) (ground (arith, strip_prefix-append p s))

pub strip_prefix-eq_some : (s p : String) {r : String} → strip_prefix s p ≡ some r → s ≡ p <> r
unfolding strip_prefix
strip_prefix-eq_some s nil {r} h = ground (arith, append.nil r)
strip_prefix-eq_some nil (d :: t) h = cc
strip_prefix-eq_some (c :: s) (d :: t) {r} h = elim (Bool-cases (eqb (code c) (code d))) [
  | inl same ↦
      let e : c ≡ d = Char-path c d (ground arith) in
      let ih : s ≡ t <> r = strip_prefix-eq_some s t (ground arith) in
      rw (append.cons d t r, e) (ap (◌::◌ d) ih)
  | inr other ↦ ground arith
]

-- Two texts that differ at a position of both.
abbrev pub differ : String → String → Bool
differ nil t = false
differ (c :: s) nil = false
differ (c :: s) (d :: t) = if eqb (code c) (code d) then differ s t else true

pub strip_prefix-differ : (p q s : String) → differ p q ≡ true → strip_prefix (p <> s) q ≡ none
unfolding strip_prefix
strip_prefix-differ nil q s h = cc
strip_prefix-differ (c :: p) nil s h = cc
strip_prefix-differ (c :: p) (d :: q) s h =
    rw (append.cons c p s) (ground (arith, strip_prefix-differ p q s))

-- A text begins with one of the two characters, or is empty.
abbrev pub StopsAt : ℕ → String → Type 0
StopsAt n nil = Unit
StopsAt n (c :: s) = code c ≡ n

-- The part before the first `n`, by its property.
pub record IsBefore (n : ℕ) (s t : String) : Type 0 where
  pub tail : String
  pub whole : t <> tail ≡ s
  pub clean : has_char n t ≡ false
  pub stop : StopsAt n tail

pub before-IsBefore : (n : ℕ) (s : String) → IsBefore n s (before n s)
unfolding before has_char
before-IsBefore n nil = record { tail = nil; whole = refl; clean = refl; stop = tt }
before-IsBefore n (c :: s) = elim (Bool-cases (eqb (code c) n)) [
  | inl h ↦
      rw h
        (record { tail = c :: s; whole = append.nil (c :: s); clean = refl; stop = ground arith })
  | inr h ↦
      let v = before-IsBefore n s in
      rw h (record {
        tail = v.tail;
        whole = append.cons c (before n s) v.tail ∙ ap (◌::◌ c) v.whole;
        clean = rw (h, v.clean) refl;
        stop = v.stop;
      })
]

before-append :
    (n : ℕ) (t tail : String) → has_char n t ≡ false → StopsAt n tail → before n (t <> tail) ≡ t
unfolding before has_char
before-append n nil nil h s = refl
before-append n nil (c :: tail) h s = rw (append.nil (c :: tail)) (ground arith)
before-append n (c :: t) tail h s =
    rw (append.cons c t tail) (ground (arith, before-append n t tail))

pub IsBefore-unique : (n : ℕ) (s t : String) → IsBefore n s t → before n s ≡ t
IsBefore-unique n s t v = rw (← v.whole) (before-append n t v.tail v.clean v.stop)

pub has_char-append : (n : ℕ) (s t : String) → has_char n (s <> t) ≡ (has_char n s || has_char n t)
unfolding has_char
has_char-append n nil t = rw (append.nil t) refl
has_char-append n (c :: s) t = rw (append.cons c s t) (ground (arith, has_char-append n s t))

pub StopsAt-append : (n : ℕ) (s t : String) → is_empty s ≡ false → StopsAt n s → StopsAt n (s <> t)
StopsAt-append n nil t h k = cc
StopsAt-append n (c :: s) t h k = rw (append.cons c s t) k
