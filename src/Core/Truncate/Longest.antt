-- ===== src/Core/Truncate/Longest.antt =====
-- `truncate_utf8` cuts at the longest prefix of whole characters that fits.
use Prim.Native.Char.{len_utf8}
use Prim.Native.String.{[] as nil, ◌∷◌ as ◌::◌}
use Prim.Native.String.len
use Prim.Native.String.append
use text.Mathlib.TextPositions.{len_utf8-pos}
use langshell.Common.{
  ℕ, zero, suc, ◌+◌, ◌-◌, ◌≤◌, ◌<◌, ◌≡◌, refl, ap, ◌∙◌, true, false, Char, String, len, some, ltb,
  leb, eqb, if◌then◌else◌, ◌<>◌, Bool-cases, inl, inr, ◌⊎◌, arith,
}
use langshell.Core.Truncate.{is_char_boundary, take_bytes, truncate, back_up, truncate_utf8}

-- The longest prefix of whole characters within a number of bytes.
unfoldable pub fit : ℕ → String → String
fit m nil = nil
fit m (c :: s) = if leb (len_utf8 c) m then c :: fit (m - len_utf8 c) s else nil

len-nil : len nil ≡ 0
len-nil = len.nil

len-cons : (c : Char) (s : String) → len (c :: s) ≡ len_utf8 c + len s
len-cons c s = len.cons c s

len_utf8_pos : (c : Char) → 0 < len_utf8 c
len_utf8_pos c = let (k, e) = len_utf8-pos c in omega (arith, e)

-- What the first character does to the longest prefix.
fit-cons :
    (m : ℕ) (c : Char) (s : String)
    → ((len_utf8 c ≤ m) × (fit m (c :: s) ≡ c :: fit (m - len_utf8 c) s))
      ⊎ ((m < len_utf8 c) × (fit m (c :: s) ≡ nil))
unfolding fit
fit-cons m c s = elim (Bool-cases (leb (len_utf8 c) m)) [
  | inl h ↦ inl (ground arith, rw (h, fit))
  | inr h ↦ inr (ground arith, rw (h, fit))
]

len-fit-le : (m : ℕ) (s : String) → (len (fit m s) ≤ m) × (len (fit m s) ≤ len s)
unfolding fit
len-fit-le m nil = (omega (arith, len-nil), omega (arith, len-nil))
len-fit-le m (c :: s) = elim (fit-cons m c s) [
  | inl (h, e) ↦ rw e (
      ground
        (arith, len-fit-le (m - len_utf8 c) s, len-cons c (fit (m - len_utf8 c) s), len-cons c s))
  | inr (h, e) ↦ rw e (ground (arith, len-nil))
]

boundary-cons :
    (c : Char) (s : String) (i : ℕ)
    → is_char_boundary (c :: s) (len_utf8 c + i) ≡ is_char_boundary s i
unfolding is_char_boundary
boundary-cons c s i =
    let e : len_utf8 c + i - len_utf8 c ≡ i = omega arith in
    rw (← e) (ground (arith, len_utf8_pos c, e))

boundary-fit : (m : ℕ) (s : String) → is_char_boundary s (len (fit m s)) ≡ true
unfolding is_char_boundary fit
boundary-fit m nil = refl
boundary-fit m (c :: s) = elim (fit-cons m c s) [
  | inl (h, e) ↦ rw (e, len-cons, boundary-cons) (boundary-fit (m - len_utf8 c) s)
  | inr (h, e) ↦ rw e refl
]

no_boundary :
    (m : ℕ) (s : String) (i : ℕ) → len (fit m s) < i → i ≤ m → is_char_boundary s i ≡ false
unfolding is_char_boundary fit
no_boundary m nil i p q = ground (arith, len-nil)
no_boundary m (c :: s) i p q = elim (Bool-cases (ltb i (len_utf8 c))) [
  | inl inside ↦ ground arith
  | inr past ↦ elim (fit-cons m c s) [
    | inl (h, e) ↦
        let p' : len_utf8 c + len (fit (m - len_utf8 c) s) < i =
          (rw (← len-cons c (fit (m - len_utf8 c) s), ← e) p) in
        ground (arith, no_boundary (m - len_utf8 c) s (i - len_utf8 c))
    | inr (h, e) ↦ ground arith
  ]
]

take_bytes-cons :
    (c : Char) (s : String) (i : ℕ) → take_bytes (len_utf8 c + i) (c :: s) ≡ c :: take_bytes i s
unfolding take_bytes
take_bytes-cons c s i =
    let e : len_utf8 c + i - len_utf8 c ≡ i = omega arith in
    let nonzero : eqb (len_utf8 c + i) 0 ≡ false = ground (arith, len_utf8_pos c) in
    rw (nonzero, e) refl

take_bytes-fit : (m : ℕ) (s : String) → take_bytes (len (fit m s)) s ≡ fit m s
unfolding fit take_bytes
take_bytes-fit m nil = refl
take_bytes-fit m (c :: s) = elim (fit-cons m c s) [
  | inl (h, e) ↦ rw (e, len-cons, take_bytes-cons) (ap (◌::◌ c) (take_bytes-fit (m - len_utf8 c) s))
  | inr (h, e) ↦ rw e refl
]

fit_all : (m : ℕ) (s : String) → len s ≤ m → fit m s ≡ s
unfolding fit
fit_all m nil h = refl
fit_all m (c :: s) h = ground (arith, len-cons c s, fit_all (m - len_utf8 c) s)

back_up-fit : (m : ℕ) (s : String) (b : ℕ) → len (fit m s) ≤ b → b ≤ m → back_up s b ≡ len (fit m s)
unfolding back_up
back_up-fit m s zero p q = omega arith
back_up-fit m s (suc b) p q = elim (Bool-cases (is_char_boundary s (suc b))) [
  | inl h ↦ rw h (ground (arith, no_boundary m s (suc b)))
  | inr h ↦ elim (Bool-cases (eqb (len (fit m s)) (suc b))) [
    | inl same ↦ ground (arith, boundary-fit m s)
    | inr less ↦ rw h (back_up-fit m s b (ground arith) (omega arith))
  ]
]

truncate-fit : (m : ℕ) (s : String) → m < len s → truncate s (back_up s m) ≡ some (fit m s)
unfolding truncate
truncate-fit m s h =
    let whole : ltb (len s) (len (fit m s)) ≡ false = ground (arith, len-fit-le m s) in
    rw
      (
        back_up-fit m s m ((len-fit-le m s).0) (omega arith),
        whole,
        boundary-fit m s,
        take_bytes-fit m s,
      )
      refl

pub truncate_utf8-fit :
    (text : String) (max_bytes : ℕ)
    → truncate_utf8 text max_bytes ≡ some (fit max_bytes text, ltb max_bytes (len text))
unfolding truncate_utf8
truncate_utf8-fit text max_bytes = elim (Bool-cases (leb (len text) max_bytes)) [
  | inl h ↦ rw h (ground (arith, fit_all max_bytes text))
  | inr h ↦ rw (h, truncate-fit max_bytes text (ground arith)) (ground arith)
]

-- `kept` is a prefix of at most `n` bytes, and the next character would not fit.
pub record IsLongestPrefix (n : ℕ) (text kept : String) : Type 0 where
  pub rest : String
  pub whole : kept <> rest ≡ text
  pub fits : len kept ≤ n
  pub longest : (c : Char) (r : String) → rest ≡ c :: r → n < len kept + len_utf8 c

cons-ne-nil : (c : Char) (r : String) → nil ≡ c :: r → ⊥
cons-ne-nil c r e = cc

head-eq : (c d : Char) (s r : String) → c :: s ≡ d :: r → c ≡ d
head-eq c d s r e = cc

fit-IsLongestPrefix : (n : ℕ) (s : String) → IsLongestPrefix n s (fit n s)
unfolding fit
fit-IsLongestPrefix n nil = record {
  rest = nil;
  whole = refl;
  fits = omega (arith, len-nil);
  longest = λ c r e. absurd (cons-ne-nil c r e);
}
fit-IsLongestPrefix n (c :: s) = elim (fit-cons n c s) [
  | inl (h, e) ↦
      let v = fit-IsLongestPrefix (n - len_utf8 c) s in
      rw e (record {
        rest = v.rest;
        whole = append.cons c _ v.rest ∙ ap (◌::◌ c) v.whole;
        fits = omega (arith, len-cons c (fit (n - len_utf8 c) s), v.fits);
        longest = λ d r e'. omega (arith, len-cons c (fit (n - len_utf8 c) s), v.longest d r e');
      })
  | inr (h, e) ↦ rw e (record {
    rest = c :: s;
    whole = append.nil (c :: s);
    fits = omega (arith, len-nil);
    longest = λ d r e'. rw (← head-eq c d s r e') (omega (arith, len-nil));
  })
]

-- `truncate_utf8` never panics: its loop finds a character boundary. The text becomes its longest
-- prefix of whole characters within `max_bytes` bytes, and the result is `true` exactly when the text
-- was longer than that.
pub truncate_utf8_lem :
    (text : String) (max_bytes : ℕ)
    → (kept : String) × (truncate_utf8 text max_bytes ≡ some (kept, ltb max_bytes (len text)))
      × IsLongestPrefix max_bytes text kept
truncate_utf8_lem text max_bytes =
    (fit max_bytes text, truncate_utf8-fit text max_bytes, fit-IsLongestPrefix max_bytes text)
