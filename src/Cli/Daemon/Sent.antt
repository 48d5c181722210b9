-- ===== src/Cli/Daemon/Sent.antt =====
-- The texts that are sent to one connection, and whether it stays.
use langshell.Common.{
  ℕ, arith, ◌≡◌, refl, Bool, true, false, not, Bool-cases, inl, inr, eqb, String, List, [], ◌∷◌,
  ◌++◌, map, Result, ok, err, if◌then◌else◌,
}
use langshell.Core.{ErrorObject}
use langshell.Cli.Daemon.{is_going, has_ended}

-- The texts for one connection.
unfoldable pub sent_to : ℕ → List (ℕ × String) → List String
sent_to c [] = []
sent_to c ((n, text) ∷ sent) = let rest = sent_to c sent in if eqb n c then text ∷ rest else rest

pub sent_to-append :
    (c : ℕ) (xs ys : List (ℕ × String)) → sent_to c (xs ++ ys) ≡ sent_to c xs ++ sent_to c ys
unfolding sent_to
sent_to-append c [] ys = refl
sent_to-append c ((n, text) ∷ xs) ys = elim (Bool-cases (eqb n c)) [
  | inl h ↦ rw (h, sent_to-append c xs ys) refl
  | inr h ↦ rw (h, sent_to-append c xs ys) refl
]

pub sent_to-own :
    (c n : ℕ) (texts : List String)
    → eqb n c ≡ true
    → sent_to c (map (λ text. (n, text)) texts) ≡ texts
unfolding sent_to
sent_to-own c n [] h = refl
sent_to-own c n (text ∷ texts) h = rw (h, sent_to-own c n texts h) refl

pub sent_to-other :
    (c n : ℕ) (texts : List String)
    → eqb n c ≡ false
    → sent_to c (map (λ text. (n, text)) texts) ≡ []
unfolding sent_to
sent_to-other c n [] h = refl
sent_to-other c n (text ∷ texts) h = rw (h, sent_to-other c n texts h) refl

pub eqb-eq : (n c : ℕ) → eqb n c ≡ true → n ≡ c
eqb-eq n c h = ground arith

-- A connection stays as long as its own turns go on.
pub own-stays :
    (c n : ℕ) (ended : List ℕ) (r : Result ErrorObject Bool)
    → eqb n c ≡ true
    → has_ended n ended ≡ false
    → not (has_ended c (if is_going r then ended else n ∷ ended)) ≡ is_going r
own-stays c n ended (ok true) h h' = rw (← eqb-eq n c h, h') refl
own-stays c n ended (ok false) h h' = rw h refl
own-stays c n ended (err e) h h' = rw h refl

pub other-stays :
    (c n : ℕ) (ended : List ℕ) (b : Bool)
    → eqb n c ≡ false
    → has_ended c (if b then ended else n ∷ ended) ≡ has_ended c ended
other-stays c n ended true h = refl
other-stays c n ended false h = rw h refl
