-- ===== src/Core/Session.antt =====
-- `SessionId::new` and `is_valid_session_id` of crates/langshell-core/src/lib.rs.
use Prim.Native.Char.{len_utf8, len_utf8_def}
use Prim.Native.String.{count, [] as nil, ◌∷◌ as ◌::◌}
use Prim.Native.String.len
use Prim.Native.String.count
use langshell.Common.{
  ℕ, ◌≤◌, ◌<◌, ◌≡◌, refl, ◌⊎◌, inl, inr, ◌↔◌, Bool, true, false, not, ◌&&◌, ◌||◌, Char, code,
  String, len, Result, ok, err, leb, eqb, all, is_ascii_alphanumeric, is_empty, bytes, encode_utf8,
  ◌>>=◌, if◌then◌else◌, Bool-cases, and-eq-true_iff, leb→le, le→leb, arith, List, ◌++◌, none,
}
use langshell.Core.{SessionId, ErrorObject, RunRequest, Language, new_error, Fields}

-- `b.is_ascii_alphanumeric() || matches!(b, b'_' | b'-')`
session_byte : ℕ → Bool
session_byte b = is_ascii_alphanumeric b || (eqb b b'_' || eqb b b'-')

is_valid_session_id : String → Bool
unfolding session_byte bytes
is_valid_session_id id = not (is_empty id) && (leb (len id) 64 && all session_byte (bytes id))

abbrev pub invalid_session_id : ErrorObject
invalid_session_id = new_error "INVALID_SESSION_ID" "Session id must match ^[a-zA-Z0-9_\\-]{1,64}$."

-- `SessionId::new`.
unfoldable pub new_session_id : String → Result ErrorObject SessionId
unfolding is_valid_session_id
new_session_id id =
    if is_valid_session_id id then ok (record { id = id }) else err invalid_session_id

-- `RunRequest::new`.
unfoldable pub new_request : String → String → Result ErrorObject RunRequest
unfolding new_session_id
new_request session_id code = do
  id ← new_session_id session_id
  ok (record {
    session_id = id;
    language = Language.python;
    code = code;
    inputs = Fields.end;
    timeout_ms = none;
    limits = none;
    return_snapshot = false;
    validate_only = false;
  })

-- The character class of the pattern ^[a-zA-Z0-9_\-]{1,64}$.
abbrev pub IsSessionChar : ℕ → Type 0
IsSessionChar n =
    ((b'a' ≤ n) × (n ≤ b'z'))
    ⊎ ((b'A' ≤ n) × (n ≤ b'Z'))
    ⊎ ((b'0' ≤ n) × (n ≤ b'9'))
    ⊎ (n ≡ b'_')
    ⊎ (n ≡ b'-')

abbrev pub EachChar : (ℕ → Type 0) → String → Type 0
EachChar P nil = Unit
EachChar P (c :: s) = P (code c) × EachChar P s

-- The pattern itself, over characters.
pub record MatchesPattern (id : String) : Type 0 where
  pub chars : EachChar IsSessionChar id
  pub nonempty : 1 ≤ count id
  pub short : count id ≤ 64

len_utf8-ascii : (c : Char) → code c < 128 → len_utf8 c ≡ 1
len_utf8-ascii c h = rw len_utf8_def (ground arith)

session_char-ascii : (n : ℕ) → IsSessionChar n → n < 128
session_char-ascii n h = ground arith

len-session : (s : String) → EachChar IsSessionChar s → len s ≡ count s
len-session nil h = refl
len-session (c :: s) h = omega (
  arith,
  len.cons c s,
  count.cons c s,
  len-session s h.1,
  len_utf8-ascii c (session_char-ascii (code c) h.0),
)

encode-session :
    (n : ℕ) (rest : List ℕ)
    → (all session_byte (encode_utf8 n ++ rest) ≡ true)
      ↔ (IsSessionChar n × (all session_byte rest ≡ true))
unfolding session_byte
encode-session n rest = ground arith

bytes-session : (s : String) → (all session_byte (bytes s) ≡ true) ↔ EachChar IsSessionChar s
unfolding bytes
bytes-session nil = ((λ h. tt), (λ h. refl))
bytes-session (c :: s) =
    let step = encode-session (code c) (bytes s) in
    let ih = bytes-session s in
    ((λ h. ((step.0 h).0, ih.0 (step.0 h).1)), (λ h. step.1 (h.0, ih.1 h.1)))

is_empty-count : (s : String) → (not (is_empty s) ≡ true) ↔ (1 ≤ count s)
is_empty-count nil = ((λ h. cc), (λ h. absurd (omega arith)))
is_empty-count (c :: s) = ((λ h. omega (arith, count.cons c s)), (λ h. refl))

is_valid_session_id_iff : (id : String) → (is_valid_session_id id ≡ true) ↔ MatchesPattern id
unfolding is_valid_session_id
is_valid_session_id_iff id = (to, from)
  where
    to : is_valid_session_id id ≡ true → MatchesPattern id
    to h =
        let h' = (and-eq-true_iff _ _).0 h in
        let h'' = (and-eq-true_iff _ _).0 h'.1 in
        let chars = (bytes-session id).0 h''.1 in
        record {
          chars = chars;
          nonempty = (is_empty-count id).0 h'.0;
          short = omega (arith, len-session id chars, leb→le (len id) 64 h''.0);
        }

    from : MatchesPattern id → is_valid_session_id id ≡ true
    from m = (and-eq-true_iff _ _).1 (
      (is_empty-count id).1 m.nonempty,
      (and-eq-true_iff _ _).1 (
        le→leb (len id) 64 (omega (arith, len-session id m.chars, m.short)),
        (bytes-session id).1 m.chars,
      ),
    )

-- `SessionId::new` accepts a text, and keeps it as it is, when it matches ^[a-zA-Z0-9_\-]{1,64}$ as a
-- text of characters; any other text gives INVALID_SESSION_ID.
pub new_session_id_lem :
    (id : String)
    → (MatchesPattern id × (new_session_id id ≡ ok (record { id = id })))
      ⊎ ((¬ MatchesPattern id) × (new_session_id id ≡ err invalid_session_id))
unfolding new_session_id
new_session_id_lem id = elim (Bool-cases (is_valid_session_id id)) [
  | inl h ↦ inl ((is_valid_session_id_iff id).0 h, rw h)
  | inr h ↦ inr ((λ m. ground (arith, (is_valid_session_id_iff id).1 m)), rw h)
]
