-- ===== src/Cli/Params/Requests.antt =====
-- The requests that `request_from_params` makes.
use langshell.Common.{
  ℕ, ◌≤◌, ◌≡◌, sym, ap, ◌∙◌, subst, false, leb, String, Option, none, some, and_then, inl, inr,
  Result, ok, err, ok_or, ok_or-eq-ok, >>=-eq-ok, leb→le, by_test,
}
use langshell.Core.{Value, SessionId, RunRequest, SessionLimits, ErrorObject, get, as_u64}
use langshell.Core.Session.{new_request, new_session_id, new_session_id_lem, MatchesPattern}
use langshell.Monty.Limits.{u32_max}
use langshell.Cli.Params.{
  string_param, session_or_default, language_param, limits_param, as_u32, request_from_params,
}

pub data FitsU32 : Option ℕ → Type 0 where
  absent : FitsU32 none
  present : (n : ℕ) → n ≤ u32_max → FitsU32 (some n)

as_u32-FitsU32 : (o : Option ℕ) → FitsU32 (and_then o as_u32)
as_u32-FitsU32 none = absent
as_u32-FitsU32 (some n) =
    by_test FitsU32 (leb n u32_max) _ _ (λ h. present n (leb→le n u32_max h)) (λ h. absent)

-- What holds of a request made from parameters.
pub record IsRequestOf (params : Value) (request : RunRequest) : Type 0 where
  pub code : string_param params "code" ≡ some request.code
  pub session : request.session_id.id ≡ session_or_default params
  pub valid : MatchesPattern request.session_id.id
  pub timeout : FitsU32 request.timeout_ms
  pub runs : request.validate_only ≡ false

ok-injective {ℓ κ} :
    {E : Type ℓ} {A : Type κ} {a b : A} → let r : Result E A = ok a in r ≡ ok b → a ≡ b
ok-injective h = cc

new_session_id-eq-ok :
    (text : String) (id : SessionId)
    → new_session_id text ≡ ok id
    → MatchesPattern text × (id ≡ record { id = text })
new_session_id-eq-ok text id h = elim (new_session_id_lem text) [
  | inl l ↦ (l.0, sym (ok-injective (sym l.1 ∙ h)))
  | inr r ↦ absurd (clash (sym r.1 ∙ h))
]
  where
    clash : {e : ErrorObject} → let r : Result ErrorObject SessionId = err e in r ≡ ok id → ⊥
    clash h = cc

-- A request that `request_from_params` makes has the parameter `code`, a session id that matches the pattern
-- and is the parameter `session_id` or else "default", a timeout that fits in 32 bits if it has one, and
-- `validate_only` off.
pub request_from_params-IsRequestOf :
    (from_value : Value → Result String SessionLimits) (params : Value) (request : RunRequest)
    → request_from_params from_value params ≡ ok request
    → IsRequestOf params request
unfolding request_from_params new_request
request_from_params-IsRequestOf from_value params request h =
    let (code, has_code, h1) = >>=-eq-ok (ok_or (string_param params "code") _) _ h in
    let (base, made, h2) = >>=-eq-ok (new_request (session_or_default params) code) _ h1 in
    let (id, valid, h3) = >>=-eq-ok (new_session_id (session_or_default params)) _ made in
    let (language, spoken, h4) = >>=-eq-ok (language_param (string_param params "language")) _ h2 in
    let (limits, read, h5) = >>=-eq-ok (limits_param from_value (get "limits" params)) _ h4 in
    let (matches, same) = new_session_id-eq-ok (session_or_default params) id valid in
    let base_eq = ok-injective h3 in
    let session =
      ap (λ (r : RunRequest). r.session_id.id) (sym base_eq) ∙ ap (λ (i : SessionId). i.id) same in
    subst (IsRequestOf params) (ok-injective h5) (record {
      code = ok_or-eq-ok _ _ has_code ∙ ap (λ (r : RunRequest). some r.code) base_eq;
      session = session;
      valid = rw session matches;
      timeout = as_u32-FitsU32 (and_then (get "timeout_ms" params) as_u64);
      runs = ap (λ (r : RunRequest). r.validate_only) (sym base_eq);
    })
