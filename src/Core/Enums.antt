-- ===== src/Core/Enums.antt =====
-- The enumerations of langshell-core (crates/langshell-core/src/lib.rs).
use Prim.Native.String.{String}
use mathlib.Core.Bool.{Bool, true, false}

pub data Language : Type 0 where
  python type_script : Language

pub data SideEffect : Type 0 where
  none read write network database external_system : SideEffect

pub data ApprovalPolicy : Type 0 where
  none : ApprovalPolicy
  auto : (rule : String) → ApprovalPolicy
  manual : ApprovalPolicy

pub data RunStatus : Type 0 where
  ok validation_error runtime_error timeout cancelled : RunStatus
  resource_exhausted permission_denied waiting_for_approval interrupted : RunStatus

pub data Severity : Type 0 where
  error warning info : Severity

pub data CallStatus : Type 0 where
  ok error timeout denied approval_pending : CallStatus

-- `==` on languages and on run states, as derived.
abbrev pub language_eq : Language → Language → Bool
language_eq Language.python Language.python = true
language_eq Language.type_script Language.type_script = true
language_eq _ _ = false

abbrev pub is_ok_status : RunStatus → Bool
is_ok_status RunStatus.ok = true
is_ok_status _ = false
