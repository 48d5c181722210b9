-- ===== src/Monty/Objects.antt =====
-- What crates/langshell-monty/src/lib.rs uses of the Monty interpreter, which is another package: the object
-- and exception constructors that it names, and the interpreter's operations as parameters.
use langshell.Common.{ℕ, Bool, String, Option, List, Result}
use langshell.Core.{Value}

-- An `i64`; `negsuc n` is -(n + 1).
pub data ℤ : Type 0 where
  pos negsuc : ℕ → ℤ

-- `MontyObject`: the constructors that the crate names, and `other` with its type's name for the rest. A
-- float is its 64-bit pattern.
mutual
  pub data MontyObject : Type 0 where
    none : MontyObject
    bool : Bool → MontyObject
    int : ℤ → MontyObject
    big_int : ℤ → MontyObject
    float : ℕ → MontyObject
    string : String → MontyObject
    list : Objects → MontyObject
    dict : Pairs → MontyObject
    function : (name : String) → (docstring : Option String) → MontyObject
    other : (type_name : String) → MontyObject

  pub data Objects : Type 0 where
    nil : Objects
    cons : MontyObject → Objects → Objects

  pub data Pairs : Type 0 where
    end : Pairs
    pair : MontyObject → MontyObject → Pairs → Pairs

-- `ExcType`: the constructors that the crate names, and `other`.
pub data ExcType : Type 0 where
  syntax_error type_error name_error not_implemented_error import_error : ExcType
  module_not_found_error permission_error timeout_error memory_error : ExcType
  recursion_error runtime_error other : ExcType

pub record Frame : Type 0 where
  pub start_line : ℕ
  pub start_column : ℕ
  pub end_line : ℕ
  pub end_column : ℕ

-- `MontyException` by its `exc_type`, its `summary` and the last frame of its `traceback`.
pub record MontyException : Type 0 where
  pub exc_type : ExcType
  pub summary : String
  pub last_frame : Option Frame

pub data ExtFunctionResult : Type 0 where
  returned : MontyObject → ExtFunctionResult
  raised : MontyException → ExtFunctionResult

pub data NameLookupResult : Type 0 where
  undefined : NameLookupResult
  value : MontyObject → NameLookupResult

-- Where the interpreter stops. `K` is the computation that it resumes.
pub data ReplProgress (Repl K : Type 0) : Type 0 where
  complete : Repl → MontyObject → ReplProgress Repl K
  name_lookup : (name : String) → K → ReplProgress Repl K
  function_call :
      (function_name : String)
      → (args : List MontyObject) → (kwargs : List (MontyObject × MontyObject)) → (call_id : ℕ) → K
      → ReplProgress Repl K
  resolve_futures : (pending_call_ids : List ℕ) → K → ReplProgress Repl K
  os_call : K → ReplProgress Repl K

-- A resumption: what it printed, and where it stopped or the exception that ended it.
pub data Resumed (Repl K : Type 0) : Type 0 where
  progress : (printed : String) → ReplProgress Repl K → Resumed Repl K
  failed : (printed : String) → Repl → MontyException → Resumed Repl K

-- The interpreter. `resume_os` passes on the error of `on_no_handler`.
pub record Interpreter (Repl K : Type 0) : Type 0 where
  pub feed_start : Repl → String → List (String × MontyObject) → Resumed Repl K
  pub resume_lookup : K → NameLookupResult → Resumed Repl K
  pub resume_call : K → ExtFunctionResult → Resumed Repl K
  pub resume_pending : K → Resumed Repl K
  pub resume_futures : K → List (ℕ × ExtFunctionResult) → Resumed Repl K
  pub resume_os : K → Resumed Repl K
  pub into_repl : K → Repl

-- The other functions of Monty: `MontyException::new`, `py_repr`, the serializer `JsonMontyObject`, and
-- the standard conversion of a `u64` to the pattern of an `f64`.
pub record Library : Type 0 where
  pub new_exception : ExcType → String → MontyException
  pub py_repr : MontyObject → String
  pub to_value : MontyObject → Result String Value
  pub as_f64 : ℕ → ℕ
