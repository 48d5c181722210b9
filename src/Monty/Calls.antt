-- ===== src/Monty/Calls.antt =====
-- `run_tool_async`, `drain_ready_for` and `tool_context` of crates/langshell-monty/src/lib.rs. A tool's future
-- is its handler's call, run in one piece when it completes.
pub mod Records
use langshell.Common.{
  ℕ, ◌≡◌, refl, Bool, true, false, any, eqb, ◌==◌, String, Option, none, some, List, [], ◌∷◌, ◌++◌,
  Result, ok, err, ◌>>=◌, map_ok, if◌then◌else◌,
}
use langshell.Core.{
  Value, Fields, ErrorObject, ToolError, ToolCallContext, ExternalCallRecord, CallStatus,
  SideEffect, Capability, new_error, to_items, to_fields, insert_field,
}
use langshell.Core.Digest.{Hashing, digest_json}
use langshell.Core.Registry.{RegisteredTool, call}
use langshell.Monty.Objects.{MontyObject, MontyException, ExtFunctionResult, Library}
use langshell.Monty.Convert.{json_to_monty, monty_to_json_lossy}
use langshell.Monty.Errors.{error_object_to_exception}
use langshell.Monty.Limits.{elapsed_ms}

-- What the host gives: the milliseconds between two of its states, and the place in `FuturesUnordered` of the future that completes next.
pub record Host (W : Type 0) : Type 0 where
  pub elapsed : W → W → ℕ
  pub choose : W → ℕ

-- `(u32, ExtFunctionResult, ExternalCallRecord)`
pub record Finished : Type 0 where
  pub call_id : ℕ
  pub result : ExtFunctionResult
  pub record_of : ExternalCallRecord

request_value : ToolCallContext → Value
request_value ctx = Value.object (
    to_fields
      (("args", Value.array (to_items ctx.args)) ∷ ("kwargs", Value.object ctx.kwargs) ∷ []))

returned_or_raised : Library → Result ErrorObject MontyObject → ExtFunctionResult
unfolding error_object_to_exception
returned_or_raised lib (ok o) = ExtFunctionResult.returned o
returned_or_raised lib (err e) = ExtFunctionResult.raised (error_object_to_exception lib e)

failure_status : String → CallStatus
failure_status code = if code == "PERMISSION_DENIED" then CallStatus.denied else CallStatus.error

-- The record and the interpreter's result of a call, by the handler's result.
finish_call :
    Library → Hashing → ℕ → Capability → ToolCallContext → ℕ → Result ToolError Value → Finished
unfolding request_value returned_or_raised failure_status json_to_monty
finish_call lib hashing call_id capability ctx duration_ms (ok value) = record {
  call_id = call_id;
  result = returned_or_raised lib (json_to_monty lib.as_f64 value);
  record_of = record {
    name = capability.name;
    side_effect = capability.side_effect;
    duration_ms = duration_ms;
    status = CallStatus.ok;
    request_digest = digest_json hashing (request_value ctx);
    response_digest = some (digest_json hashing value);
    error = none;
  };
}
finish_call lib hashing call_id capability ctx duration_ms (err error) =
    let error_object = new_error error.code error.message in
    record {
      call_id = call_id;
      result = ExtFunctionResult.raised (error_object_to_exception lib error_object);
      record_of = record {
        name = capability.name;
        side_effect = capability.side_effect;
        duration_ms = duration_ms;
        status = failure_status error_object.code;
        request_digest = digest_json hashing (request_value ctx);
        response_digest = none;
        error = some error_object;
      };
    }

unfoldable pub run_tool_async :
    {W : Type 0}
    → Library
    → Hashing
    → Host W
    → ℕ
    → RegisteredTool W
    → ToolCallContext
    → W
    → Finished × W
unfolding finish_call
run_tool_async lib hashing host call_id tool ctx w =
    let (answer, w') = call tool ctx w in
    let duration_ms = elapsed_ms (host.elapsed w w') in
    (finish_call lib hashing call_id tool.capability ctx duration_ms answer, w')

abbrev pub id_in : List ℕ → ℕ → Bool
id_in ids n = any (λ i. eqb i n) ids

-- What `drain_ready_for` leaves: its result, and the two vectors that it changes.
pub record Drained : Type 0 where
  pub resolved : List (ℕ × ExtFunctionResult)
  pub ready : List Finished
  pub records : List ExternalCallRecord

drain_item : Bool → Finished → Drained → Drained
drain_item true item d = record {
  resolved = (item.call_id, item.result) ∷ d.resolved;
  ready = d.ready;
  records = item.record_of ∷ d.records;
}
drain_item false item d = record d { ready = item ∷ d.ready }

-- The items in order; `records` holds those that the loop pushes.
drain : List ℕ → List Finished → Drained
unfolding drain_item
drain ids [] = record { resolved = []; ready = []; records = [] }
drain ids (item ∷ rest) = drain_item (id_in ids item.call_id) item (drain ids rest)

unfoldable pub drain_ready_for : List ℕ → List Finished → List ExternalCallRecord → Drained
unfolding drain
drain_ready_for pending_ids ready records =
    let drained = drain pending_ids ready in record drained { records = records ++ drained.records }

args_to_json : Library → List MontyObject → Result ErrorObject (List Value)
unfolding monty_to_json_lossy
args_to_json lib [] = ok []
args_to_json lib (o ∷ os) =
    monty_to_json_lossy lib o >>= λ v. map_ok (λ vs. v ∷ vs) (args_to_json lib os)

key_text : Library → MontyObject → String
key_text lib (MontyObject.string key) = key
key_text lib key = lib.py_repr key

kwargs_to_json : Library → List (MontyObject × MontyObject) → Fields → Result ErrorObject Fields
unfolding key_text insert_field monty_to_json_lossy
kwargs_to_json lib [] fields = ok fields
kwargs_to_json lib ((key, value) ∷ kwargs) fields = monty_to_json_lossy lib value >>= λ v.
    kwargs_to_json lib kwargs (insert_field (key_text lib key) v fields)

unfoldable pub tool_context :
    Library
    → String
    → List MontyObject
    → List (MontyObject × MontyObject)
    → Result ErrorObject ToolCallContext
unfolding args_to_json kwargs_to_json
tool_context lib name args kwargs = do
  args' ← args_to_json lib args
  kwargs' ← kwargs_to_json lib kwargs Fields.end
  ok (record { name = name; args = args'; kwargs = kwargs' })
