-- ===== src/Monty/Calls/Records.antt =====
-- The records of `run_tool_async`, and what `drain_ready_for` does with those that wait.
use langshell.Common.{
  ℕ, suc, ◌+◌, ◌≡◌, refl, Bool, true, false, List, [], ◌∷◌, length, length-append, All, All-append,
  Result, ok, err, arith,
}
use langshell.Core.{Value, ToolError, ToolCallContext, ExternalCallRecord, Capability}
use langshell.Core.Digest.{Hashing}
use langshell.Core.Registry.{RegisteredTool, call}
use langshell.Monty.Objects.{Library}
use langshell.Monty.Calls.{
  Host, Finished, finish_call, run_tool_async, id_in, drain_item, drain, drain_ready_for, Drained,
}

finish_call-record :
    (lib : Library) (hashing : Hashing) (id : ℕ) (c : Capability) (ctx : ToolCallContext) (ms : ℕ)
    → (answer : Result ToolError Value)
    → let r = (finish_call lib hashing id c ctx ms answer).record_of in
      (r.name ≡ c.name) × (r.side_effect ≡ c.side_effect)
unfolding finish_call
finish_call-record lib hashing id c ctx ms (ok value) = (refl, refl)
finish_call-record lib hashing id c ctx ms (err e) = (refl, refl)

pub run_tool_async-record :
    {W : Type 0} (lib : Library) (hashing : Hashing) (host : Host W) (id : ℕ)
    (tool : RegisteredTool W)
    → (ctx : ToolCallContext) (w : W)
    → let r = (run_tool_async lib hashing host id tool ctx w).0.record_of in
      (r.name ≡ tool.capability.name) × (r.side_effect ≡ tool.capability.side_effect)
unfolding run_tool_async
run_tool_async-record lib hashing host id tool ctx w =
    finish_call-record lib hashing id tool.capability ctx _ (call tool ctx w).0

drain_item-length :
    (b : Bool) (item : Finished) (d : Drained)
    → length (drain_item b item d).records + length (drain_item b item d).ready
      ≡ suc (length d.records + length d.ready)
unfolding drain_item
drain_item-length true item d = omega arith
drain_item-length false item d = omega arith

drain-length :
    (ids : List ℕ) (ready : List Finished)
    → length (drain ids ready).records + length (drain ids ready).ready ≡ length ready
unfolding drain
drain-length ids [] = refl
drain-length ids (item ∷ rest) =
    omega (
      arith,
      drain_item-length (id_in ids item.call_id) item (drain ids rest),
      drain-length ids rest,
    )

-- No record is lost or made.
pub drain_ready_for-length :
    (ids : List ℕ) (ready : List Finished) (records : List ExternalCallRecord)
    → length (drain_ready_for ids ready records).records
        + length (drain_ready_for ids ready records).ready
      ≡ length records + length ready
unfolding drain_ready_for
drain_ready_for-length ids ready records =
    omega (arith, length-append records (drain ids ready).records, drain-length ids ready)

module _ (P : ExternalCallRecord → Type 0) where
  abbrev pub AllOf : List ExternalCallRecord → List Finished → Type 0
  AllOf records ready = All P records × All (λ item. P item.record_of) ready

  drain_item-All :
      (b : Bool) (item : Finished) (d : Drained)
      → P item.record_of
      → AllOf d.records d.ready
      → AllOf (drain_item b item d).records (drain_item b item d).ready
  unfolding drain_item
  drain_item-All true item d h a = ((h, a.0), a.1)
  drain_item-All false item d h a = (a.0, (h, a.1))

  drain-All :
      (ids : List ℕ) (ready : List Finished)
      → All (λ item. P item.record_of) ready
      → AllOf (drain ids ready).records (drain ids ready).ready
  unfolding drain
  drain-All ids [] h = (tt, tt)
  drain-All ids (item ∷ rest) h =
      drain_item-All (id_in ids item.call_id) item (drain ids rest) h.0 (drain-All ids rest h.1)

  pub drain_ready_for-All :
      (ids : List ℕ) (ready : List Finished) (records : List ExternalCallRecord)
      → AllOf records ready
      → let d = drain_ready_for ids ready records in AllOf d.records d.ready
  unfolding drain_ready_for
  drain_ready_for-All ids ready records h =
      let d = drain-All ids ready h.1 in
      (All-append P records (drain ids ready).records h.0 d.0, d.1)
