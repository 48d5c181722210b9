-- ===== src/Deno/Scripts/Globals.antt =====
-- What the scripts read and give when the globals of a session are read and restored.
use langshell.Deno.Errors.{error_from_js}
use langshell.Common.{
  false, ◌≡◌, refl, ◌<>◌, String, Result, ok, err, map_err-eq-ok, map_ok, map_err,
}
use langshell.Core.{Value, ErrorObject}
use langshell.Deno.Scripts.{
  Packages, Live, Answer, execute_script, execute_script_unit, v8_to_string, globals_value,
  read_globals, snapshot_globals, restore_text, restore_globals, snapshot_corrupt,
}

module _ {Js V Parsed W : Type 0} (pkg : Packages Js V Parsed W) where
  abbrev pub reading : Live Js W → Result String V × Live Js W
  reading live =
      execute_script pkg live "<langshell-snapshot>"
        "JSON.stringify(globalThis.__langshell_snapshot_globals())"

  -- The script of a snapshot gives a text, which is that of the globals.
  pub record IsRead (before : Live Js W) (globals : Value) : Type 0 where
    pub value : V
    pub live : Live Js W
    pub text : String
    pub ran : reading before ≡ (ok value, live)
    pub shown : pkg.engine.string_from_v8 live.js value ≡ ok text
    pub parsed : pkg.from_str text ≡ ok globals

  globals_value-eq-ok :
      (r : Result ErrorObject String) (globals : Value)
      → globals_value pkg r ≡ ok globals
      → (text : String) × (r ≡ ok text) × (pkg.from_str text ≡ ok globals)
  unfolding globals_value
  globals_value-eq-ok (err e) globals h = cc
  globals_value-eq-ok (ok text) globals h = (text, refl, map_err-eq-ok _ _ h)

  read_globals-IsRead :
      (before : Live Js W) (r : Result String V × Live Js W) (globals : Value)
      → reading before ≡ r
      → (read_globals pkg r).0 ≡ ok globals
      → IsRead before globals
  unfolding read_globals v8_to_string
  read_globals-IsRead before (err message, live) globals ran h = cc
  read_globals-IsRead before (ok value, live) globals ran h =
      let (text, shown, parsed) = globals_value-eq-ok (v8_to_string pkg live.js value) globals h in
      record {
        value = value;
        live = live;
        text = text;
        ran = ran;
        shown = map_err-eq-ok _ _ shown;
        parsed = parsed;
      }

  pub snapshot_globals-IsRead :
      (before : Live Js W) (globals : Value)
      → (snapshot_globals pkg before).0 ≡ ok globals
      → IsRead before globals
  unfolding snapshot_globals
  snapshot_globals-IsRead before globals h =
      read_globals-IsRead before (reading before) globals refl h

  abbrev pub giving : Live Js W → String → Result String V × Live Js W
  giving live text =
      execute_script pkg live "<langshell-restore>"
        ("globalThis.__langshell_restore_globals(" <> text <> ");")

  -- The text of the globals is given to the script of a restore: the answer, and what the script leaves.
  pub data Gives (before : Live Js W) (globals : Value) : Answer Js W (Unit {0}) → Type 0 where
    unwritable :
        {message : String} {e : ErrorObject}
        → pkg.to_string globals ≡ err message
        → e.code ≡ "SNAPSHOT_CORRUPT"
        → Gives before globals (err e, before)
    thrown :
        {text message : String} {live : Live Js W} {e : ErrorObject}
        → pkg.to_string globals ≡ ok text
        → giving before text ≡ (err message, live)
        → e.code ≡ "SNAPSHOT_CORRUPT"
        → Gives before globals (err e, live)
    given :
        {text : String} {value : V} {live : Live Js W}
        → pkg.to_string globals ≡ ok text
        → giving before text ≡ (ok value, live)
        → Gives before globals (ok tt, live)

  -- The answer of a restore whose script has run.
  abbrev restored : Result String V × Live Js W → Answer Js W (Unit {0})
  restored (r, live) = (
    map_err (λ (e : ErrorObject). snapshot_corrupt e.message)
        (map_err (λ message. error_from_js message false) (map_ok (λ _. tt) r)),
    live,
  )

  restored-Gives :
      (before : Live Js W) (globals : Value) (text : String) (r : Result String V × Live Js W)
      → pkg.to_string globals ≡ ok text
      → giving before text ≡ r
      → Gives before globals (restored r)
  restored-Gives before globals text (err message, live) written ran = Gives.thrown written ran refl
  restored-Gives before globals text (ok value, live) written ran = Gives.given written ran

  restore_text-Gives :
      (before : Live Js W) (globals : Value) (r : Result String String)
      → pkg.to_string globals ≡ r
      → Gives before globals (restore_text pkg before r)
  unfolding restore_text execute_script_unit
  restore_text-Gives before globals (err message) h = Gives.unwritable h refl
  restore_text-Gives before globals (ok text) h =
      restored-Gives before globals text (giving before text) h refl

  pub restore_globals-Gives :
      (before : Live Js W) (globals : Value)
      → Gives before globals (restore_globals pkg before globals)
  unfolding restore_globals
  restore_globals-Gives before globals =
      restore_text-Gives before globals (pkg.to_string globals) refl
