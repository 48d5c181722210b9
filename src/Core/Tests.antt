-- ===== src/Core/Tests.antt =====
-- Runs of langshell-core on concrete inputs, those of its unit tests among them.
use langshell.Common.{
  ℕ, ◌≡◌, refl, ◌⊎◌, true, false, String, some, [], ◌∷◌, ok, err, ltb, len, arith,
}
use langshell.Core.{SideEffect, new_capability, Value}
use langshell.Core.Session.{new_session_id, invalid_session_id, MatchesPattern, new_session_id_lem}
use langshell.Core.Truncate.{truncate_utf8}
use langshell.Core.Truncate.Longest.{IsLongestPrefix, truncate_utf8_lem}
use langshell.Core.Digest.{to_hex, from_hex, from_hex-to_hex}
use langshell.Core.Registry.{
  RegisteredTool, ToolRegistry, sync, new_registry, register, names, is_python_identifier,
  invalid_tool_name,
}
use langshell.Core.Registry.Names.{Registers, register_lem, new_registry-IsWellFormed}

session_ids :
    (new_session_id "agent-123_ok" ≡ ok (record { id = "agent-123_ok" }))
    × (new_session_id "bad/slash" ≡ err invalid_session_id)
    × (new_session_id "" ≡ err invalid_session_id)
unfolding new_session_id
session_ids = (refl, refl, refl)

identifiers :
    (is_python_identifier "fetch_json" ≡ true)
    × (is_python_identifier "1_fetch" ≡ false)
    × (is_python_identifier "fetch-json" ≡ false)
unfolding is_python_identifier
identifiers = (refl, refl, refl)

cuts : (truncate_utf8 "héllo" 2 ≡ some ("h", true)) × (truncate_utf8 "abc" 10 ≡ some ("abc", false))
unfolding truncate_utf8
cuts = (refl, refl)

digest_text : to_hex (0 ∷ 171 ∷ 255 ∷ []) ≡ "00abff"
unfolding to_hex
digest_text = refl

new_session_id_lem_example :
    (MatchesPattern "s 1" × (new_session_id "s 1" ≡ ok (record { id = "s 1" })))
    ⊎ ((¬ MatchesPattern "s 1") × (new_session_id "s 1" ≡ err invalid_session_id))
new_session_id_lem_example = new_session_id_lem "s 1"

truncate_utf8_lem_example :
    (kept : String) × (truncate_utf8 "héllo" 2 ≡ some (kept, ltb 2 (len "héllo")))
    × IsLongestPrefix 2 "héllo" kept
truncate_utf8_lem_example = truncate_utf8_lem "héllo" 2

from_hex-to_hex_example : from_hex (to_hex (7 ∷ 250 ∷ [])) ≡ some (7 ∷ 250 ∷ [])
from_hex-to_hex_example = from_hex-to_hex (7 ∷ 250 ∷ []) (omega arith)

abbrev echo : RegisteredTool ℕ
echo = sync (new_capability "echo" "Echo." SideEffect.none) (λ ctx w. (ok Value.null, w))

abbrev start : ToolRegistry ℕ
start = new_registry

register_lem_example :
    ((is_python_identifier echo.capability.name ≡ true)
      × (r' : ToolRegistry ℕ) × (register start echo ≡ ok r')
      × Registers start r' echo)
    ⊎ ((is_python_identifier echo.capability.name ≡ false)
        × (register start echo ≡ err (invalid_tool_name echo.capability.name)))
register_lem_example = register_lem start echo new_registry-IsWellFormed

two_tools : (r : ToolRegistry ℕ) → register start echo ≡ ok r → names r ≡ "echo" ∷ []
unfolding register names new_capability
two_tools r e = ground arith
