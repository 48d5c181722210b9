-- ===== src/Cli/Rpc/Responses.antt =====
-- The responses of the daemon.
use langshell.Common.{◌≡◌, refl, not, String, is_some, Result, ok, err}
use langshell.Core.{Value, ErrorObject}
use langshell.Sdk.{LanguageRuntime, LangShell}
use langshell.Cli.Rpc.{RpcRequest, RpcResponse, Formats, respond, handle_parsed, handle_rpc_request}

-- A response of JSON-RPC 2.0 to the request of an id: it has a result or an error, and not both.
pub record IsResponse (id : Value) (r : RpcResponse) : Type 0 where
  pub version : r.jsonrpc ≡ "2.0"
  pub same_id : r.id ≡ id
  pub one_of : is_some r.result ≡ not (is_some r.error)

-- The id that a line asks for.
pub id_of : Result String RpcRequest → Value
id_of (ok request) = request.id
id_of (err e) = Value.null

module _ {S W : Type 0} (formats : Formats) (rt : LanguageRuntime S W) where
  respond-IsResponse :
      (id : Value) (r : Result ErrorObject Value) → IsResponse id (respond formats rt id r)
  unfolding respond
  respond-IsResponse id (ok value) = record { version = refl; same_id = refl; one_of = refl }
  respond-IsResponse id (err e) = record { version = refl; same_id = refl; one_of = refl }

  handle_parsed-IsResponse :
      (shell : LangShell S) (parsed : Result String RpcRequest) (w : W)
      → IsResponse (id_of parsed) (handle_parsed formats rt shell parsed w).0.0
  unfolding handle_parsed id_of
  handle_parsed-IsResponse shell (ok request) w = respond-IsResponse request.id _
  handle_parsed-IsResponse shell (err e) w = record {
    version = refl;
    same_id = refl;
    one_of = refl;
  }

  -- For every line, `handle_rpc_request` gives a response of version 2.0 that has a result or an error and
  -- not both, with the id of the request, or the id null for a line that is no request.
  pub handle_rpc_request-IsResponse :
      (shell : LangShell S) (line : String) (w : W)
      → IsResponse (id_of (formats.from_str line)) (handle_rpc_request formats rt shell line w).0.0
  unfolding handle_rpc_request
  handle_rpc_request-IsResponse shell line w =
      handle_parsed-IsResponse shell (formats.from_str line) w
