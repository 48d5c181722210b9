-- ===== src/Sdk/Builder.antt =====
-- `LangShellBuilder` of crates/langshell/src/lib.rs.
pub mod Languages
use langshell.Common.{
  ℕ, ◌≡◌, Bool, true, false, String, Option, none, some, any, List, [], ◌∷◌, ◌++◌, Result, ok, err,
  map_ok, ◌>>=◌, ◌<>◌, if◌then◌else◌,
}
use langshell.Core.{
  Capability, Value, Language, ErrorObject, SessionLimits, SideEffect, new_error, new_capability,
  with_input_schema, with_output_schema, default_limits,
}
use langshell.Core.Registry.{
  ToolRegistry, ToolFn, RegisteredTool, register, sync, asynchronous, new_registry,
}
use langshell.Tools.Mounts.{HostPath, FileMount, FileSystem, readonly, readwrite}
use langshell.Tools.Builtin.{ToolConfig, register_builtin_tools}
use langshell.Sdk.{LanguageRuntime, LangShell, speaks, language_name, no_runtime_registered_error}

pub record LangShellBuilder (S W : Type 0) : Type 0 where
  pub registry : ToolRegistry W
  pub limits : SessionLimits
  pub file_mounts : List FileMount
  pub http_allowlist : List String
  pub runtime_factories : List (ToolRegistry W → SessionLimits → S)

abbrev pub duplicate_language : Language → ErrorObject
unfolding language_name
duplicate_language language =
    new_error "INVALID_ARGUMENT"
      ("A runtime for language " <> language_name language <> " is already registered.")

nonempty_shell : {S : Type 0} → List S → Result ErrorObject (LangShell S)
unfolding no_runtime_registered_error
nonempty_shell [] = err (no_runtime_registered_error none)
nonempty_shell (s ∷ ss) = ok (record { runtimes = s ∷ ss })

abbrev described : String → String → SideEffect → Value → Value → Capability
unfolding new_capability
described name description side_effect input_schema output_schema =
    with_output_schema
      (with_input_schema (new_capability name description side_effect) input_schema) output_schema

module _ {S W : Type 0} where
  -- `LangShell::builder`.
  abbrev pub builder : LangShellBuilder S W
  builder = record {
    registry = new_registry;
    limits = default_limits;
    file_mounts = [];
    http_allowlist = [];
    runtime_factories = [];
  }

  abbrev pub limits : LangShellBuilder S W → SessionLimits → LangShellBuilder S W
  limits b new_limits = record b { limits = new_limits }

  abbrev pub memory_limit_mb : LangShellBuilder S W → ℕ → LangShellBuilder S W
  memory_limit_mb b mb = record b { limits = record b.limits { memory_mb = mb } }

  abbrev pub timeout_ms : LangShellBuilder S W → ℕ → LangShellBuilder S W
  timeout_ms b ms = record b { limits = record b.limits { wall_ms = ms } }

  abbrev pub mount_readonly : LangShellBuilder S W → String → HostPath → LangShellBuilder S W
  mount_readonly b virtual_path host_path = record b {
    file_mounts = b.file_mounts ++ readonly virtual_path host_path ∷ [];
  }

  abbrev pub mount_readwrite : LangShellBuilder S W → String → HostPath → LangShellBuilder S W
  mount_readwrite b virtual_path host_path = record b {
    file_mounts = b.file_mounts ++ readwrite virtual_path host_path ∷ [];
  }

  abbrev pub allow_http_host : LangShellBuilder S W → String → LangShellBuilder S W
  allow_http_host b host = record b { http_allowlist = b.http_allowlist ++ host ∷ [] }

  abbrev pub runtime :
      LangShellBuilder S W → (ToolRegistry W → SessionLimits → S) → LangShellBuilder S W
  runtime b factory = record b { runtime_factories = b.runtime_factories ++ factory ∷ [] }

  unfoldable pub register_tool :
      LangShellBuilder S W → RegisteredTool W → Result ErrorObject (LangShellBuilder S W)
  unfolding register
  register_tool b tool = map_ok (λ r. record b { registry = r }) (register b.registry tool)

  unfoldable pub register_sync :
      LangShellBuilder S W
      → String
      → String
      → SideEffect
      → Value
      → Value
      → ToolFn W
      → Result ErrorObject (LangShellBuilder S W)
  unfolding register_tool new_capability
  register_sync b name description side_effect input_schema output_schema handler =
      register_tool b
        (sync (described name description side_effect input_schema output_schema) handler)

  unfoldable pub register_async :
      LangShellBuilder S W
      → String
      → String
      → SideEffect
      → Value
      → Value
      → ToolFn W
      → Result ErrorObject (LangShellBuilder S W)
  unfolding register_tool new_capability
  register_async b name description side_effect input_schema output_schema handler =
      register_tool b
        (asynchronous (described name description side_effect input_schema output_schema) handler)

  -- The loop over the factories, after the runtimes that it has made.
  unfoldable pub make_runtimes :
      LanguageRuntime S W
      → ToolRegistry W
      → SessionLimits
      → List (ToolRegistry W → SessionLimits → S)
      → List S
      → Result ErrorObject (List S)
  make_runtimes rt registry limits' [] runtimes = ok runtimes
  make_runtimes rt registry limits' (factory ∷ factories) runtimes =
      let made = factory registry limits' in
      let rest = make_runtimes rt registry limits' factories (runtimes ++ made ∷ []) in
      if any (speaks rt (rt.language made)) runtimes
      then err (duplicate_language (rt.language made))
      else rest

  unfoldable pub build :
      LanguageRuntime S W
      → (String → String)
      → FileSystem W
      → LangShellBuilder S W
      → Result ErrorObject (LangShell S)
  unfolding register_builtin_tools make_runtimes nonempty_shell
  build rt to_lowercase fs b = do
    registry ←
        register_builtin_tools to_lowercase fs b.registry
          (record { file_mounts = b.file_mounts; http_allowlist = b.http_allowlist })
    runtimes ← make_runtimes rt registry b.limits b.runtime_factories []
    nonempty_shell runtimes
