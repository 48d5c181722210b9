-- ===== src/Sdk/Builder/Languages.antt =====
-- The runtimes of a shell that is built.
use langshell.Common.{
  ◌≡◌, refl, sym, ◌∙◌, Bool, false, ◌||◌, any, List, [], ◌∷◌, ◌++◌, map, append_assoc, append-nil,
  subst, length, ◌≤◌, String, Result, ok, err, >>=-eq-ok, Bool-cases, inl, inr, arith,
}
use langshell.Core.{Language, language_eq, ErrorObject, SessionLimits}
use langshell.Core.Registry.{ToolRegistry}
use langshell.Tools.Mounts.{FileSystem}
use langshell.Tools.Builtin.{register_builtin_tools}
use langshell.Sdk.{LanguageRuntime, LangShell, speaks}
use langshell.Sdk.Builder.{LangShellBuilder, make_runtimes, nonempty_shell, build}

language_eq_sym : (a b : Language) → language_eq a b ≡ language_eq b a
language_eq_sym Language.python Language.python = refl
language_eq_sym Language.python Language.type_script = refl
language_eq_sym Language.type_script Language.python = refl
language_eq_sym Language.type_script Language.type_script = refl

module _ {S W : Type 0} (rt : LanguageRuntime S W) where
  -- No two runtimes have one language.
  abbrev pub DistinctLanguages : List S → Type 0
  DistinctLanguages [] = Unit
  DistinctLanguages (s ∷ ss) = (any (speaks rt (rt.language s)) ss ≡ false) × DistinctLanguages ss

  any-snoc :
      (language : Language) (ss : List S) (s : S)
      → any (speaks rt language) ss ≡ false
      → speaks rt language s ≡ false
      → any (speaks rt language) (ss ++ s ∷ []) ≡ false
  any-snoc language [] s h hs = rw hs refl
  any-snoc language (t ∷ ss) s h hs = ground (arith, any-snoc language ss s)

  snoc-DistinctLanguages :
      (ss : List S) (s : S)
      → any (speaks rt (rt.language s)) ss ≡ false
      → DistinctLanguages ss
      → DistinctLanguages (ss ++ s ∷ [])
  snoc-DistinctLanguages [] s h d = (refl, tt)
  snoc-DistinctLanguages (t ∷ ss) s h d =
      let parts =
        or-eq-false (speaks rt (rt.language s) t) (any (speaks rt (rt.language s)) ss) h in
      (
        any-snoc (rt.language t) ss s d.0
            (language_eq_sym (rt.language s) (rt.language t) ∙ parts.0),
        snoc-DistinctLanguages ss s parts.1 d.1,
      )
    where
      or-eq-false : (a b : Bool) → (a || b) ≡ false → (a ≡ false) × (b ≡ false)
      or-eq-false a b h = ground arith

  make_runtimes-eq-ok :
      (registry : ToolRegistry W) (limits : SessionLimits)
      → (factories : List (ToolRegistry W → SessionLimits → S)) → (runtimes made : List S)
      → DistinctLanguages runtimes
      → make_runtimes rt registry limits factories runtimes ≡ ok made
      → (made ≡ runtimes ++ map (λ f. f registry limits) factories) × DistinctLanguages made
  unfolding make_runtimes
  make_runtimes-eq-ok registry limits [] runtimes made d h =
      let same : runtimes ≡ made = cc h in
      (sym same ∙ sym (append-nil runtimes), subst DistinctLanguages same d)
  make_runtimes-eq-ok registry limits (f ∷ fs) runtimes made d h =
      elim (Bool-cases (any (speaks rt (rt.language (f registry limits))) runtimes)) [
        | inl taken ↦ absurd (clash (rw taken at h))
        | inr fresh ↦
            let (eq, distinct) =
              make_runtimes-eq-ok registry limits fs (runtimes ++ f registry limits ∷ []) made
                (snoc-DistinctLanguages runtimes (f registry limits) fresh d) (rw fresh at h) in
            (eq ∙ append_assoc runtimes (f registry limits ∷ []) _, distinct)
      ]
    where
      clash : {e : ErrorObject} → let r : Result ErrorObject (List S) = err e in r ≡ ok made → ⊥
      clash h = cc

  nonempty-eq-ok :
      (ss : List S) (shell : LangShell S)
      → nonempty_shell ss ≡ ok shell
      → (1 ≤ length ss) × (shell.runtimes ≡ ss)
  unfolding nonempty_shell
  nonempty-eq-ok [] shell h = cc
  nonempty-eq-ok (s ∷ ss) shell h = (omega arith, sym (cc h))

  -- A shell that `build` gives has the runtimes of all the factories, in their order, each made with the
  -- builder's limits and with the registry that has the built-in tools; there is at least one, and no two
  -- have one language.
  pub build-DistinctLanguages :
      (to_lowercase : String → String) (fs : FileSystem W) (b : LangShellBuilder S W)
      (shell : LangShell S)
      → build rt to_lowercase fs b ≡ ok shell
      → (registry : ToolRegistry W) × (register_builtin_tools to_lowercase fs b.registry
            (record { file_mounts = b.file_mounts; http_allowlist = b.http_allowlist })
          ≡ ok registry)
        × (shell.runtimes ≡ map (λ f. f registry b.limits) b.runtime_factories)
        × (1 ≤ length shell.runtimes)
        × DistinctLanguages shell.runtimes
  unfolding build
  build-DistinctLanguages to_lowercase fs b shell h =
      let (registry, registered, h1) =
        >>=-eq-ok (register_builtin_tools to_lowercase fs b.registry _) _ h in
      let (made, makes, h2) =
        >>=-eq-ok (make_runtimes rt registry b.limits b.runtime_factories []) _ h1 in
      let (all_made, distinct) =
        make_runtimes-eq-ok registry b.limits b.runtime_factories [] made tt makes in
      let (some_made, same) = nonempty-eq-ok made shell h2 in
      (registry, registered, same ∙ all_made, rw same some_made, rw same distinct)
