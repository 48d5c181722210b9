-- ===== src/Deno/Session/Run/Created.antt =====
-- A new session has the id and the limits that it is made with.
use langshell.Common.{◌≡◌, refl, subst, Result, ok, err, String}
use langshell.Core.{ErrorObject, SessionId, SessionLimits}
use langshell.Core.Registry.{ToolRegistry}
use langshell.Deno.Scripts.{Packages, Answer}
use langshell.Deno.Session.{DenoSession, heap_max}
use langshell.Deno.Session.Run.{installed, create, new_session}

abbrev pub HasLimits :
    {Js W : Type 0} → SessionLimits → Result ErrorObject (DenoSession Js W) → Type 0
HasLimits limits (ok session) = session.limits ≡ limits
HasLimits limits (err e) = Unit

module _ {Js V Parsed W : Type 0} (pkg : Packages Js V Parsed W) where
  installed-HasLimits :
      (id : SessionId) (limits : SessionLimits) (answer : Answer Js W (Unit {0}))
      → HasLimits limits (installed pkg id limits answer).0
  unfolding installed
  installed-HasLimits id limits (ok u, live) = refl
  installed-HasLimits id limits (err e, live) = tt

  create-HasLimits :
      (id : SessionId) (limits : SessionLimits) (registry : ToolRegistry W) (w : W)
      (r : Result String Js)
      → HasLimits limits (create pkg id limits registry w r).0
  unfolding create
  create-HasLimits id limits registry w (ok js) = installed-HasLimits id limits _
  create-HasLimits id limits registry w (err e) = tt

  pub new_session-HasLimits :
      (id : SessionId) (limits : SessionLimits) (registry : ToolRegistry W) (w : W)
      → HasLimits limits (new_session pkg id limits registry w).0
  unfolding new_session
  new_session-HasLimits id limits registry w =
      create-HasLimits id limits registry w (pkg.engine.try_new (heap_max limits))

  abbrev IsNamed : SessionId → Result ErrorObject (DenoSession Js W) → Type 0
  IsNamed id (ok session) = session.id ≡ id
  IsNamed id (err e) = Unit

  installed-IsNamed :
      (id : SessionId) (limits : SessionLimits) (answer : Answer Js W (Unit {0}))
      → IsNamed id (installed pkg id limits answer).0
  unfolding installed
  installed-IsNamed id limits (ok u, live) = refl
  installed-IsNamed id limits (err e, live) = tt

  create-IsNamed :
      (id : SessionId) (limits : SessionLimits) (registry : ToolRegistry W) (w : W)
      (r : Result String Js)
      → IsNamed id (create pkg id limits registry w r).0
  unfolding create
  create-IsNamed id limits registry w (ok js) = installed-IsNamed id limits _
  create-IsNamed id limits registry w (err e) = tt

  new_session-IsNamed :
      (id : SessionId) (limits : SessionLimits) (registry : ToolRegistry W) (w : W)
      → IsNamed id (new_session pkg id limits registry w).0
  unfolding new_session
  new_session-IsNamed id limits registry w =
      create-IsNamed id limits registry w (pkg.engine.try_new (heap_max limits))

  pub new_session-eq-ok :
      (id : SessionId) (limits : SessionLimits) (registry : ToolRegistry W) (w w' : W)
      (session : DenoSession Js W)
      → new_session pkg id limits registry w ≡ (ok session, w')
      → (session.id ≡ id) × (session.limits ≡ limits)
  new_session-eq-ok id limits registry w w' session h = (
    subst (λ p. IsNamed id p.0) h (new_session-IsNamed id limits registry w),
    subst (λ p. HasLimits limits p.0) h (new_session-HasLimits id limits registry w),
  )
