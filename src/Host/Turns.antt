-- ===== src/Host/Turns.antt =====
-- python/fala/host.py: the process and the locks around `host_run_package`.

use fala.Prelude.{
  String, ◌≡◌, refl, arith, Bool, true, false, not, Option, none, some, List, is_in, eq_refl,
}
use fala.Python.Outcome.{Outcome}
use fala.Python.Effect.{Action, lift, gets, ◌>>=◌, ◌>>◌}
use fala.Python.Keeps.{Keeps, lift-cases}
use fala.Python.Json.{Platform}
use fala.Host.Directory.{Process, with_sqlite_cwd}
use fala.Host.Restored.{discard-absent}
use fala.Host.Calls.{Native}
use fala.Host.Answers.{settings, with_sqlite_cwd-Keeps}
use fala.Host.Package.{
  Site, Order, Hall, package_request, on_process, execution_turn, process_host_library,
  call_package, drive_package, package_found, prepare_package, host_run_package,
}

-- A lock that nobody holds, or no lock.
abbrev is_free : Option String → List String → Bool
is_free none held = true
is_free (some path) held = not (is_in path held)

-- The process has its settings back, and the same locks are held.
abbrev pub IsBack : {A : Type 0} → Process → List String → Outcome A × Hall → Type 0
IsBack p held x = (settings x.1.0 ≡ settings p) × (x.1.1 ≡ held)

turn-IsBack :
    {A : Type 0} (is_posix : Bool) (lock : Option String) (body : Action Process A) (p : Process)
    (held : List String)
    → Keeps settings body
    → is_free lock held ≡ true
    → IsBack p held (execution_turn is_posix lock (on_process body) (p, held))
unfolding execution_turn
turn-IsBack is_posix none body p held h free = (h p, refl)
turn-IsBack true (some path) body p held h free =
    (h p, rw (eq_refl path) (discard-absent path held (ground arith)))
turn-IsBack false (some path) body p held h free = (refl, refl)

module _ ⦃platform : Platform⦄ (site : Site) where
  -- Whatever the native operation does, and however the call ends, a run of a package from a moment when its
  -- lock is free leaves the working directory, `FALA_EFFECTOR_ROOT` and `FALA_PROCESS_HOST_LIBRARY` as
  -- they were, and exactly the locks held that were held before.
  pub host_run_package-IsBack :
      (native : Native) (order : Order) (p : Process) (held : List String)
      → is_free order.execution_lock_path held ≡ true
      → IsBack p held (host_run_package site native order (p, held))
  unfolding host_run_package
  host_run_package-IsBack native order p held free =
      lift-cases (IsBack p held) (package_found site order)
        (λ u. gets (λ h. h.0.environ) >>= prepare_package site native order) (p, held)
        (λ e. (refl, refl))
        λ u found.
          lift-cases (IsBack p held) (process_host_library site p.environ)
            (λ library. lift site.ready >> drive_package site native order p.environ library)
            (p, held) (λ e. (refl, refl))
            λ library chosen.
              lift-cases (IsBack p held) site.ready
                (λ done. drive_package site native order p.environ library) (p, held)
                (λ e. (refl, refl))
                λ done ready.
                  let request = package_request site order p.environ (site.resolve library) in
                  let call =
                    with_sqlite_cwd site.place (some (site.resolve library))
                      (call_package site native request) in
                  turn-IsBack site.is_posix order.execution_lock_path call p held
                    (with_sqlite_cwd-Keeps site.place (some (site.resolve library))
                      (call_package site native request))
                    free
