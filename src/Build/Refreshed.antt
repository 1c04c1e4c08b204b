-- ===== src/Build/Refreshed.antt =====
-- python/fala/_build.py: `ensure_process_host_library` gives back a library that is not older than its
-- sources, or leaves the library alone.
use text.Mathlib.TextPositions.{len-append}
use Prim.Native.String.{len}
use fala.Prelude.{
  ℕ, ◌+◌, String, ◌<>◌, ◌≡◌, refl, ◌∙◌, ap, inl, inr, ◌⊎◌, arith, eq_iff, eq_refl, true, false, not,
  ◌||◌, some, is_some, if◌then◌else◌, ◌==◌, leb, Bool-cases, Option-cases,
}
use fala.Prelude.Int.{pos, eqb_ℤ}
use fala.Python.Outcome.{Error, Outcome, ok, raise}
use fala.Python.Effect.{lift, ◌>>=◌}
use fala.Python.Keeps.{lift-cases}
use fala.Build.Libraries.{
  Disk, Site, Compiled, failure, needed, build_failure, native_source, later_of, is_current,
  c_compiler, skips_native_build, library_path, process_host_library_name, install_library,
  build_process_host, refresh_process_host, ensure_process_host_library,
}

-- The library is current, or it could not be made so and is what it was.
abbrev pub IsRefreshed : (library : String) → (newest : ℕ) → Disk → Outcome String × Disk → Type 0
IsRefreshed library newest disk x =
    ((x.0 ≡ ok library) × (is_current (x.1 library) newest ≡ true))
    ⊎ ((e : Error) × (x.0 ≡ raise e) × (x.1 library ≡ disk library))

temp_differs : (library : String) → (library == (library <> ".tmp")) ≡ false
temp_differs library = elim (Bool-cases (library == (library <> ".tmp"))) [
  | inr e ↦ e
  | inl e ↦
      let longer : len library ≡ len library + 4 =
        ap len ((eq_iff library (library <> ".tmp")).0 e) ∙ len-append library ".tmp" in
      absurd (ground arith)
]

module _ (site : Site) (compile : String → Compiled) (newest : ℕ)
    (fresh : (path : String) (t : ℕ) → (compile path).written ≡ some t → leb newest t ≡ true) where
  install-IsRefreshed :
      (library path : String) (disk : Disk)
      → IsRefreshed library newest disk
          (install_library site compile library (library <> ".tmp") (compile path) disk)
  install-IsRefreshed library path disk =
      elim (Bool-cases
        (not (eqb_ℤ (compile path).returncode (pos 0)) || not (is_some (compile path).written))) [
          | inl e ↦ inr (build_failure, rw e refl, rw e (rw (temp_differs library) refl))
          | inr e ↦
              let (t, made) = written (compile path) e in
              inl (rw e refl, rw e (rw (eq_refl library, made) (fresh path t made)))
        ]
    where
      written :
          (c : Compiled)
          → (not (eqb_ℤ c.returncode (pos 0)) || not (is_some c.written)) ≡ false
          → (t : ℕ) × (c.written ≡ some t)
      written c h = elim (Option-cases c.written) [
        | inl gone ↦ absurd (ground arith)
        | inr found ↦ found
      ]

  build-IsRefreshed :
      (library : String) (disk : Disk)
      → IsRefreshed library newest disk (build_process_host site compile library disk)
  build-IsRefreshed library disk =
      lift-cases (IsRefreshed library newest disk)
        (if skips_native_build site.skip_native_build
          then failure "fala subprocess path requires a current "
          else ok tt)
        (λ u.
          lift (
            needed (c_compiler site)
              "fala: cannot build the subprocess host: no C compiler (`cc`/`clang`/`gcc`) on PATH")
          >>= λ path. install_library site compile library (library <> ".tmp") (compile path))
        disk (λ e. inr (e, refl, refl))
        λ u allowed.
          lift-cases (IsRefreshed library newest disk)
            (needed (c_compiler site)
              "fala: cannot build the subprocess host: no C compiler (`cc`/`clang`/`gcc`) on PATH")
            (λ path. install_library site compile library (library <> ".tmp") (compile path)) disk
            (λ e. inr (e, refl, refl)) λ path found. install-IsRefreshed library path disk

  refresh-IsRefreshed :
      (library : String) (disk : Disk)
      → IsRefreshed library newest disk (refresh_process_host site compile library newest disk)
  refresh-IsRefreshed library disk = elim (Bool-cases (is_current (disk library) newest)) [
    | inl e ↦ inl (rw e refl, rw e e)
    | inr e ↦ rw e (build-IsRefreshed library disk)
  ]

-- On a supported platform with both C sources there, and with a compiler whose output is not older than
-- the sources: the call returns the path of the library, and the file there is not older than either
-- source; or it raises, and the library is what it was before, be it missing or stale.
pub ensure_process_host_library-IsRefreshed :
    (site : Site) (compile : String → Compiled) (disk : Disk) (name : String) (source header : ℕ)
    → ((path : String) (t : ℕ)
        → (compile path).written ≡ some t
        → leb (later_of source header) t ≡ true)
    → process_host_library_name site.system ≡ ok name
    → disk (native_source site "native_process_host.c") ≡ some source
    → disk (native_source site "native_process_host.h") ≡ some header
    → IsRefreshed
        (library_path site name)
        (later_of source header)
        disk
        (ensure_process_host_library site compile disk)
unfolding ensure_process_host_library
ensure_process_host_library-IsRefreshed site compile disk name source header fresh named c h =
    rw (named, c, h)
      (refresh-IsRefreshed site compile (later_of source header) fresh (library_path site name)
        disk)
