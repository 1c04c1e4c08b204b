-- ===== src/Build/Tests.antt =====
-- Two callers on an empty cache, a cache with a stale artifact, and a compiler that works.
use fala.Prelude.{
  ℕ, arith, String, ◌≡◌, refl, true, false, not, ◌&&◌, ◌||◌, ◌<◌, ◌≤◌, none, some, List, [], ◌∷◌,
  if◌then◌else◌, ◌==◌, eqb, is_in, leb,
}
use fala.Prelude.Int.{pos}
use fala.Python.Outcome.{ok, is_ok}
use fala.Build.Cache
use fala.Build.Cache.{artifact_name, prune_stale, build_native_extension}
use fala.Build.Builders.{Fate, proceeds, turn, run, fresh}
use fala.Build.Exclusion.{is_locked, is_served, is_building}
use fala.Build.Winners.{ensure_native_safe}
use fala.Build.Progress.{turns_left, is_over, ensure_native_progress}
use fala.Build.Kept.{build_native_extension-publishes}
use fala.Build.Libraries.{
  Disk, Site, Compiled, library_path, native_source, process_host_library_name,
  ensure_process_host_library,
}
use fala.Build.Toolchain
use fala.Build.Toolchain.{mojo_env, mojo_bin}
use fala.Build.Refreshed.{IsRefreshed, ensure_process_host_library-IsRefreshed}

abbrev so : String
so = artifact_name "d1"

abbrev temp : ℕ → String
temp i = "_native.hash-d1.x.tmp.so"

-- the first caller builds, while the second comes up to the lock and waits
abbrev both : List (ℕ × Fate)
both =
    (0, proceeds)
    ∷ (1, proceeds)
    ∷ (0, proceeds)
    ∷ (1, proceeds)
    ∷ (0, proceeds)
    ∷ (1, proceeds)
    ∷ (0, proceeds)
    ∷ (1, proceeds)
    ∷ (0, proceeds)
    ∷ []

ensure_native_safe_example :
    let s = run so temp both (fresh []) in
    ((is_locked (s.phases 0) && (is_locked (s.phases 1) && not (eqb 0 1))) ≡ false)
    × ((is_served (s.phases 0) && not (is_in so s.names)) ≡ false)
    × ((is_building (s.phases 0) && is_in so s.names) ≡ false)
    × (s.built ≤ 1)
ensure_native_safe_example = ensure_native_safe so temp (λ i. refl) both [] 0 1

second_waits : is_over ((run so temp both (fresh [])).phases 1) ≡ false
unfolding run turn
second_waits = refl

ensure_native_progress_example :
    (j : ℕ) × (turns_left ((turn so temp j proceeds (run so temp both (fresh []))).phases j)
      < turns_left ((run so temp both (fresh [])).phases j))
    × (turns_left ((run so temp both (fresh [])).phases j) ≤ 7)
ensure_native_progress_example = ensure_native_progress so temp (λ i. refl) both [] 1 second_waits

-- a build that leaves an empty file
abbrev empty_file : Cache.Compiled
empty_file = record { returncode = pos 0; size = some 0; stdout = ""; stderr = "" }

build_native_extension-publishes_example :
    (is_in so (build_native_extension (ok "mojo") (temp 0) so empty_file (so ∷ [])).1 ≡ (
      is_in so (so ∷ [])
      || (is_ok (build_native_extension (ok "mojo") (temp 0) so empty_file (so ∷ [])).0
          && so == so)))
    × (is_ok (build_native_extension (ok "mojo") (temp 0) so empty_file (so ∷ [])).0 ≡ false)
build_native_extension-publishes_example =
    build_native_extension-publishes (ok "mojo") (temp 0) so so empty_file (so ∷ []) refl

abbrev machine : Site
machine = record {
  system = "linux";
  root = "/fala";
  skip_native_build = "";
  compiler_variable = "cc";
  which = λ name. if name == "clang" then some "/usr/bin/clang" else none;
}

-- the sources, and a library that is older than the second of them
abbrev disk : Disk
disk path =
    if path == native_source machine "native_process_host.c"
    then some 10
    else if path == native_source machine "native_process_host.h"
    then some 20
    else if path == library_path machine "libfala_process_host.so"
    then some 15
    else none

abbrev compile : String → Compiled
compile path = record { returncode = pos 0; written = some 30 }

compiled_later : (path : String) (t : ℕ) → (compile path).written ≡ some t → leb 20 t ≡ true
compiled_later path t h = ground arith

on_linux : process_host_library_name "linux" ≡ ok "libfala_process_host.so"
unfolding process_host_library_name
on_linux = refl

ensure_process_host_library-IsRefreshed_example :
    IsRefreshed
      (library_path machine "libfala_process_host.so")
      20
      disk
      (ensure_process_host_library machine compile disk)
ensure_process_host_library-IsRefreshed_example =
    ensure_process_host_library-IsRefreshed machine compile disk "libfala_process_host.so" 10 20
      compiled_later on_linux refl refl

-- a root with a toolchain of its own, and a caller that names another
abbrev finder : Toolchain.Machine
finder = record {
  is_file = λ path. path == "/fala/.pixi/envs/default/bin/mojo" || path == "/other/mojo";
  is_dir = λ path. true;
  resolve = λ path. path;
  installation = λ path. "/other";
  sdk = some ([], "/sdk");
  which_mojo = λ path. none;
}
