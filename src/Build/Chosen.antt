-- ===== src/Build/Chosen.antt =====
-- python/fala/_build.py: the toolchain under the requested root wins.
use fala.Prelude.{
  String, ◌<>◌, ◌≡◌, refl, ◌∙◌, ap, inl, inr, Bool, true, false, some, ◌==◌, Bool-cases, is_in,
}
use fala.Python.Outcome.{ok}
use fala.Python.Text.{truthy, split}
use fala.Sdk.Effector.{Environment, variable}
use fala.Host.Directory.{assign}
use fala.Host.Restored.{variable-assign}
use fala.Build.Cache.{under}
use fala.Build.Toolchain
use fala.Build.Toolchain.{
  Machine, file_named, found_mojo, or_else, driver_variable, package_variable, root_toolchain,
  mojo_of, prepend_to, prepend_env_path, with_imports, with_paths, toolchain_env, mojo_env,
  mojo_bin, without_empty, text_or_empty,
}

other_assign :
    (k j v : String) (env : Environment)
    → (k == j) ≡ false
    → variable j (assign k v env) ≡ variable j env
other_assign k j v env h = variable-assign k j v env ∙ rw h refl

other_prepend :
    (prefix key j : String) (env : Environment)
    → (key == j) ≡ false
    → variable j (prepend_to prefix key env) ≡ variable j env
other_prepend prefix key j env h =
    elim (Bool-cases (is_in prefix (without_empty (split 58 (text_or_empty (variable key env)))))) [
      | inl e ↦ rw e refl
      | inr e ↦ rw e (other_assign key j _ env h)
    ]

full :
    (is_file : String → Bool) (p : String) → is_file "" ≡ false → is_file p ≡ true → truthy p ≡ true
full is_file String.[] empty there = absurd (cc (empty, there))
full is_file (String.◌∷◌ c s) empty there = refl

module _ (machine : Machine) where
  other_libraries :
      (j path : String) (env : Environment)
      → ("LD_LIBRARY_PATH" == j) ≡ false
      → ("DYLD_LIBRARY_PATH" == j) ≡ false
      → variable j (prepend_env_path machine env path) ≡ variable j env
  unfolding prepend_env_path
  other_libraries j path env h k = elim (Bool-cases (machine.is_dir path)) [
    | inl e ↦ rw e (
        other_prepend path "LD_LIBRARY_PATH" j _ h ∙ other_prepend path "DYLD_LIBRARY_PATH" j env k)
    | inr e ↦ rw e refl
  ]

  imports_kept :
      (toolchain : String) (env : Environment)
      → variable driver_variable (with_imports machine assign toolchain env)
        ≡ variable driver_variable env
  imports_kept toolchain env =
      elim (Bool-cases (machine.is_dir (under (under toolchain "lib") "mojo"))) [
        | inl e ↦ rw e (other_assign "MODULAR_MOJO_MAX_IMPORT_PATH" driver_variable _ env refl)
        | inr e ↦ rw e refl
      ]

  paths_kept :
      (toolchain : String) (env : Environment)
      → variable driver_variable (with_paths machine toolchain env) ≡ variable driver_variable env
  paths_kept toolchain env =
      other_libraries driver_variable (under toolchain "lib") _ refl refl
      ∙ other_assign "PATH" driver_variable
          (under toolchain "bin" <> (":" <> text_or_empty (variable "PATH" env))) env refl

  bin_of_driver :
      (env : Environment) (p : String)
      → variable driver_variable env ≡ some p
      → truthy p ≡ true
      → machine.is_file p ≡ true
      → mojo_bin machine env ≡ ok p
  unfolding mojo_bin
  bin_of_driver env p set filled there =
      let named : file_named machine (variable driver_variable env) ≡ some p =
        rw set (rw (filled, there) refl) in
      ap
        (λ o. found_mojo (
          or_else o (
            or_else (file_named machine (variable "MOJO" env))
              (Toolchain.filled (machine.which_mojo (variable "PATH" env))))))
        named

  -- The empty path names no file. If the toolchain under the requested root has a `mojo`, then the
  -- environment that is made for this root leads to that `mojo`, whatever toolchain the caller's
  -- environment or the `mojo` package names.
  pub mojo_bin-mojo_env :
      (root : String) (env : Environment)
      → machine.is_file "" ≡ false
      → machine.is_file (mojo_of (root_toolchain root)) ≡ true
      → mojo_bin machine (mojo_env machine root env) ≡ ok (mojo_of (root_toolchain root))
  unfolding mojo_env
  mojo_bin-mojo_env root env empty there =
      let rooted =
        assign package_variable (root_toolchain root)
          (assign "MODULAR_MAX_PACKAGE_ROOT" (root_toolchain root) env) in
      let named = assign driver_variable (mojo_of (root_toolchain root)) rooted in
      let driver : variable driver_variable (mojo_env machine root env)
          ≡ some (mojo_of (root_toolchain root)) =
        rw there (
          paths_kept (root_toolchain root) (with_imports machine assign (root_toolchain root) named)
          ∙ imports_kept (root_toolchain root) named
          ∙ variable-assign driver_variable driver_variable (mojo_of (root_toolchain root))
              rooted) in
      bin_of_driver (mojo_env machine root env) (mojo_of (root_toolchain root)) driver
        (full machine.is_file (mojo_of (root_toolchain root)) empty there) there
