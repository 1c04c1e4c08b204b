-- ===== src/Host/Restored.antt =====
-- python/fala/host.py: `_with_sqlite_cwd` gives the process back as it was.
use fala.Prelude.{
  String, ◌≡◌, refl, ◌∙◌, ap, Bool, true, false, ◌||◌, Option, none, some, List, [], ◌∷◌, arith,
  eq_iff, if◌then◌else◌, ◌==◌, is_in,
}
use fala.Python.Outcome.{ok}
use fala.Python.Effect.{Action, gets}
use fala.Python.Json.{Platform}
use fala.Sdk.Effector.{Environment, variable}
use fala.Host.Directory.{
  Process, Place, unset, assign, put_back, discard, root_variable, library_variable, is_blank,
  install_root, install_library, enter, with_sqlite_cwd,
}

variable-unset :
    (k j : String) (env : Environment)
    → variable j (unset k env) ≡ (if k == j then none else variable j env)
variable-unset k j [] = ground arith
variable-unset k j ((i, w) ∷ env) =
    ground (arith, eq_iff k i, eq_iff j i, eq_iff k j, variable-unset k j env)

pub variable-assign :
    (k j v : String) (env : Environment)
    → variable j (assign k v env) ≡ (if k == j then some v else variable j env)
variable-assign k j v [] = ground (arith, eq_iff j k, eq_iff k j)
variable-assign k j v ((i, w) ∷ env) =
    ground (arith, eq_iff k i, eq_iff j i, eq_iff k j, variable-assign k j v env)

variable-put_back :
    (k j : String) (o : Option String) (env : Environment)
    → variable j (put_back k o env) ≡ (if k == j then o else variable j env)
variable-put_back k j none env = variable-unset k j env
variable-put_back k j (some v) env = variable-assign k j v env

-- the two variables that a call may change
abbrev pub touched : String → Bool
touched k = root_variable == k || library_variable == k

variables_differ : (k : String) → (root_variable == k) ≡ true → (library_variable == k) ≡ false
variables_differ k h = let e : root_variable ≡ k = (eq_iff root_variable k).0 h in rw (← e) refl

is_in-discard : (x : String) (xs : List String) → is_in x (discard x xs) ≡ false
is_in-discard x [] = refl
is_in-discard x (y ∷ ys) = ground (arith, is_in-discard x ys)

pub discard-absent : (x : String) (xs : List String) → is_in x xs ≡ false → discard x xs ≡ xs
discard-absent x [] h = refl
discard-absent x (y ∷ ys) h = ground (arith, discard-absent x ys)

module _ ⦃platform : Platform⦄ {A : Type 0} where
  -- Whatever the callback does, and whether it returns or raises, the outcome is the callback's, and the
  -- working directory and the two variables are afterwards what they were before; every other variable
  -- is as the callback left it, and a temporary root that the call has made is gone.
  pub with_sqlite_cwd-restores :
      (place : Place) (library : Option String) (fn : Action Process A) (p : Process) (k : String)
      → ((with_sqlite_cwd place library fn p).0 ≡ (fn (enter place library p)).0)
        × ((with_sqlite_cwd place library fn p).1.cwd ≡ p.cwd)
        × (variable k (with_sqlite_cwd place library fn p).1.environ ≡ (
            if touched k
            then variable k p.environ
            else variable k (fn (enter place library p)).1.environ))
        × (is_in place.fresh_root (with_sqlite_cwd place library fn p).1.roots ≡ (
            if is_blank (variable root_variable p.environ)
            then false
            else is_in place.fresh_root (fn (enter place library p)).1.roots))
  unfolding with_sqlite_cwd
  with_sqlite_cwd-restores place library fn p k =
      let left : Process = (fn (enter place library p)).1 in
      let inner = put_back library_variable (variable library_variable p.environ) left.environ in
      (
        refl,
        refl,
        ground (
          arith,
          eq_iff root_variable k,
          eq_iff library_variable k,
          variable-put_back root_variable k (variable root_variable p.environ) inner,
          variable-put_back library_variable k (variable library_variable p.environ) left.environ,
        ),
        ground (arith, is_in-discard place.fresh_root left.roots),
      )

-- What a variable with a default is set to: itself, unless it is blank.
module _ ⦃platform : Platform⦄ where
  abbrev pub or_default : Option String → Option String → Option String
  or_default set none = set
  or_default set (some default) = if is_blank set then some default else set

  install_root-environ :
      (place : Place) (p : Process) (k : String)
      → variable k (install_root place p).environ ≡ (
          if root_variable == k
          then or_default (variable root_variable p.environ) (some place.fresh_root)
          else variable k p.environ)
  install_root-environ place p k =
      ground
        (arith, eq_iff root_variable k, variable-assign root_variable k place.fresh_root p.environ)

  install_library-environ :
      (previous library : Option String) (p : Process) (k : String)
      → variable library_variable p.environ ≡ previous
      → variable k (install_library previous library p).environ
        ≡ (if library_variable == k then or_default previous library else variable k p.environ)
  install_library-environ previous none p k e = ground (arith, eq_iff library_variable k)
  install_library-environ previous (some library) p k e =
      ground
        (arith, eq_iff library_variable k, variable-assign library_variable k library p.environ)

  enter-environ :
      (place : Place) (library : Option String) (p : Process) (k : String)
      → variable k (enter place library p).environ ≡ (
          if root_variable == k
          then or_default (variable root_variable p.environ) (some place.fresh_root)
          else if library_variable == k
          then or_default (variable library_variable p.environ) library
          else variable k p.environ)
  unfolding enter
  enter-environ place library p k =
      let q : Process = if place.is_dir then record p { cwd = place.sqlite_cwd } else p in
      let same : q.environ ≡ p.environ = ground arith in
      let rooted : Process = install_root place q in
      let kept : variable library_variable rooted.environ ≡ variable library_variable p.environ =
        install_root-environ place q library_variable ∙ ap (variable library_variable) same in
      install_library-environ (variable library_variable p.environ) library rooted k kept
      ∙ ground (arith, same, install_root-environ place q k, variables_differ k)

  -- The callback sees the root that was set, or a fresh one if none was set or it was blank; the library
  -- that was set, or else the one that was handed in; and every other variable as it was.
  pub with_sqlite_cwd-environ :
      (place : Place) (library : Option String) (p : Process) (k : String)
      → (with_sqlite_cwd place library (gets (λ s. variable k s.environ)) p).0
        ≡ ok (
            if root_variable == k
            then or_default (variable root_variable p.environ) (some place.fresh_root)
            else if library_variable == k
            then or_default (variable library_variable p.environ) library
            else variable k p.environ)
  unfolding with_sqlite_cwd
  with_sqlite_cwd-environ place library p k = ap ok (enter-environ place library p k)
