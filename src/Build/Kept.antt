-- ===== src/Build/Kept.antt =====
-- python/fala/_build.py: which names of the cache a build and the pruning touch.
use fala.Prelude.{
  String, ◌≡◌, refl, inl, inr, arith, eq_iff, eq_refl, Bool, false, not, ◌&&◌, ◌||◌, [], ◌∷◌, ◌==◌,
  is_in, Bool-cases,
}
use fala.Python.Outcome.{Outcome, ok, raise, is_ok}
use fala.Python.Text.{ends_with}
use fala.Host.Directory.{discard}
use fala.Host.Restored.{discard-absent}
use fala.Build.Cache.{
  Names, without, prune_stale, is_debris, is_artifact, Compiled, is_built, build_native_extension,
}
use fala.Build.Exclusion.{is_in-without}

pub is_in-discard :
    (k x : String) (xs : Names) → is_in k (discard x xs) ≡ (not (k == x) && is_in k xs)
is_in-discard k x [] = ground arith
is_in-discard k x (y ∷ ys) =
    ground (arith, eq_iff x y, eq_iff k x, eq_iff k y, is_in-discard k x ys)

-- Pruning keeps the published artifact, and every name that is neither an artifact's nor debris of a build;
-- it takes every other one away.
pub is_in-prune_stale :
    (keep k : String) (names : Names)
    → is_in k (prune_stale keep names)
      ≡ (is_in k names && (k == keep || not (is_artifact k || is_debris k)))
unfolding prune_stale
is_in-prune_stale keep k names =
    let stale : String → Bool =
      λ x. is_artifact x && (not (x == keep) && not (ends_with x ".tmp.so")) in
    let debris : String → Bool = λ x. is_debris x && not (x == keep) in
    ground (arith, is_in-without k debris k (without stale names), is_in-without k stale k names)

temp_gone :
    (temp : String) (names : Names) → is_in temp names ≡ false → discard temp (temp ∷ names) ≡ names
temp_gone temp names new = rw (eq_refl temp) (discard-absent temp names new)

-- A build that starts with a temporary name which is not in the cache: however it ends, the names in the
-- cache are those that were there before, and the artifact's if the build succeeded; and it succeeds just
-- if there is a compiler and the compiler left a file that is not empty with exit code 0.
pub build_native_extension-publishes :
    (mojo : Outcome String) (temp so k : String) (c : Compiled) (names : Names)
    → is_in temp names ≡ false
    → (is_in k (build_native_extension mojo temp so c names).1
        ≡ (is_in k names || (is_ok (build_native_extension mojo temp so c names).0 && k == so)))
      × (is_ok (build_native_extension mojo temp so c names).0 ≡ (is_ok mojo && is_built c))
unfolding build_native_extension
build_native_extension-publishes (raise e) temp so k c names new = ground arith
build_native_extension-publishes (ok path) temp so k c names new = elim (Bool-cases (is_built c)) [
  | inl e ↦ (rw (e, temp_gone temp names new) (ground (arith, is_in-discard k so names)), rw e refl)
  | inr e ↦ (rw (e, temp_gone temp names new) (ground arith), rw e refl)
]
