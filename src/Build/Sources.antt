-- ===== src/Build/Sources.antt =====
-- python/fala/_build.py: the pinned sources of EmberJson and sqlite.fire. A directory of sources is
-- `none` if it is not there, and what git and the file system do to it are parameters. A directory that
-- is removed is gone.
use fala.Prelude.{
  String, ◌<>◌, Bool, false, not, ◌&&◌, ◌==◌, Option, none, some, is_some, if◌then◌else◌,
}
use fala.Prelude.Int.{ℤ, pos, eqb_ℤ}
use fala.Python.Outcome.{ok, raise, Error, builtin, runtime_error, process_error}
use fala.Python.Effect.{Action, lift, modify, handle, ◌>>=◌, ◌>>◌}
use fala.Python.Json.{Platform}
use fala.Build.Libraries.{needed}

abbrev pub ember_json_revision : String
ember_json_revision = "951f4ef28d0c2748a30b2c5e43e139411ccca5ef"

abbrev pub sqlite_fire_revision : String
sqlite_fire_revision = "2cb4da921f590f170f6431ab873cd8200384f09a"

abbrev pub ember_json_url : String
ember_json_url = "https://github.com/bgreni/EmberJson.git"

abbrev pub sqlite_fire_url : String
sqlite_fire_url = "https://github.com/mikolaj92/sqlite.fire.git"

-- What a run of git prints, and its exit code.
pub record Printed : Type 0 where
  pub returncode : ℤ
  pub stdout : String

-- The trees that a directory can hold, and what the tools do with one. `clone` and `checkout` leave a
-- directory and an exit code.
pub record Tools : Type 1 where
  pub Tree : Type 0
  -- `shutil.which("git")`
  pub git : Option String
  -- `(source_dir / ".git").exists()`
  pub has_git : Tree → Bool
  pub clone : (url : String) → Option Tree → Option Tree × ℤ
  pub checkout : (revision : String) → Option Tree → Option Tree × ℤ
  -- `git rev-parse HEAD`
  pub rev_parse : Tree → Printed
  -- `git apply --check --reverse` and `git apply`, with the patch of EmberJson
  pub check_reverse : Option Tree → ℤ
  pub apply_patch : Option Tree → Option Tree × ℤ

abbrev pub Sources : Tools → Type 0
Sources tools = Option tools.Tree

unfoldable pub succeeded : ℤ → Bool
succeeded returncode = eqb_ℤ returncode (pos 0)

-- `subprocess.run(…, check=True)`
unfoldable pub checked_run : {S : Type 0} → (S → S × ℤ) → Action S (Unit {0})
checked_run tool s =
    let (t, returncode) = tool s in
    (if succeeded returncode then ok tt else raise (builtin process_error ""), t)

-- the message up to the text of git's exception
abbrev pub fetch_message : (url revision : String) → String
fetch_message url revision =
    "Failed to fetch Fala source dependency " <> (url <> ("@" <> (revision <> ": ")))

module _ ⦃platform : Platform⦄ where
  abbrev pub head_is : String → Printed → Bool
  head_is revision printed =
      succeeded printed.returncode && platform.strip printed.stdout == revision

module _ ⦃platform : Platform⦄ (tools : Tools) where
  open tools use {Tree, git, has_git, clone, checkout, rev_parse, check_reverse, apply_patch}

  -- `_source_is_pinned`
  unfoldable pub source_is_pinned : String → Sources tools → Bool
  source_is_pinned revision none = false
  source_is_pinned revision (some tree) =
      is_some git && has_git tree && head_is revision (rev_parse tree)

  -- the `try` of `_clone_pinned_source`
  unfoldable pub fetch : (url revision : String) → Action (Sources tools) (Unit {0})
  fetch url revision = checked_run (clone url) >> checked_run (checkout revision)

  abbrev pub git_missing : (url revision : String) → String
  git_missing url revision =
      "Fala source dependency "
      <> (url <> ("@" <> (revision <> " is missing and `git` is not on PATH")))

  -- the `except` of `_clone_pinned_source`
  abbrev pub give_up : (url revision : String) → Error → Action (Sources tools) (Unit {0})
  give_up url revision e =
      modify (λ s. none) >> lift (raise (builtin runtime_error (fetch_message url revision)))

  abbrev pub fetch_or_remove : (url revision : String) → Action (Sources tools) (Unit {0})
  fetch_or_remove url revision = handle (fetch url revision) (give_up url revision)

  -- `_clone_pinned_source`
  unfoldable pub clone_pinned_source : (url revision : String) → Action (Sources tools) (Unit {0})
  unfolding fetch
  clone_pinned_source url revision = do
    found ← lift (needed git (git_missing url revision))
    fetch_or_remove url revision

  -- sources that are not pinned are removed and cloned anew
  unfoldable pub ensure_pinned : (url revision : String) → Action (Sources tools) (Unit {0})
  unfolding source_is_pinned clone_pinned_source
  ensure_pinned url revision s =
      if source_is_pinned revision s then (ok tt, s) else clone_pinned_source url revision none

  -- `_ensure_sqlite_fire_sources`
  unfoldable pub ensure_sqlite_fire_sources : Action (Sources tools) (Unit {0})
  unfolding ensure_pinned
  ensure_sqlite_fire_sources = ensure_pinned sqlite_fire_url sqlite_fire_revision

  -- the patch, unless it is there
  unfoldable pub ensure_patched : Action (Sources tools) (Unit {0})
  ensure_patched s =
      if not (succeeded (check_reverse s)) then checked_run apply_patch s else (ok tt, s)

  -- `_ensure_ember_json_sources`
  unfoldable pub ensure_ember_json_sources : Action (Sources tools) (Unit {0})
  unfolding ensure_pinned ensure_patched
  ensure_ember_json_sources = do ensure_pinned ember_json_url ember_json_revision; ensure_patched
