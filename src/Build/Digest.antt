-- ===== src/Build/Digest.antt =====
-- python/fala/_build.py: `_source_hash`. What a glob lists is a parameter, in whatever order; a path is
-- the list of its parts, and a file is the text of its bytes.
use text.Mathlib.Text.{starts_with}
use fala.Prelude.{
  String, ◌<>◌, ◌==◌, Bool, true, false, not, Option, none, some, List, [], ◌∷◌, ◌++◌,
  if◌then◌else◌, any,
}
use fala.Python.Json.{Platform}
use fala.Python.Text.{str_lt, first_chars}

abbrev pub FilePath : Type 0
FilePath = List String

-- The five globs of `_source_hash`, below the package and below the root, and the files.
pub record Checkout : Type 0 where
  pub package_files : List FilePath
  pub sources : List FilePath
  pub ember_json : List FilePath
  pub sqlite_fire : List FilePath
  pub process_host : List FilePath
  pub root : FilePath
  pub read : FilePath → String

-- `_is_source_hash_path`
unfoldable pub is_source_hash_path : FilePath → Bool
is_source_hash_path path = not (any (λ part. starts_with part ".fala-effector-") path)

abbrev pub kept : List FilePath → List FilePath
kept [] = []
kept (p ∷ ps) = if is_source_hash_path p then p ∷ kept ps else kept ps

-- `p < q`: part by part
abbrev pub path_lt : FilePath → FilePath → Bool
path_lt ps [] = false
path_lt [] (q ∷ qs) = true
path_lt (p ∷ ps) (q ∷ qs) = if p == q then path_lt ps qs else str_lt p q

abbrev pub insert_path : FilePath → List FilePath → List FilePath
insert_path p [] = p ∷ []
insert_path p (q ∷ qs) = if path_lt q p then q ∷ insert_path p qs else p ∷ q ∷ qs

-- `sorted(paths)`
abbrev pub sort_paths : List FilePath → List FilePath
sort_paths [] = []
sort_paths (p ∷ ps) = insert_path p (sort_paths ps)

-- `path.relative_to(root)`; `none` is a ValueError
abbrev pub relative_to : FilePath → FilePath → Option FilePath
relative_to [] path = some path
relative_to (r ∷ rs) [] = none
relative_to (r ∷ rs) (p ∷ ps) = if r == p then relative_to rs ps else none

-- `path.name`
abbrev pub last_part : FilePath → String
last_part [] = ""
last_part (p ∷ []) = p
last_part (p ∷ q ∷ ps) = last_part (q ∷ ps)

-- `str(path)` of a relative path
abbrev pub joined : FilePath → String
joined [] = "."
joined (p ∷ []) = p
joined (p ∷ q ∷ ps) = p <> ("/" <> joined (q ∷ ps))

abbrev pub name_in : FilePath → Option FilePath → String
name_in path none = last_part path
name_in path (some rel) = joined rel

-- what the hash is fed: each name and each file
abbrev pub fed : Checkout → List FilePath → String
fed tree [] = ""
fed tree (p ∷ ps) = name_in p (relative_to tree.root p) <> (tree.read p <> fed tree ps)

abbrev pub listed : Checkout → List FilePath
listed tree =
    tree.package_files
    ++ (tree.sources ++ (tree.ember_json ++ (tree.sqlite_fire ++ tree.process_host)))

module _ ⦃platform : Platform⦄ where
  -- `_source_hash`
  unfoldable pub source_hash : Checkout → String
  unfolding is_source_hash_path
  source_hash tree =
      first_chars 16 (platform.sha256_hex (fed tree (sort_paths (kept (listed tree)))))
