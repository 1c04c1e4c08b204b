-- ===== src/Build/Builders.antt =====
-- python/fala/_build.py: `_ensure_native_artifact`, run by any number of callers at once that share one
-- cache directory and one digest. A caller stands at a phase; one turn of a caller goes to the next
-- phase, and the fate of the turn says what the world outside does to it.
use fala.Prelude.{ℕ, suc, String, Option, none, some, List, ◌∷◌, if◌then◌else◌, eqb, is_in}
use fala.Host.Directory.{discard}
use fala.Build.Cache.{Names, prune_stale, replace_name}

-- Where a caller stands.
pub data Phase : Type 0 where
  -- before the first look into the cache, and before the second, once the sources are there
  starting fetched : Phase
  -- before `if not so_path.is_file()`, and before the lock
  missed waiting : Phase
  -- under the lock: before the second check, in the build, and before the pruning
  holding building pruning : Phase
  -- returned the path, and raised or was killed
  done failed : Phase

-- What happens to a turn: it goes as it should, a tool fails, or the process is killed.
pub data Fate : Type 0 where
  proceeds fails killed : Fate

pub record System : Type 0 where
  pub names : Names
  -- the caller that holds the lock
  pub lock : Option ℕ
  pub phases : ℕ → Phase
  -- how many builds have published the artifact
  pub built : ℕ

abbrev pub set_phase : ℕ → Phase → (ℕ → Phase) → ℕ → Phase
set_phase i phase phases j = if eqb j i then phase else phases j

abbrev pub move : ℕ → Phase → System → System
move i phase s = record s { phases = set_phase i phase s.phases }

-- the phase changes, and the lock is given back
abbrev pub release : ℕ → Phase → System → System
release i phase s = record s { phases = set_phase i phase s.phases; lock = none }

abbrev pub acquire : ℕ → Option ℕ → System → System
acquire i none s = record s { phases = set_phase i holding s.phases; lock = some i }
acquire i (some j) s = s

module _ (so : String) where
  -- a look for the artifact
  abbrev pub look : ℕ → (here missing : Phase) → System → System
  look i here missing s = if is_in so s.names then move i here s else move i missing s

module _ (so : String) (temp : ℕ → String) where
  -- the second check under the lock, and the temporary file of the build that it may start
  abbrev pub recheck : ℕ → System → System
  recheck i s =
      if is_in so s.names
      then move i pruning s
      else record s { phases = set_phase i building s.phases; names = temp i ∷ s.names }

  abbrev pub publish : ℕ → System → System
  publish i s = record s {
    phases = set_phase i pruning s.phases;
    names = replace_name (temp i) so s.names;
    built = suc s.built;
  }

  abbrev pub turn_at : ℕ → Phase → Fate → System → System
  turn_at i done fate s = s
  turn_at i failed fate s = s
  turn_at i starting killed s = move i failed s
  turn_at i starting proceeds s = look so i done fetched s
  turn_at i starting fails s = look so i done failed s
  turn_at i fetched killed s = move i failed s
  turn_at i fetched proceeds s = look so i done missed s
  turn_at i fetched fails s = move i failed s
  turn_at i missed killed s = move i failed s
  turn_at i missed proceeds s = look so i done waiting s
  turn_at i missed fails s = move i failed s
  turn_at i waiting killed s = move i failed s
  turn_at i waiting proceeds s = acquire i s.lock s
  turn_at i waiting fails s = move i failed s
  turn_at i holding killed s = release i failed s
  turn_at i holding proceeds s = recheck i s
  turn_at i holding fails s = release i failed s
  turn_at i building killed s = release i failed s
  turn_at i building proceeds s = publish i s
  turn_at i building fails s = record (release i failed s) { names = discard (temp i) s.names }
  turn_at i pruning killed s = release i failed s
  turn_at i pruning proceeds s = record (release i done s) { names = prune_stale so s.names }
  turn_at i pruning fails s = release i failed s

  -- One turn of caller `i`.
  unfoldable pub turn : ℕ → Fate → System → System
  turn i fate s = turn_at i (s.phases i) fate s

  -- The turns of a schedule, one after another.
  unfoldable pub run : List (ℕ × Fate) → System → System
  run List.[] s = s
  run ((i, fate) ∷ rest) s = run rest (turn i fate s)

-- Every caller is at the start, nobody holds the lock, and nothing was built.
abbrev pub fresh : Names → System
fresh names = record { names = names; lock = none; phases = λ i. starting; built = 0 }
