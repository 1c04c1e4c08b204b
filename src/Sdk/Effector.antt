-- ===== src/Sdk/Effector.antt =====
-- python/fala/sdk.py: `load_manifest`, `write_result` and the run of an effector. The environment is
-- a list of its variables; the files are what is read and what is written.
use fala.Prelude.{ℕ, String, ◌<>◌, Option, none, some, List, [], ◌∷◌, if◌then◌else◌, ◌==◌}
use fala.Python.Outcome.{Outcome, ok, raise, builtin, runtime_error, type_error, ◌>>=◌}
use fala.Python.Value.{Value, Fields}
use fala.Python.Text.{truthy}
use fala.Python.Json.{Platform}
use fala.Protocol.Message.{Request, Result, result, to_message}
use fala.Protocol.Dialogue.{Spoken, typed, text, validate, only_request, build_result, speak}

-- `os.environ`, or the mapping that replaces it
abbrev pub Environment : Type 0
Environment = List (String × String)

abbrev pub variable : String → Environment → Option String
variable k [] = none
variable k ((j, v) ∷ env) = if k == j then some v else variable k env

-- `env.get(name)`, which must be there and not be empty
abbrev pub required_variable : String → Environment → Outcome String
required_variable name env = elim (variable name env) [
  | none ↦ raise (builtin runtime_error (name <> " is required"))
  | some s ↦ if truthy s then ok s else raise (builtin runtime_error (name <> " is required"))
]

-- A file that was written: its path, and the document that its text spells.
pub record Written : Type 0 where
  pub path : String
  pub document : Fields

-- What an effector's process leaves: its exit status, and the file if one was written.
pub record Exit : Type 0 where
  pub status : ℕ
  pub output : Option Written

module _ ⦃platform : Platform⦄ where
  -- `load_manifest`, with the files that can be read
  unfoldable pub load_manifest : Environment → (String → Outcome String) → Outcome Request
  load_manifest env read_text = do
    path ← required_variable "FALA_EFFECTOR_MANIFEST" env
    document ← read_text path
    m ← validate (text document) (some "request")
    only_request m

  -- `output`
  unfoldable pub output : Spoken → Value → String → Outcome Result
  unfolding build_result
  output = build_result

  -- the refusal of what is no `Result`: a mapping or a `Request` is validated first
  abbrev pub only_typed_result : Spoken → Outcome Result
  only_typed_result (typed (result r)) = ok r
  only_typed_result (text t) = raise (builtin type_error "write_result accepts only Result")
  only_typed_result x = do
    _ ← validate x (some "result")
    raise (builtin type_error "write_result accepts only Result")

  -- `write_result`. The document that is written is kept as a value: `speak` has spelled it already,
  -- so that its second spelling, with an indent, raises nothing.
  unfoldable pub write_result : Environment → Spoken → Outcome Written
  write_result env x = do
    directory ← required_variable "FALA_EFFECTOR_OUTPUT_DIR" env
    r ← only_typed_result x
    spoken ← speak (typed (result r)) (some "result")
    document ← to_message spoken
    ok (record { path = directory <> "/result.json"; document = document })

  abbrev pub exit_of : Outcome Written → Exit
  exit_of (ok w) = record { status = 0; output = some w }
  exit_of (raise e) = record { status = 1; output = none }

  -- `run_manifest_effector`
  unfoldable pub run_manifest_effector :
      Environment → (String → Outcome String) → (Request → Outcome Result) → Exit
  unfolding load_manifest write_result
  run_manifest_effector env read_text handler = exit_of do
    manifest ← load_manifest env read_text
    r ← handler manifest
    write_result env (typed (result r))
