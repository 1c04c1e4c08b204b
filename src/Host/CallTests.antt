-- ===== src/Host/CallTests.antt =====
-- A world with one database file, an engine that finds no run, and a package to run.
use fala.Prelude.{◌≡◌, refl, true, false, none, some, [], ◌∷◌, ◌==◌}
use fala.Prelude.Int.{pos, negsuc}
use fala.Python.Number.{whole, number_lt}
use fala.Python.Outcome.{ok, raise, builtin, value_error}
use fala.Python.Value.{Fields, bool, int, float, str, dict, end, field}
use fala.Python.Tests.{echo_platform}
use fala.Inspection.Clock.{Calendar}
use fala.Host.Directory.{Process, Place, enter, with_sqlite_cwd}
use fala.Host.Arguments.{
  World, maintain_request, recover_request, durable_database, timestamp, delete_request,
}
use fala.Host.Calls.{Native, delete_terminal_run, call_native}
use fala.Host.Requests.{IsBounded, maintain_request-IsBounded}
use fala.Host.Answers.{settings}
use fala.Python.Effect.{lift, ◌>>=◌}
use fala.Host.Package.{package_reply, Site, Order, process_host_library, host_run_package}
use fala.Host.Turns.{host_run_package-IsBack}
use fala.Host.Sent.{IsChosen, IsHosted, IsRequestOf, host_run_package-sends}

abbrev place : Place
place = record { sqlite_cwd = "/vendor"; is_dir = true; fresh_root = "/tmp/root" }

abbrev process : Process
process = record { cwd = "/home"; environ = ("PATH", "/bin") ∷ []; roots = [] }

abbrev calendar : Calendar
calendar = record {
  from_iso = λ s. some (record { instant = some (pos 0); aware = true });
  stamp = λ n. "";
  now = pos 0;
}

abbrev world : World
world = record {
  is_file = λ path. path == "a.db";
  is_dir = λ path. false;
  ready = ok tt;
  place = place;
  encode = λ fs. ok "{}";
  to_float = λ n. some (whole n);
  calendar = calendar;
}

abbrev pruning : Fields
pruning = field "db_path" (str "a.db") (
    field "older_than_days" (float (whole (pos 30))) (
      field "keep_last" (int (negsuc 0)) (
        field "vacuum" (bool false)
          (field "dry_run" (bool true) (field "reaction_root" (str "") end)))))

maintained :
    maintain_request world "a.db" (int (pos 30)) (int (negsuc 0)) (bool false) (bool true) none
    ≡ ok pruning
unfolding maintain_request durable_database number_lt
maintained = refl

maintain_request-IsBounded_example : IsBounded world.is_file world.is_dir pruning
maintain_request-IsBounded_example =
    maintain_request-IsBounded world "a.db" (int (pos 30)) (int (negsuc 0)) (bool false) (bool true)
      none pruning maintained

abbrev recovery : Fields
recovery = field "db_path" (str "a.db") (
    field "worker_id" (str "w") (
      field "now" (str "2026-01-01T00:00:00Z")
        (field "retry_available_at" (str "2026-01-02T00:00:00Z") end)))

recovered :
    recover_request world "a.db" "w" "2026-01-01T00:00:00Z" (some "2026-01-02T00:00:00Z")
    ≡ ok recovery
unfolding recover_request durable_database timestamp
recovered = refl

-- an engine that finds no run
abbrev lost : Native
lost payload p = (raise (builtin value_error "unknown run: r"), record p { cwd = "/else" })

deleted_lost :
    (delete_terminal_run world lost "a.db" "r" process).0
    ≡ raise (builtin value_error "fala.delete_terminal_run: unknown run: r")
unfolding delete_terminal_run delete_request durable_database call_native with_sqlite_cwd enter
deleted_lost = refl

-- an engine that deletes the run
abbrev deleting : Native
deleting payload p = (ok (dict (field "ok" (bool true) (field "deleted" (bool true) end))), p)

abbrev site : Site
site = record {
  is_file = λ path. path == "p.toml";
  is_absolute = λ path. true;
  resolve = λ path. path;
  built_host = ok "/lib/host.so";
  ready = ok tt;
  place = place;
  encode = λ fs. ok "{}";
  is_posix = true;
  now = "2026-01-01T00:00:00Z";
  executable = "python3";
  child_runner = "child_path.py";
  pythonpath = "python";
  python_library = "";
  fala_home = "/fala";
}

abbrev order : Order
order = record {
  db_path = "a.db";
  package_path = "p.toml";
  path_id = str "path";
  run_id = "run";
  inputs = some (field "x" (str "1") end);
  effector_inputs = none;
  effector_configs = none;
  command_overrides = none;
  execution_lock_path = some "turn.lock";
  max_ticks = pos 32;
  worker_id = "python-host";
}

host_run_package-IsBack_example :
    (settings (host_run_package site lost order (process, "other.lock" ∷ [])).1.0
      ≡ settings process)
    × ((host_run_package site lost order (process, "other.lock" ∷ [])).1.1 ≡ "other.lock" ∷ [])
host_run_package-IsBack_example =
    host_run_package-IsBack site lost order process ("other.lock" ∷ []) refl

built_chosen : process_host_library site process.environ ≡ ok "/lib/host.so"
unfolding process_host_library
built_chosen = refl

host_run_package-sends_example :
    IsChosen site process.environ "/lib/host.so"
    × (request : Fields) × IsRequestOf site order request
    × IsHosted site process.environ "/lib/host.so" request
    × ((host_run_package site deleting order (process, [])).0
        ≡ ((do
          payload ← lift (site.encode request)
          out ← deleting payload
          lift (package_reply out))
            (enter site.place (some "/lib/host.so") process)).0)
host_run_package-sends_example =
    host_run_package-sends site deleting order process [] "/lib/host.so" refl built_chosen refl refl
