-- ===== src/Lib.antt =====
-- Fala's Python package: the typed dialogue between a parent and the effectors it calls, and the
-- checks around it.
--
-- Fala is a correlator with a native engine. Its Python package, python/fala, is the side that hosts
-- and effectors see: it builds and validates the messages, checks payloads against a schema, reports
-- on the leases in a journal, and runs an effector as a process. This library models the logic of that
-- package and proves what makes it correct.
--
-- Prelude           names of the libraries, Boolean tests on native numbers, integers, list searches
-- Python            the parts of Python's run time that the program uses: `Outcome` (a value or an
--                   exception), `Number` (exact comparison of integers and floats), `Value` (JSON
--                   values; a dict is its list of fields), `Text`, `Effect` (code that changes a
--                   state and may raise), `Keeps`, `Json` (json.dumps, with sorted keys
--                   and both pairs of separators, and `Platform`); `Order` and `Reordered` prove
-- Protocol          python/fala/protocol.py. `Message` holds Request, Result, their wire forms and the
--                   digest that names them; `Wire` is `_validated_wire`, `validate` and `parse`;
--                   `Dialogue` is the rest: who answers whom, `build_result`, `speak` and the contract
--                   pair. `WellFormed` states the invariant of a message, `RoundTrip`, `Inversion`,
--                   `Exact`, `Answers` and `Identity` prove
-- Conformance       python/fala/conformance.py. `Keywords` has one function for each keyword of
--                   `check_payload`, `Payload` puts them together, `Results` checks a whole answer and
--                   `Corpus` is `run_conformance`. `Meaning` states what a schema means, apart from the
--                   code. `Termination`, `Reports`, `Pointers`, `Solved`, `Harness`, `Verdicts`, `Pathless`,
--                   `Accepted` and `Complete` prove
-- Inspection        python/fala/inspection.py. `Clock` is `_utc`, `Rows` the judgement of one row,
--                   `Leases` the whole inspection, `Report` its JSON document. `Accounting`, `Complete`,
--                   `Partition`, `Census`, `Safe` and `Documents` prove
-- Journal           python/fala/read.py. `Records` reads one row, `Reads` is `list_runs`, `get_run` and
--                   `list_processes`. `Limits`, `Spelling`, `Errors`, `Renames` and `Whole` prove
-- Lifecycle         python/fala/journal.py. `Calls` has the argument checks of every operation and the
--                   request that it sends, `Reply` translates errors and reads a reply, `Native` is
--                   `_native_call` once the libraries are there, `Desk` is the whole of it, on Build.
--                   `Guards`, `Completing`, `Committed` and `Working` prove
-- Build             python/fala/_build.py. `Cache` is the cache of built extensions and one build,
--                   `Extension` is `_ensure_native_artifact`, `Builders` its locked part run by many
--                   callers at once, `Sources` the pinned sources of EmberJson and sqlite.fire,
--                   `SqliteFire` is `ensure_sqlite_fire_library`, `Imports` is `ensure_native`,
--                   `Engine` the two calls that make the native engine ready, `Places` is
--                   `repo_root` and what stands on it, `Digest` is `_source_hash`,
--                   `Libraries` is `ensure_process_host_library`, `Toolchain` is `_mojo_env` and
--                   `_mojo_bin`. `Exclusion`, `Winners`, `Progress`, `Kept`, `Refreshed`, `Chosen`,
--                   `Pinned`, `Patched`, `Ready`, `Settled`, `Imported`, `Left`, `Found`, `Unmoved` and
--                   `Engaged` prove
-- Host              python/fala/host.py. `Directory` is `_with_sqlite_cwd`, `Tasks` and
--                   `Recording` are `record_in_process`, `Memory` is `MemoryHost` and `host_drive`,
--                   `Arguments` and `Calls` are `maintain_journal`, `recover_incomplete`,
--                   `delete_terminal_run` and `open_sqlite`, `Package` is `host_run_package`.
--                   `Restored`, `Flights`, `Recorded`, `Built`,
--                   `Requests`, `Answers`, `Turns` and `Sent` prove
-- Rehearsal         python/fala/rehearsal.py. `Policy` is `_policy`, `Snapshot`, `Checks` and `Run` are
--                   `rehearse_journal_retention`, `Database` is `_database_identity`. `Marked` and
--                   `Counters` prove
-- ChildPath         python/fala/child_path.py. `Plan` is `_value_at` and what `main` prepares and reports,
--                   `Driven` is `main`. `Linked` proves
-- Sdk               python/fala/sdk.py. `Inputs` reads a request, `Effector` reads the manifest, writes
--                   the result and runs the process. `Latest` and `Written` prove
--
-- Every part stands on Python. Conformance and Sdk call Protocol; Sdk's effector answers what Protocol
-- validates, and Conformance checks such an answer against a schema. Inspection and Journal only read a
-- database, and Lifecycle only prepares calls. Host changes the process around every call of the native
-- engine; Rehearsal runs its maintenance on a copy; ChildPath runs a package through Host and
-- answers its parent through Sdk and Protocol.
--
-- What Python's run time computes and the package only calls is the record `Platform`: SHA-256, the
-- spelling of a float, int(text), strip, upper, str(value) and json.loads. NaN is one object, as it is in
-- what json.loads returns. The calendar of `datetime` is the record `Calendar`. The one law of them that
-- a theorem assumes, that strip is idempotent, is a hypothesis of that theorem. A database is what its
-- queries return, and the environment and the files of an effector are values that are handed in.
--
-- `check_payload` calls itself on the schemas inside a schema. Its recursion takes fuel, which is the
-- size of the schema; a schema inside another is smaller, so that the fuel suffices for every payload,
-- and the checker is the one function that satisfies the recursion equation of the source. All other
-- loops are structural.
--
-- In Build, a caller is a phase and a schedule is a list of turns; there is no bound on the callers or on
-- the length of a schedule. A turn that is not the caller's to take, such as one that waits for a lock
-- that is held, changes nothing.
--
-- What git, make and the dynamic loader do to a directory of sources is a parameter too. The theorems
-- about pinned sources assume what git documents: a checkout that succeeds has the revision at its head,
-- and a patch that it has applied can be taken back and leaves the head where it is.
--
-- Not modelled: of rehearsal.py, the backup and the reading of files; of host.py,
-- `_python_library_path`; of conformance.py, the reading of the corpus; the Mojo engine and the C
-- process host, the tools and the examples; what the native journal does with a call. What the native
-- engine, the compiler and the file system do is handed in: a native operation is a function of its
-- request and of the process, and a path is resolved already. Files and processes that fail in the
-- operating system are not modelled, and neither is the message that an effector prints before it exits
-- with 1.
pub mod Prelude
pub mod Python
pub mod Protocol
pub mod Conformance
pub mod Inspection
pub mod Journal
pub mod Lifecycle
pub mod Build
pub mod Host
pub mod Rehearsal
pub mod ChildPath
pub mod Sdk
