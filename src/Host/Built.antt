-- ===== src/Host/Built.antt =====
-- python/fala/host.py: what a `MemoryHost` sends, however its methods were called before.
use fala.Prelude.{
  String, ◌≡◌, refl, ◌∙◌, ap, arith, eq_iff, Option, none, some, List, [], ◌∷◌, if◌then◌else◌, ◌==◌,
}
use fala.Prelude.Int.{ℤ}
use fala.Python.Outcome.{Outcome, raise}
use fala.Python.Value.{Value, Fields, end, field, get, put}
use fala.Host.Memory.{
  Body, body_value, Session, open_memory, accept_impulse, set_path, register_output, impulse_fields,
  path_fields, host_drive, drive_along, drive, outputs_or_none, no_path,
}

-- A call of a method of the builder.
pub data Command : Type 0 where
  with_impulse : (impulse_id impulse_type : String) → Option Body → Command
  with_path : (path_id : String) → List Fields → Command
  with_output : (effector_id : String) → Body → Command

unfoldable pub perform : Command → Session → Session
perform (with_impulse i k b) s = accept_impulse i k b s
perform (with_path i es) s = set_path i es s
perform (with_output i b) s = register_output i b s

unfoldable pub build : List Command → Session → Session
build [] s = s
build (c ∷ cs) s = build cs (perform c s)

-- The later of two settings, where there is one.
abbrev pub later : {A : Type 0} → Option A → Option A → Option A
later none before = before
later (some x) before = some x

-- What a command sets: the path, the impulse, and the output of an effector.
abbrev pub sets_path : Command → Option Fields
sets_path (with_path i es) = some (path_fields i es)
sets_path _ = none

abbrev pub sets_impulse : Command → Option Fields
sets_impulse (with_impulse i k b) = some (impulse_fields i k b)
sets_impulse _ = none

abbrev pub sets_output : String → Command → Option Value
sets_output k (with_output i b) = if k == i then some (body_value b) else none
sets_output k _ = none

-- The last setting in a sequence of commands.
abbrev pub last_set : {A : Type 0} → (Command → Option A) → List Command → Option A
last_set sets [] = none
last_set sets (c ∷ cs) = later (last_set sets cs) (sets c)

pub get-put :
    (k j : String) (v : Value) (fs : Fields)
    → get k (put j v fs) ≡ (if k == j then some v else get k fs)
get-put k j v end = refl
get-put k j v (field i w fs) = ground (arith, eq_iff k i, eq_iff j i, eq_iff k j, get-put k j v fs)

later-later : {A : Type 0} (x y z : Option A) → later x (later y z) ≡ later (later x y) z
later-later none y z = refl
later-later (some x) y z = refl

-- A view of the session in which a command sets what it sets, and nothing else changes.
module _ {A : Type 0} (view : Session → Option A) (sets : Command → Option A)
    (set : (c : Command) (s : Session) → view (perform c s) ≡ later (sets c) (view s)) where
  view-build :
      (cs : List Command) (s : Session) → view (build cs s) ≡ later (last_set sets cs) (view s)
  unfolding build
  view-build [] s = refl
  view-build (c ∷ cs) s =
      view-build cs (perform c s)
      ∙ ap (later (last_set sets cs)) (set c s)
      ∙ later-later (last_set sets cs) (sets c) (view s)

path-perform : (c : Command) (s : Session) → (perform c s).path ≡ later (sets_path c) s.path
unfolding perform accept_impulse set_path register_output
path-perform (with_impulse i k b) s = refl
path-perform (with_path i es) s = refl
path-perform (with_output i b) s = refl

impulse-perform :
    (c : Command) (s : Session) → (perform c s).impulse ≡ later (sets_impulse c) s.impulse
unfolding perform accept_impulse set_path register_output
impulse-perform (with_impulse i k b) s = refl
impulse-perform (with_path i es) s = refl
impulse-perform (with_output i b) s = refl

output-perform :
    (k : String) (c : Command) (s : Session)
    → get k (perform c s).outputs ≡ later (sets_output k c) (get k s.outputs)
unfolding perform accept_impulse set_path register_output
output-perform k (with_impulse i j b) s = refl
output-perform k (with_path i es) s = refl
output-perform k (with_output i b) s = ground (arith, get-put k i (body_value b) s.outputs)

later-none : {A : Type 0} (o : Option A) → later o none ≡ o
later-none none = refl
later-none (some x) = refl

abbrev names : Session → String × String × String
names s = (s.run_id, s.stream_id, s.title)

names-build : (cs : List Command) (s : Session) → names (build cs s) ≡ names s
unfolding build perform accept_impulse set_path register_output
names-build [] s = refl
names-build (with_impulse i k b ∷ cs) s = names-build cs (perform (with_impulse i k b) s)
names-build (with_path i es ∷ cs) s = names-build cs (perform (with_path i es) s)
names-build (with_output i b ∷ cs) s = names-build cs (perform (with_output i b) s)

module _ (encode : Value → Outcome String) (native : String → Outcome Value) where
  -- What a drive comes to, by the path that was set, the impulse and the outputs.
  abbrev pub driven :
      String × String × String → ℤ → Option Fields → Fields → Option Fields → Outcome Fields
  driven ids max_ticks none outputs impulse = raise no_path
  driven ids max_ticks (some p) outputs impulse =
      host_drive encode native ids.0 p impulse (outputs_or_none outputs) ids.1 ids.2 max_ticks

  drive-driven :
      (max_ticks : ℤ) (s : Session)
      → (drive encode native max_ticks s).0 ≡ driven (names s) max_ticks s.path s.outputs s.impulse
  unfolding drive
  drive-driven max_ticks s = along s.path
    where
      along :
          (o : Option Fields)
          → (drive_along encode native max_ticks o s).0
            ≡ driven (names s) max_ticks o s.outputs s.impulse
      along none = refl
      along (some p) = refl

  -- After any sequence of calls of the builder's methods on a fresh session, a drive raises the ValueError
  -- that asks for a path if none of them set a path. Otherwise it is one call of `host_drive` with the
  -- names that the session was opened with, the path and the impulse that were set last, and outputs in
  -- which every effector has the output that was registered for it last, and no other effector has one.
  pub drive-build :
      (commands : List Command) (run_id stream_id title : String) (max_ticks : ℤ)
      → (outputs : Fields) × ((effector_id : String)
          → get effector_id outputs ≡ last_set (sets_output effector_id) commands)
        × ((drive encode native max_ticks (build commands (open_memory run_id stream_id title))).0
            ≡ driven
                (run_id, stream_id, title)
                max_ticks
                (last_set sets_path commands)
                outputs
                (last_set sets_impulse commands))
  unfolding open_memory
  drive-build commands run_id stream_id title max_ticks =
      let s = build commands (open_memory run_id stream_id title) in
      let start = open_memory run_id stream_id title in
      let named = names-build commands start in
      let routed = view-build _ sets_path path-perform commands start ∙ later-none _ in
      let prompted = view-build _ sets_impulse impulse-perform commands start ∙ later-none _ in
      (
        s.outputs,
        (λ k.
            view-build (λ t. get k t.outputs) (sets_output k) (output-perform k) commands start
            ∙ later-none _),
        drive-driven max_ticks s ∙ cc,
      )
