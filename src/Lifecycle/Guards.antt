-- ===== src/Lifecycle/Guards.antt =====
-- python/fala/journal.py: what is known of a call that is sent.
use fala.Prelude.{
  String, ◌≡◌, refl, ◌∙◌, sym, ap, true, not, Option, none, some, is_some, List, arith, is_in,
}
use mathlib.Core.Path.{subst}
use fala.Python.Outcome.{ok, raise_if, invert}
use fala.Python.Value.{Value, Fields, bool, str, end, get}
use fala.Python.Text.{truthy}
use fala.Python.Json.{Platform}
use fala.Lifecycle.Calls.{
  Call, required, status, encoded, blocker, is_positive, process_statuses, run_statuses,
  terminal_run_statuses, terminal_process_statuses, terminal_blocker_statuses, finalize_updates,
  transition_run, finalize_run, upsert_process, complete_waiting_process, spelled,
}

-- A text under a key, that is not empty.
abbrev pub IsNamed : String → Fields → Type 0
IsNamed k fs = (s : String) × (get k fs ≡ some (str s)) × (truthy s ≡ true)

-- A text under a key, that is one of some texts.
abbrev pub IsOneOf : List String → String → Fields → Type 0
IsOneOf allowed k fs = (s : String) × (get k fs ≡ some (str s)) × (is_in s allowed ≡ true)

module _ ⦃platform : Platform⦄ where
  required_lem : (v : Value) (label s : String) → required v label ≡ ok s → truthy s ≡ true
  unfolding required
  required_lem v label s h = ground (arith, h)

  status_lem :
      (v : Value) (label : String) (allowed : List String) (s : String)
      → status v label allowed ≡ ok s
      → is_in s allowed ≡ true
  unfolding status
  status_lem v label allowed s h = invert (required v label) _ h λ r _ h₁. ground (arith, h₁)

  blocker_lem : (v : Option Value) (s : String) → blocker v ≡ ok s → truthy s ≡ is_some v
  blocker_lem none s h = let e : s ≡ "" = cc h in rw e refl
  blocker_lem (some v) s h = required_lem v "blocker_id" s h

-- What a call of the native `upsert_process` must carry.
abbrev pub IsProcessCall : Value → Call → Type 0
IsProcessCall attempt call =
    IsNamed "run_id" call.request
    × IsNamed "process_id" call.request
    × IsNamed "process_type" call.request
    × IsOneOf process_statuses "status" call.request
    × (get "attempt" call.request ≡ some attempt)
    × (is_positive attempt ≡ true)

-- A run that ends: a terminal status under the operation that changes a run.
abbrev pub IsFinalCall : Call → Type 0
IsFinalCall call =
    (call.operation ≡ "transition_run")
    × IsNamed "run_id" call.request
    × IsOneOf terminal_run_statuses "status" call.request

-- What a call that completes a waiting process must carry; the flag says whether there is a blocker.
abbrev pub IsCompletingCall : Call → Type 0
IsCompletingCall call =
    IsNamed "run_id" call.request
    × IsNamed "process_id" call.request
    × IsOneOf terminal_process_statuses "process_status" call.request
    × IsOneOf terminal_run_statuses "run_status" call.request
    × IsOneOf terminal_blocker_statuses "blocker_status" call.request
    × ((s : String) × (get "blocker_id" call.request ≡ some (str s))
        × (get "has_blocker" call.request ≡ some (bool (truthy s))))

pub sent : (P : Call → Type 0) (a b : Call) → ok a ≡ ok b → P a → P b
sent P a b h p = let e : a ≡ b = cc h in subst P e p

module _ ⦃platform : Platform⦄ where
  -- What `upsert_process` sends names a run, a process and a process type, has a known status, and
  -- counts a positive number of attempts.
  pub upsert_process-IsProcessCall :
      (db now : String) (run_id process_id state : Value)
      (output error metadata inputs : Option Fields) (attempt process_type : Value) (call : Call)
      → upsert_process db now run_id process_id state output error metadata inputs attempt
          process_type
        ≡ ok call
      → IsProcessCall attempt call
  unfolding upsert_process
  upsert_process-IsProcessCall db now run_id process_id state output error metadata inputs attempt
        process_type call h =
      invert (required run_id "run_id") _ h λ rid a h₁.
        invert (required process_id "process_id") _ h₁ λ pid b h₂.
          invert (status state "status" process_statuses) _ h₂ λ s c h₃.
            invert (required process_type "process_type") _ h₃ λ kind d h₄.
              invert (raise_if (not (is_positive attempt)) _) _ h₄ λ _ p h₅.
                invert (encoded end inputs "inputs") _ h₅ λ i _ h₆.
                  invert (encoded end output "output") _ h₆ λ o _ h₇.
                    invert (encoded end error "error") _ h₇ λ e _ h₈.
                      invert (encoded end metadata "metadata") _ h₈ λ m _ h₉.
                        sent (IsProcessCall attempt) _ call h₉ (
                          (rid, refl, required_lem run_id "run_id" rid a),
                          (pid, refl, required_lem process_id "process_id" pid b),
                          (kind, refl, required_lem process_type "process_type" kind d),
                          (s, refl, status_lem state "status" process_statuses s c),
                          refl,
                          ground (arith, p),
                        )

  -- What `complete_waiting_process` sends names a run and a process, has a terminal status for the
  -- process, the run and the blocker, and says that there is a blocker exactly when it names one.
  pub complete_waiting_process-IsCompletingCall :
      (db now : String) (run_id process_id : Value) (blocker_id : Option Value)
      (output : Option Fields) (process_status blocker_status run_status : Value) (call : Call)
      → complete_waiting_process db now run_id process_id blocker_id output process_status
          blocker_status run_status
        ≡ ok call
      → IsCompletingCall call
  unfolding complete_waiting_process
  complete_waiting_process-IsCompletingCall db now run_id process_id blocker_id output
        process_status blocker_status run_status call h =
      invert (required run_id "run_id") _ h λ rid a h₁.
        invert (required process_id "process_id") _ h₁ λ pid b h₂.
          invert (status process_status "process_status" terminal_process_statuses) _ h₂ λ p c h₃.
            invert (status run_status "run_status" terminal_run_statuses) _ h₃ λ r d h₄.
              invert (status blocker_status "blocker_status" terminal_blocker_statuses) _ h₄
                λ s e h₅. invert (blocker blocker_id) _ h₅ λ bid f h₆.
                  invert (encoded _ output "output") _ h₆ λ t _ h₇.
                    sent IsCompletingCall _ call h₇ (
                      (rid, refl, required_lem run_id "run_id" rid a),
                      (pid, refl, required_lem process_id "process_id" pid b),
                      (
                        p,
                        refl,
                        status_lem process_status "process_status" terminal_process_statuses p c,
                      ),
                      (r, refl, status_lem run_status "run_status" terminal_run_statuses r d),
                      (
                        s,
                        refl,
                        status_lem blocker_status "blocker_status" terminal_blocker_statuses s e,
                      ),
                      (bid, refl, rw (blocker_lem blocker_id bid f) refl),
                    )

  pub status_of_strip :
      (v : Value) (label : String) (allowed : List String) (s : String)
      → status v label allowed ≡ ok s
      → s ≡ platform.strip (spelled v)
  unfolding status required
  status_of_strip v label allowed s h = ground (arith, h)

  -- If stripping a text twice strips no more than once, then what `finalize_run` sends is a transition
  -- of a named run into a terminal status.
  pub finalize_run-IsFinalCall :
      (db now : String) (run_id state : Value) (reason : Option String) (call : Call)
      → ((s : String) → platform.strip (platform.strip s) ≡ platform.strip s)
      → finalize_run db now run_id state reason ≡ ok call
      → IsFinalCall call
  unfolding finalize_run transition_run
  finalize_run-IsFinalCall db now run_id state reason call twice h =
      invert (status state "status" terminal_run_statuses) _ h λ s a h₁.
        invert (required run_id "run_id") _ h₁ λ rid b h₂.
          invert (status (str s) "status" run_statuses) _ h₂ λ t c h₃.
            invert (encoded end (finalize_updates reason) "metadata_updates") _ h₃ λ u _ h₄.
              let stripped = status_of_strip state "status" terminal_run_statuses s a in
              let again = status_of_strip (str s) "status" run_statuses t c in
              let same : t ≡ s =
                again ∙ ap platform.strip stripped ∙ twice (spelled state) ∙ sym stripped in
              sent IsFinalCall _ call h₄ (
                refl,
                (rid, refl, required_lem run_id "run_id" rid b),
                (t, refl, rw same (status_lem state "status" terminal_run_statuses s a)),
              )
