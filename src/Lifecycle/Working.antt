-- ===== src/Lifecycle/Working.antt =====
-- python/fala/journal.py: a call of the native journal, with the libraries that it needs.
use mathlib.Core.Path.{subst}
use fala.Prelude.{String, ◌≡◌, refl, sym, ap, ◌∙◌, inl, inr, Option, none, some, true, is_in}
use fala.Python.Outcome.{Outcome, ok, returned_value}
use fala.Python.Effect.{lift, ◌>>=◌}
use fala.Python.Keeps.{chain-returned}
use fala.Python.Value.{Value, dict}
use fala.Python.Json.{Platform, spaced, dumps}
use fala.Host.Directory.{Process, Place, enter}
use fala.Host.Answers.{settings}
use fala.Build.Libraries.{Site, sqlite_fire_library_name}
use fala.Build.Sources.{Tools}
use fala.Build.SqliteFire.{Workshop, sqlite_fire_path}
use fala.Build.Extension.{Yard}
use fala.Build.Imports.{Session, Loader, Imported}
use fala.Build.Engine.{ensure_engine}
use fala.Build.Engaged.{ensure_engine-opened}
use fala.Lifecycle.Calls.{Call}
use fala.Lifecycle.Native.{native_call}
use fala.Lifecycle.Committed.{native_call-IsServed}
use fala.Lifecycle.Desk.{
  Desk, Operation, engine_of, at_session, at_process, found, native_call_from,
}

module _ ⦃platform : Platform⦄ (ember fire : Tools) (yard : Yard ember fire) (loader : Loader)
    (workshop : Workshop fire) (site : Site) (name : String) (place : Place)
    (getattr : Imported → String → Option Operation) where
  -- What a call that has returned a value leaves: the extension is imported and the library of sqlite.fire
  -- opened, the extension's operation gave this value for the text of the request in the directory of
  -- sqlite.fire, and the settings of the process are back.
  pub record IsWorked (d e : Desk ember fire) (call : Call) (out : Value) : Type 0 where
    pub native : Imported
    pub imported : e.session.imported ≡ some native
    pub opened : is_in (sqlite_fire_path site name) e.session.opened ≡ true
    pub fn : Operation
    pub operation : getattr native call.operation ≡ some fn
    pub payload : String
    pub spelled : dumps spaced (dict call.request) ≡ ok payload
    pub replied : (fn payload (enter place none d.process)).0 ≡ ok out
    pub back : settings e.process ≡ settings d.process

  found-some :
      (o : Option Operation) (key : String) (fn : Operation) → found key o ≡ ok fn → o ≡ some fn
  found-some none key fn h = absurd (cc h)
  found-some (some g) key fn h = ap some (returned_value h)

  served :
      (call : Call) (out : Value) (fn : Operation) (p : Process)
      → (native_call (engine_of place fn) call p).0 ≡ ok out
      → (payload : String) × (dumps spaced (dict call.request) ≡ ok payload)
        × ((fn payload (enter place none p)).0 ≡ ok out)
        × (settings (native_call (engine_of place fn) call p).1 ≡ settings p)
  served call out fn p h =
      let (answer, back) = native_call-IsServed (engine_of place fn) call p refl in
      elim answer [
        | inl (other, payload, r, spelled, gave) ↦ (payload, spelled, gave ∙ sym r ∙ h, back)
        | inr (e, r, _) ↦ absurd (cc (sym r ∙ h))
      ]

  -- On a supported platform, if a call returns a value: the extension is among the imported modules and the
  -- library of sqlite.fire among the opened ones, the operation of the extension by the call's name gave the
  -- value for the text of the request, from the place that the call entered, and the working directory and
  -- the two variables are what they were.
  pub native_call_from-IsWorked :
      (d e : Desk ember fire) (call : Call) (out : Value)
      → sqlite_fire_library_name site.system ≡ ok name
      → native_call_from ember fire yard loader workshop site place getattr call d ≡ (ok out, e)
      → IsWorked d e call out
  unfolding native_call_from
  native_call_from-IsWorked d e call out named h =
      let first = at_session (ensure_engine ember fire yard loader workshop site) in
      let second = λ (native : Imported).
        lift {S = Desk ember fire} (found call.operation (getattr native call.operation)) in
      let third = λ (fn : Operation).
        at_process {ember = ember} {fire = fire} (native_call (engine_of place fn) call) in
      let (native, d₁, e₁, r₁) =
        chain-returned first (λ native. second native >>= third) d out e h in
      let (fn, d₂, e₂, r₂) = chain-returned (second native) third d₁ out e r₁ in
      let from_first = ap (λ (x : Outcome Imported × Desk ember fire). x.1) e₁ in
      let from_second = ap (λ (x : Outcome Operation × Desk ember fire). x.1) e₂ in
      let same : d₂.process ≡ d.process =
        sym (ap (λ (x : Desk ember fire). x.process) from_second)
        ∙ sym (ap (λ (x : Desk ember fire). x.process) from_first) in
      let session : e.session ≡ d₁.session =
        sym (ap (λ (x : Outcome Value × Desk ember fire). x.1.session) r₂)
        ∙ sym (ap (λ (x : Desk ember fire). x.session) from_second) in
      let (imported, opened) =
        ensure_engine-opened ember fire yard loader workshop site name d.session d₁.session native
          named (λ i. ((e₁ i).0, (e₁ i).1.session)) in
      let replied = ap (λ (x : Outcome Value × Desk ember fire). x.0) r₂ in
      let after = ap (λ (x : Outcome Value × Desk ember fire). x.1.process) r₂ in
      let (payload, spelled, gave, back) = served call out fn d₂.process replied in
      record {
        native = native;
        imported = ap (λ (x : Session ember fire). x.imported) session ∙ imported;
        opened =
            ap (λ (x : Session ember fire). is_in (sqlite_fire_path site name) x.opened) session
            ∙ opened;
        fn = fn;
        operation =
            found-some (getattr native call.operation) call.operation fn
              (ap (λ (x : Outcome Operation × Desk ember fire). x.0) e₂);
        payload = payload;
        spelled = spelled;
        replied = subst (λ p. (fn payload (enter place none p)).0 ≡ ok out) same gave;
        back = ap settings (sym after) ∙ back ∙ ap settings same;
      }
