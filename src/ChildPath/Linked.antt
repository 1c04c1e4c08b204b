-- ===== src/ChildPath/Linked.antt =====
-- python/fala/child_path.py: what a child path that exits with 0 has done.
use fala.Prelude.{String, ◌≡◌, refl, sym, ◌∙◌, ap, false, some, ◌==◌}
use fala.Python.Outcome.{
  Outcome, ok, raise, raise_if, builtin, value_error, type_error, invert, returned_value,
  raise_if-returned,
}
use fala.Python.Effect.{lift, pure}
use fala.Python.Keeps.{chain-returned}
use fala.Python.Value.{Value, Fields, dict}
use fala.Python.Json.{Platform}
use fala.Protocol.Message.{Result, from_request}
use fala.Protocol.Answers.{Answers, from_request-Answers, from_request-carries}
use fala.Sdk.Inputs.{request, input_values}
use fala.Sdk.Effector.{Environment, Written, load_manifest}
use fala.Sdk.Written.{IsAcceptedResult, IsSpokenOf, write_result-accepted, write_result-IsSpokenOf}
use fala.Host.Calls.{Native}
use fala.Host.Package.{Site, Hall, host_run_package}
use fala.ChildPath.Plan.{
  Plan, member, as_text, as_dict, environ_item, parsed, mapped_inputs, identity, child_journal,
  plan_child, child_payload, report,
}
use fala.ChildPath.Driven.{ended, retained, run_child, finish_child, drive_child, main}

ended_zero :
    (o : Outcome (Plan × Written))
    → (ended o).status ≡ 0
    → (plan : Plan) × (w : Written) × (o ≡ ok (plan, w)) × ((ended o).output ≡ some w)
ended_zero (raise e) h = absurd (cc h)
ended_zero (ok (plan, w)) h = written (member "retention" plan.spec) h
  where
    written :
        (r : Outcome Value)
        → (retained plan.child_db w r).status ≡ 0
        → (p : Plan) × (v : Written) × (Path (Outcome (Plan × Written)) (ok (plan, w)) (ok (p, v)))
          × ((retained plan.child_db w r).output ≡ some v)
    written (ok v) k = (plan, w, refl, refl)
    written (raise e) k = absurd (cc k)

module _ ⦃platform : Platform⦄ where
  -- A plan whose child journal is not its parent's.
  plan_child-apart :
      (resolve : String → String) (environ : Environment) (read_text : String → Outcome String)
      (plan : Plan)
      → plan_child resolve environ read_text ≡ ok plan
      → (plan.child_db == plan.parent_db) ≡ false
  unfolding plan_child
  plan_child-apart resolve environ read_text plan h =
      invert (environ_item "FALA_CHILD_PATH_SPEC" environ) _ h λ text _ h.
        invert (parsed (platform.loads text)) _ h λ spec _ h.
          invert (load_manifest environ read_text) _ h λ manifest _ h.
            invert (environ_item "FALA_PARENT_DB" environ) _ h λ parent _ h.
              invert (environ_item "FALA_PARENT_RUN_ID" environ) _ h λ parent_run _ h.
                invert (environ_item "FALA_PARENT_PROCESS_ID" environ) _ h λ parent_process _ h.
                  invert (member "journal_root" spec) _ h λ root_value _ h.
                    invert (as_text root_value) _ h λ root _ h.
                      let child_db =
                        child_journal (resolve root) (identity parent_run parent_process) in
                      invert
                        (raise_if (child_db == resolve parent) (
                          builtin value_error "child_path journal must differ from parent journal"))
                        _ h
                        λ u apart h. invert (member "input_mapping" spec) _ h λ mapping _ h.
                          invert (as_dict (builtin type_error "") (some mapping)) _ h λ sources _ h.
                            invert (mapped_inputs (dict (input_values (request manifest))) sources)
                              _ h
                              λ inputs _ h.
                                invert (member "package_ref" spec) _ h λ package_value _ h.
                                  invert (member "path_id" spec) _ h λ path_id _ h.
                                    invert (as_text package_value) _ h λ package_ref _ h.
                                      let made = returned_value h in
                                      rw
                                        (
                                          ← (ap (λ (p : Plan). p.child_db) made),
                                          ← (ap (λ (p : Plan). p.parent_db) made),
                                        )
                                        (raise_if-returned (child_db == resolve parent) _ u apart)

  report-accepted :
      (plan : Plan) (environ : Environment) (reply : Fields) (w : Written)
      → report plan environ reply ≡ ok w
      → (r : Result) × (payload : Fields) × (child_payload plan reply ≡ ok payload)
        × (from_request plan.manifest (dict payload) "ok" ≡ ok r)
        × IsSpokenOf r w.document
        × IsAcceptedResult w.document
  unfolding report
  report-accepted plan environ reply w h = invert (child_payload plan reply) _ h λ payload p h.
      invert (from_request plan.manifest (dict payload) "ok") _ h λ r q h. (
        r,
        payload,
        p,
        q,
        write_result-IsSpokenOf environ r w h,
        write_result-accepted environ r w h,
      )

  -- A child path that exits with 0 has planned a run whose journal is not its parent's, and the host has run
  -- it and replied. There is a result that answers the parent's request, has the status `ok` and has the
  -- payload that is made of that reply. The document that was written is the wire form of what this result is
  -- read as, once it has been spelled, parsed and validated; and the parent accepts it as a result.
  pub main_zero :
      (site : Site) (native : Native) (read_text : String → Outcome String) (h : Hall)
      → (main site native read_text h).0.status ≡ 0
      → (plan : Plan) × (reply : Fields) × (w : Written) × (r : Result) × (payload : Fields)
        × (plan_child site.resolve h.0.environ read_text ≡ ok plan)
        × ((plan.child_db == plan.parent_db) ≡ false)
        × ((host_run_package site native plan.order h).0 ≡ ok reply)
        × (child_payload plan reply ≡ ok payload)
        × Answers plan.manifest r
        × (r.payload ≡ payload)
        × (r.status ≡ "ok")
        × IsSpokenOf r w.document
        × ((main site native read_text h).0.output ≡ some w)
        × IsAcceptedResult w.document
  unfolding main
  main_zero site native read_text h zero =
      let (plan, w, made, left) = ended_zero (run_child site native read_text h).0 zero in
      let t = (run_child site native read_text h).1 in
      let (p, s, planned, driven) =
        chain-returned (lift (plan_child site.resolve h.0.environ read_text))
          (drive_child site native) h (plan, w) t
          (ap (λ (o : Outcome (Plan × Written)). (o, t)) made) in
      let (reply, u, replied, finished) =
        chain-returned (host_run_package site native p.order) (finish_child p) s (plan, w) t
          driven in
      let (v, x, reported, last) =
        chain-returned (lift (report p u.0.environ reply))
          (λ v. pure {S = Hall} {A = Plan × Written} (p, v)) u (plan, w) t finished in
      let (r, payload, paid, answered, spoken, accepted) =
        report-accepted p u.0.environ reply v (ap (λ (y : Outcome Written × Hall). y.0) reported) in
      let (carried, fine) = from_request-carries p.manifest payload "ok" answered in
      let plan_made = ap (λ (y : Outcome Plan × Hall). y.0) planned in
      let there : h ≡ s = ap (λ (y : Outcome Plan × Hall). y.1) planned in
      let same : v ≡ w =
        ap (λ (y : Plan × Written). y.1)
          (returned_value (ap (λ (y : Outcome (Plan × Written) × Hall). y.0) last)) in
      (
        p,
        reply,
        v,
        r,
        payload,
        plan_made,
        plan_child-apart site.resolve h.0.environ read_text p plan_made,
        ap (λ g. (host_run_package site native p.order g).0) there
            ∙ ap (λ (y : Outcome Fields × Hall). y.0) replied,
        paid,
        from_request-Answers p.manifest (dict payload) "ok" answered,
        carried,
        fine,
        spoken,
        left ∙ ap some (sym same),
        accepted,
      )
