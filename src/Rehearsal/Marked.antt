-- ===== src/Rehearsal/Marked.antt =====
-- python/fala/rehearsal.py: the marker of an incomplete rehearsal, and what a plan stands for.
use fala.Prelude.{
  ◌+◌, String, ◌≡◌, refl, inl, inr, ◌⊎◌, arith, Bool, true, false, not, ◌||◌, Option, List, [], ◌∷◌,
  is_in, ltb,
}
use fala.Prelude.Int.{ℤ, pos_part}
use fala.Python.Number.{Float}
use fala.Python.Outcome.{Error, Outcome, ok, raise, raise_if, invert, raise_if-returned}
use fala.Python.Effect.{Action, lift, modify, pure, ◌>>=◌}
use fala.Python.Keeps.{lift-cases}
use fala.Python.Value.{Fields, str, put}
use fala.Host.Directory.{discard}
use fala.Rehearsal.Policy.{Terms, policy}
use fala.Rehearsal.Snapshot.{
  Notes, footprint, same_place, is_at, is_sound, is_empty, fault, marker, snapshot_name, plan_name,
  write_exclusive, Filing, under, result,
}
use fala.Rehearsal.Checks.{is_short, is_stable, is_unmoved, checked_plan}
use fala.Rehearsal.Run.{write_plan, plan_snapshot, rehearse_in, rehearse_journal_retention}

-- What has been seen when a plan is written: there was room before and after the backup, the snapshot is the
-- file that was made and not the source, it was sound and had no broken foreign key before and after the
-- dry run, and neither it nor the source changed.
abbrev pub IsVerified : Terms → Notes → Type 0
IsVerified terms n =
    (ltb n.free_pre (footprint n.before + pos_part terms.margin) ≡ false)
    × (same_place n.current n.reserved ≡ true)
    × (is_at n.current n.before.main ≡ false)
    × (is_sound n.integrity ≡ true)
    × (is_empty n.foreign_keys ≡ true)
    × (ltb n.free_post (pos_part terms.margin) ≡ false)
    × (is_unmoved n ≡ true)
    × (is_sound n.post_integrity ≡ true)
    × (is_empty n.post_foreign_keys ≡ true)
    × (is_stable n ≡ true)

-- A rehearsal that returns has a plan and no marker, and is verified. One that raises has a marker and no plan, or
-- is verified and has a plan, and then the marker too, unless the synchronisation of the directory failed.
abbrev pub IsMarked : Terms → Notes → Outcome Fields × List String → Type 0
IsMarked terms n x =
    ((reply : Fields) × (x.0 ≡ ok reply)
      × (is_in plan_name x.1 ≡ true)
      × (is_in marker x.1 ≡ false)
      × IsVerified terms n)
    ⊎ ((e : Error) × (x.0 ≡ raise e)
        × (((is_in plan_name x.1 ≡ false) × (is_in marker x.1 ≡ true))
            ⊎ ((is_in plan_name x.1 ≡ true)
                × IsVerified terms n
                × ((is_in marker x.1 ≡ true) ⊎ (n.directory_synced ≡ raise e)))))

denied : (b : Bool) → not b ≡ false → b ≡ true
denied b h = ground arith

denied_both : (a b : Bool) → (not a || not b) ≡ false → (a ≡ true) × (b ≡ true)
denied_both a b h = (ground arith, ground arith)

verified :
    (terms : Terms) (n : Notes) (plan : Fields)
    → is_short terms n ≡ false
    → checked_plan terms n ≡ ok plan
    → IsVerified terms n
unfolding checked_plan
verified terms n plan room h =
    invert
      (raise_if (not (same_place n.current n.reserved)) (fault "snapshot path identity changed")) _
      h
      λ u same h.
        invert (raise_if (is_at n.current n.before.main) (fault "snapshot aliases source")) _ h
          λ u apart h. invert n.normalized _ h λ u _ h.
            invert
              (raise_if (not (is_sound n.integrity)) (fault "snapshot integrity check failed: ")) _
              h
              λ u sound h.
                invert
                  (raise_if (not (is_empty n.foreign_keys))
                    (fault "snapshot foreign-key check failed: "))
                  _ h
                  λ u whole h.
                    invert
                      (raise_if (ltb n.free_post (pos_part terms.margin))
                        (fault "insufficient post-backup space ("))
                      _ h
                      λ u left h. invert n.dry_plan _ h λ dry_plan _ h.
                        invert n.normalized_again _ h λ u _ h.
                          invert
                            (raise_if (not (is_unmoved n))
                              (fault "dry-run mutated the rehearsal snapshot"))
                            _ h
                            λ u unmoved h.
                              invert
                                (raise_if
                                  (not (is_sound n.post_integrity)
                                    || not (is_empty n.post_foreign_keys))
                                  (fault "post-plan snapshot validation failed"))
                                _ h
                                λ u still h.
                                  invert
                                    (raise_if (not (is_stable n))
                                      (fault "source main/WAL/SHM identity changed"))
                                    _ h
                                    λ u stable h.
                                      let (good, linked) =
                                        denied_both _ _ (raise_if-returned _ _ _ still) in
                                      (
                                        room,
                                        denied _ (raise_if-returned _ _ _ same),
                                        raise_if-returned _ _ _ apart,
                                        denied _ (raise_if-returned _ _ _ sound),
                                        denied _ (raise_if-returned _ _ _ whole),
                                        raise_if-returned _ _ _ left,
                                        denied _ (raise_if-returned _ _ _ unmoved),
                                        good,
                                        linked,
                                        denied _ (raise_if-returned _ _ _ stable),
                                      )

-- How a file is filed, and how it goes on from there.
filed-cases :
    {B : Type 0} (P : Outcome B × List String → Type 0) (name : String) (f : Filing)
    (next : Unit {0} → Action (List String) B) (names : List String)
    → ((e : Error) → f.opened ≡ raise e → P (raise e, names))
    → ((e : Error) → P (raise e, name ∷ names))
    → P (next tt (name ∷ names))
    → P ((write_exclusive name f >>= next) names)
filed-cases {B} P name f next names a b c = settled f.opened f.filled a
  where
    settled :
        (opened filled : Outcome (Unit {0}))
        → ((e : Error) → opened ≡ raise e → P (raise e, names))
        → P ((write_exclusive name (record { opened = opened; filled = filled }) >>= next) names)
    settled (raise e) filled h = h e refl
    settled (ok _) (raise e) h = b e
    settled (ok _) (ok _) h = c

-- A rehearsal that stops before there is a plan.
stopped :
    (terms : Terms) (n : Notes) (names : List String) (e : Error)
    → is_in plan_name names ≡ false
    → is_in marker names ≡ true
    → IsMarked terms n (raise e, names)
stopped terms n names e h k = inr (e, refl, inl (h, k))

module _ (encode : Fields → Outcome String) (terms : Terms) (n : Notes) where
  synced-IsMarked :
      (document : Fields)
      → IsVerified terms n
      → IsMarked terms n
          ((lift n.directory_synced >>= λ u. pure document) (plan_name ∷ snapshot_name ∷ []))
  synced-IsMarked document v = settled n.directory_synced refl
    where
      settled :
          (r : Outcome (Unit {0}))
          → n.directory_synced ≡ r
          → IsMarked terms n ((lift r >>= λ u. pure document) (plan_name ∷ snapshot_name ∷ []))
      settled (ok u) h = inl (document, refl, refl, refl, v)
      settled (raise e) h = inr (e, refl, inr (refl, v, inr h))

  write_plan-IsMarked :
      (document : Fields)
      → IsVerified terms n
      → IsMarked terms n (write_plan encode n document (snapshot_name ∷ marker ∷ []))
  write_plan-IsMarked document v =
      let final = put "plan_path" (str (under n.output plan_name)) document in
      let finish : Unit {0} → Action (List String) Fields =
        λ u. modify (discard marker) >>= λ u. lift n.directory_synced >>= λ u. pure final in
      lift-cases (IsMarked terms n) (encode document)
        (λ t. write_exclusive plan_name n.plan_file >>= λ u. lift n.marker_removed >>= finish)
        (snapshot_name ∷ marker ∷ [])
        (λ e. stopped terms n (snapshot_name ∷ marker ∷ []) e refl refl)
        λ encoded spelled.
          filed-cases (IsMarked terms n) plan_name n.plan_file
            (λ u. lift n.marker_removed >>= finish) (snapshot_name ∷ marker ∷ [])
            (λ e h. stopped terms n (snapshot_name ∷ marker ∷ []) e refl refl)
            (λ e. inr (e, refl, inr (refl, v, inl refl)))
            (lift-cases (IsMarked terms n) n.marker_removed finish
              (plan_name ∷ snapshot_name ∷ marker ∷ [])
              (λ e. inr (e, refl, inr (refl, v, inl refl))) (λ u removed. synced-IsMarked final v))

  rehearse_in-IsMarked :
      n.marker_file.opened ≡ ok tt → IsMarked terms n (rehearse_in encode terms n [])
  rehearse_in-IsMarked marked =
      let planned : Fields → Action (List String) Fields =
        λ dry_plan. write_plan encode n (result terms n dry_plan) in
      filed-cases (IsMarked terms n) marker n.marker_file
        (λ u. lift (raise_if (is_short terms n) (fault "insufficient pre-backup space (")) >>= λ u.
          plan_snapshot encode terms n)
        [] (λ e h. absurd (cc (h, marked))) (λ e. stopped terms n (marker ∷ []) e refl refl)
        (lift-cases (IsMarked terms n)
          (raise_if (is_short terms n) (fault "insufficient pre-backup space ("))
          (λ u. plan_snapshot encode terms n) (marker ∷ [])
          (λ e. stopped terms n (marker ∷ []) e refl refl)
          λ u room.
            filed-cases (IsMarked terms n) snapshot_name n.snapshot_file
              (λ u. lift (checked_plan terms n) >>= planned) (marker ∷ [])
              (λ e h. stopped terms n (marker ∷ []) e refl refl)
              (λ e. stopped terms n (snapshot_name ∷ marker ∷ []) e refl refl)
              (lift-cases (IsMarked terms n) (checked_plan terms n) planned
                (snapshot_name ∷ marker ∷ [])
                (λ e. stopped terms n (snapshot_name ∷ marker ∷ []) e refl refl)
                λ plan made.
                  write_plan-IsMarked (result terms n plan)
                    (verified terms n plan (raise_if-returned _ _ u room) made)))

module _ (encode : Fields → Outcome String) where
  -- A rehearsal with a policy that is accepted, a source that is there, and a new output directory in which the
  -- marker can be made ends in one of four ways. It returns, and the directory has a plan and no marker. It
  -- raises, and the directory has the marker and no plan. It raises with both in the directory. Or the
  -- synchronisation of the directory fails, and it raises that exception with a plan there. Whenever there
  -- is a plan, every check held: room before and after the backup, a snapshot that is the file that was made
  -- and not the source, sound and without a broken foreign key before and after the dry run, and neither
  -- it nor the source changed.
  pub rehearse_journal_retention-IsMarked :
      (to_float : ℤ → Option Float) (value : Fields) (n : Notes) (terms : Terms)
      → policy to_float value ≡ ok terms
      → n.source_found ≡ ok tt
      → n.output_made ≡ ok tt
      → n.marker_file.opened ≡ ok tt
      → IsMarked terms n (rehearse_journal_retention encode to_float value n [])
  unfolding rehearse_journal_retention
  rehearse_journal_retention-IsMarked to_float value n terms accepted found made marked =
      simp (accepted, found, made) (rehearse_in-IsMarked encode terms n marked)
