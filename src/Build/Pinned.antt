-- ===== src/Build/Pinned.antt =====
-- python/fala/_build.py: pinned sources are at their revision, or they are gone.
use fala.Prelude.{
  String, ◌≡◌, refl, ◌∙◌, ap, inl, inr, ◌⊎◌, arith, true, false, Option, none, some, Bool-cases,
}
use fala.Prelude.Int.{ℤ}
use mathlib.Core.Path.{subst, sym}
use fala.Python.Outcome.{Outcome, Error, ok, raise, builtin, runtime_error, process_error}
use fala.Python.Effect.{lift}
use fala.Python.Keeps.{chain-ok, chain-raise, handle-ok, handle-raise}
use fala.Python.Json.{Platform}
use fala.Build.Libraries.{needed}
use fala.Build.Sources.{
  Tools, Sources, succeeded, checked_run, fetch_message, head_is, source_is_pinned, fetch,
  git_missing, fetch_or_remove, give_up, clone_pinned_source, ensure_pinned,
  ensure_sqlite_fire_sources, sqlite_fire_revision, sqlite_fire_url,
}

-- How a run of a tool under `check=True` ends.
pub checked_run-cases :
    {S : Type 0} (tool : S → S × ℤ) (s : S)
    → ((succeeded (tool s).1 ≡ true) × (checked_run tool s ≡ (ok tt, (tool s).0)))
      ⊎ (checked_run tool s ≡ (raise (builtin process_error ""), (tool s).0))
unfolding checked_run
checked_run-cases tool s = elim (Bool-cases (succeeded (tool s).1)) [
  | inl e ↦ inl (e, rw e refl)
  | inr e ↦ inr (rw e refl)
]

needed-cases :
    {A : Type 0} (o : Option A) (message : String)
    → (needed o message ≡ raise (builtin runtime_error message))
      ⊎ ((a : A) × (o ≡ some a) × (needed o message ≡ ok a))
needed-cases none message = inl refl
needed-cases (some a) message = inr (a, refl, refl)

module _ ⦃platform : Platform⦄ (tools : Tools) where
  open tools use {Tree, git, has_git, clone, checkout, rev_parse, check_reverse, apply_patch}

  -- What git promises of a checkout that succeeds: there is a tree, with its git directory, whose head is
  -- the revision.
  abbrev pub ChecksOut : Type 0
  ChecksOut =
      (revision : String) (s : Sources tools)
      → succeeded (checkout revision s).1 ≡ true
      → (tree : Tree) × ((checkout revision s).0 ≡ some tree)
        × (has_git tree ≡ true)
        × (head_is revision (rev_parse tree) ≡ true)

  -- Sources that were pinned stay; others are pinned now, or the call raised and they are gone.
  abbrev pub IsFetched :
      (revision : String) → Sources tools → Outcome (Unit {0}) × Sources tools → Type 0
  IsFetched revision s x =
      ((source_is_pinned tools revision s ≡ true) × (x ≡ (ok tt, s)))
      ⊎ (((source_is_pinned tools revision s ≡ false)
            × (x.0 ≡ ok tt)
            × (source_is_pinned tools revision x.1 ≡ true))
          ⊎ ((source_is_pinned tools revision s ≡ false)
              × (x.1 ≡ none)
              × ((message : String) × (x.0 ≡ raise (builtin runtime_error message)))))

  module _ (promise : ChecksOut) where
    fetch-cases :
        (url revision : String)
        → ((s : Sources tools) × (fetch tools url revision none ≡ (ok tt, s))
            × ((tree : Tree) × (s ≡ some tree)
                × (has_git tree ≡ true)
                × (head_is revision (rev_parse tree) ≡ true)))
          ⊎ ((e : Error) × (s : Sources tools) × (fetch tools url revision none ≡ (raise e, s)))
    unfolding fetch
    fetch-cases url revision =
        let first = checked_run (clone url) in
        let next = λ (u : Unit {0}). checked_run (checkout revision) in
        elim (checked_run-cases (clone url) none) [
          | inr failed ↦ inr (_, _, chain-raise first next none _ _ failed)
          | inl (_, cloned) ↦ elim (checked_run-cases (checkout revision) (clone url none).0) [
            | inr failed ↦ inr (_, _, chain-ok first next none tt _ cloned ∙ failed)
            | inl (done, chosen) ↦
                inl (_, chain-ok first next none tt _ cloned ∙ chosen, promise revision _ done)
          ]
        ]

    IsCloned : String → Outcome (Unit {0}) × Sources tools → Type 0
    IsCloned revision x =
        ((x.0 ≡ ok tt) × (source_is_pinned tools revision x.1 ≡ true))
        ⊎ ((x.1 ≡ none) × ((message : String) × (x.0 ≡ raise (builtin runtime_error message))))

    clone_pinned-IsCloned :
        (url revision : String) → IsCloned revision (clone_pinned_source tools url revision none)
    unfolding clone_pinned_source source_is_pinned IsCloned
    clone_pinned-IsCloned url revision =
        let message = git_missing tools url revision in
        let next = λ (path : String). fetch_or_remove tools url revision in
        elim (needed-cases git message) [
          | inl absent ↦
              subst (IsCloned revision)
                (sym (
                  chain-raise (lift (needed git message)) next none _ none
                    (ap (λ r. (r, none)) absent)))
                (inr (refl, (message, refl)))
          | inr (path, found, there) ↦
              subst (IsCloned revision)
                (sym (
                  chain-ok (lift (needed git message)) next none path none
                    (ap (λ r. (r, none)) there)))
                (fetched path found)
        ]
      where
        fetched :
            (path : String)
            → git ≡ some path
            → IsCloned revision (fetch_or_remove tools url revision none)
        fetched path found = elim (fetch-cases url revision) [
          | inl (s, e, (tree, there, kept, at)) ↦
              subst (IsCloned revision)
                (sym
                  (handle-ok (fetch tools url revision) (give_up tools url revision) none s tt e))
                (inl (refl, ground (arith, there, kept, at, found)))
          | inr (error, s, e) ↦
              subst (IsCloned revision)
                (sym (
                  handle-raise (fetch tools url revision) (give_up tools url revision) none s error
                    e))
                (inr (refl, (fetch_message url revision, refl)))
        ]

    pub ensure_pinned-IsFetched :
        (url revision : String) (s : Sources tools)
        → IsFetched revision s (ensure_pinned tools url revision s)
    unfolding ensure_pinned IsCloned
    ensure_pinned-IsFetched url revision s = elim (Bool-cases (source_is_pinned tools revision s)) [
      | inl e ↦ inl (e, rw e refl)
      | inr e ↦ elim (clone_pinned-IsCloned url revision) [
        | inl (returned, pinned) ↦ rw e (inr (inl (refl, returned, pinned)))
        | inr (gone, raised) ↦ rw e (inr (inr (refl, gone, raised)))
      ]
    ]

    -- If a checkout by git that succeeds has the revision at its head: sqlite.fire's sources that are at
    -- the pinned revision stay as they are; otherwise the call returns with sources at that revision, or
    -- raises RuntimeError with no sources left.
    pub ensure_sqlite_fire_sources-IsFetched :
        (s : Sources tools) → IsFetched sqlite_fire_revision s (ensure_sqlite_fire_sources tools s)
    unfolding ensure_sqlite_fire_sources
    ensure_sqlite_fire_sources-IsFetched s =
        ensure_pinned-IsFetched sqlite_fire_url sqlite_fire_revision s

  source_is_pinned-without_git :
      (revision : String) (s : Sources tools)
      → git ≡ none
      → source_is_pinned tools revision s ≡ false
  unfolding source_is_pinned
  source_is_pinned-without_git revision none h = refl
  source_is_pinned-without_git revision (some tree) h = ground (arith, h)

  -- Without git the call raises RuntimeError and leaves no sources, even where they were at the pinned
  -- revision.
  pub ensure_sqlite_fire_sources-without_git :
      (s : Sources tools)
      → git ≡ none
      → ensure_sqlite_fire_sources tools s ≡ (
        raise (builtin runtime_error (git_missing tools sqlite_fire_url sqlite_fire_revision)),
        none,
      )
  unfolding ensure_sqlite_fire_sources
  ensure_sqlite_fire_sources-without_git s h =
      let message = git_missing tools sqlite_fire_url sqlite_fire_revision in
      let missing : needed git message ≡ raise (builtin runtime_error message) = rw h refl in
      rw (source_is_pinned-without_git sqlite_fire_revision s h) (
        chain-raise (lift (needed git message))
          (λ path. fetch_or_remove tools sqlite_fire_url sqlite_fire_revision) none _ none
          (ap (λ r. (r, none)) missing))
