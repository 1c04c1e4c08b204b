-- ===== src/Journal/Renames.antt =====
-- python/fala/read.py: which columns a record has after it was read, and that renaming those of a process loses none.
use fala.Prelude.{
  String, ◌≡◌, refl, ◌∙◌, inl, inr, true, false, List, [], ◌∷◌, arith, eq_iff, ◌==◌, is_in, is_some,
  Option-cases,
}
use fala.Python.Outcome.{ok, invert}
use fala.Python.Value.{Value, Fields, end, field, get, has, keys, pop, put}
use fala.Python.Json.{Platform, dumps_fields}
use fala.Journal.Records.{Record, safe_cell, read_columns, rename, rename_process}
use fala.Journal.Spelling.{
  AreSpelled, AreSpelled-field, AreSpelled-pop, AreSpelled-put, IsSpelled-get,
}
use fala.Journal.Errors.{safe_cell-IsSpelled}

get-keys : (k : String) (fs : Fields) → is_some (get k fs) ≡ is_in k (keys fs)
get-keys k end = refl
get-keys k (field j v fs) = ground (arith, get-keys k fs)

pub has-keys : (k : String) (fs : Fields) → has k fs ≡ is_in k (keys fs)
has-keys k end = refl
has-keys k (field j v fs) = ground (arith, has-keys k fs)

get-pop : (k old : String) (fs : Fields) → (k == old) ≡ false → get k (pop old fs) ≡ get k fs
get-pop k old end h = refl
get-pop k old (field j v fs) h =
    ground (arith, eq_iff k j, eq_iff old j, eq_iff k old, h, get-pop k old fs h)

get-put :
    (k new : String) (v : Value) (fs : Fields)
    → is_some (get k fs) ≡ true
    → is_some (get k (put new v fs)) ≡ true
get-put k new v end h = absurd (cc h)
get-put k new v (field j w fs) h = ground (arith, eq_iff k j, eq_iff new j, h, get-put k new v fs)

module _ ⦃platform : Platform⦄ where
  -- A record has the columns that were asked for, and what it holds can be spelled.
  pub read_columns-keys :
      (columns : List String) (row : Record) (fs : Fields)
      → read_columns columns row ≡ ok fs
      → (keys fs ≡ columns) × AreSpelled fs
  unfolding read_columns dumps_fields
  read_columns-keys [] row fs h = let e : fs ≡ end = cc h in rw e (refl, refl)
  read_columns-keys (name ∷ names) row fs h = invert (safe_cell name (row name)) _ h λ v p h₁.
      invert (read_columns names row) _ h₁ λ gs q h₂.
        let (named, spelled) = read_columns-keys names row gs q in
        let e : fs ≡ field name v gs = cc h₂ in
        rw e (
          rw named refl,
          AreSpelled-field name v gs (safe_cell-IsSpelled name (row name) v p) spelled,
        )

  rename-ok :
      (old new : String) (fs : Fields)
      → is_some (get old fs) ≡ true
      → AreSpelled fs
      → (gs : Fields) × (rename old new fs ≡ ok gs)
        × AreSpelled gs
        × ((k : String)
            → (k == old) ≡ false
            → is_some (get k fs) ≡ true
            → is_some (get k gs) ≡ true)
  rename-ok old new fs h g = elim (Option-cases (get old fs)) [
    | inl e ↦ absurd (cc (rw e at h))
    | inr (v, e) ↦ (
      put new v (pop old fs),
      rw e refl,
      AreSpelled-put new v (pop old fs) (IsSpelled-get old fs v e g) (AreSpelled-pop old fs g),
      (λ k d s. get-put k new v (pop old fs) (rw (get-pop k old fs d) s)),
    )
  ]

  -- The four JSON columns of a process are there to be renamed.
  pub rename_process-ok :
      (fs : Fields)
      → is_in "input_json" (keys fs) ≡ true
      → is_in "output_json" (keys fs) ≡ true
      → is_in "error_json" (keys fs) ≡ true
      → is_in "output_schema_json" (keys fs) ≡ true
      → AreSpelled fs
      → (gs : Fields) × (rename_process fs ≡ ok gs) × AreSpelled gs
  rename_process-ok fs i o e s g =
      let (fs₁, p₁, g₁, keep₁) =
        rename-ok "input_json" "input" fs (get-keys "input_json" fs ∙ i) g in
      let (fs₂, p₂, g₂, keep₂) =
        rename-ok "output_json" "output" fs₁
          (keep₁ "output_json" refl (get-keys "output_json" fs ∙ o)) g₁ in
      let (fs₃, p₃, g₃, keep₃) =
        rename-ok "error_json" "error" fs₂
          (keep₂ "error_json" refl (keep₁ "error_json" refl (get-keys "error_json" fs ∙ e))) g₂ in
      let (fs₄, p₄, g₄, keep₄) =
        rename-ok "output_schema_json" "output_schema" fs₃
          (keep₃ "output_schema_json" refl (
            keep₂ "output_schema_json" refl
              (keep₁ "output_schema_json" refl (get-keys "output_schema_json" fs ∙ s))))
          g₃ in
      (fs₄, rw (p₁, p₂, p₃) p₄, g₄)
