-- ===== src/Build/Unmoved.antt =====
-- python/fala/_build.py: what `_source_hash` does not depend on.
use mathlib.Core.Path.{ap₂}
use mathlib.Core.List.{Permᴰ}
use text.Mathlib.TextEquality.{eq_iff}
use fala.Prelude.{
  String, ◌<>◌, ◌==◌, true, false, List, [], ◌∷◌, ◌≡◌, refl, ap, sym, ◌∙◌, ◌⊎◌, inl, inr,
  Bool-cases, Each,
}
use fala.Python.Json.{Platform}
use fala.Python.Text.{str_lt, first_chars}
use fala.Python.Order.{str_lt_trans, str_lt-cases, str_lt-different}
use fala.Build.Digest.{
  FilePath, Checkout, is_source_hash_path, kept, path_lt, insert_path, sort_paths, name_in,
  relative_to, fed, listed, source_hash,
}

module _ (p q : String) (ps qs : FilePath) where
  lt_by_head : str_lt p q ≡ true → path_lt (p ∷ ps) (q ∷ qs) ≡ true
  lt_by_head h = rw (str_lt-different p q h) h

  lt_by_tail : p ≡ q → path_lt (p ∷ ps) (q ∷ qs) ≡ path_lt ps qs
  lt_by_tail e = rw ((eq_iff p q).1 e) refl

  parts :
      path_lt (p ∷ ps) (q ∷ qs) ≡ true → (str_lt p q ≡ true) ⊎ ((p ≡ q) × (path_lt ps qs ≡ true))
  parts h = elim (Bool-cases (p == q)) [
    | inl e ↦ inr ((eq_iff p q).0 e, sym (lt_by_tail ((eq_iff p q).0 e)) ∙ h)
    | inr e ↦ inl (by_head e h)
  ]
    where
      by_head : (p == q) ≡ false → path_lt (p ∷ ps) (q ∷ qs) ≡ true → str_lt p q ≡ true
      by_head e h = sym (rw e refl) ∙ h

not_lt_by_head :
    (p q : String) (ps qs : FilePath)
    → str_lt p q ≡ true
    → str_lt q p ≡ false
    → path_lt (q ∷ qs) (p ∷ ps) ≡ false
not_lt_by_head p q ps qs h g = elim (Bool-cases (q == p)) [
  | inl e ↦ absurd (cc (str_lt-different p q h, (eq_iff p q).1 (sym ((eq_iff q p).0 e))))
  | inr e ↦ rw e g
]

path_lt-cases :
    (p q : FilePath)
    → ((path_lt p q ≡ true) × (path_lt q p ≡ false))
      ⊎ (((path_lt p q ≡ false) × (path_lt q p ≡ true)) ⊎ (p ≡ q))
path_lt-cases [] [] = inr (inr refl)
path_lt-cases [] (q ∷ qs) = inl (refl, refl)
path_lt-cases (p ∷ ps) [] = inr (inl (refl, refl))
path_lt-cases (p ∷ ps) (q ∷ qs) = elim (str_lt-cases p q) [
  | inl (l, m) ↦ inl (lt_by_head p q ps qs l, not_lt_by_head p q ps qs l m)
  | inr (inl (l, m)) ↦ inr (inl (not_lt_by_head q p qs ps m l, lt_by_head q p qs ps m))
  | inr (inr e) ↦ elim (path_lt-cases ps qs) [
    | inl (l, m) ↦ inl (lt_by_tail p q ps qs e ∙ l, lt_by_tail q p qs ps (sym e) ∙ m)
    | inr (inl (l, m)) ↦ inr (inl (lt_by_tail p q ps qs e ∙ l, lt_by_tail q p qs ps (sym e) ∙ m))
    | inr (inr es) ↦ inr (inr (ap₂ (λ x xs. x ∷ xs) e es))
  ]
]

path_lt_trans : (p q r : FilePath) → path_lt p q ≡ true → path_lt q r ≡ true → path_lt p r ≡ true
path_lt_trans [] [] r h g = absurd (cc h)
path_lt_trans (p ∷ ps) [] r h g = absurd (cc h)
path_lt_trans [] (q ∷ qs) [] h g = g
path_lt_trans [] (q ∷ qs) (r ∷ rs) h g = refl
path_lt_trans (p ∷ ps) (q ∷ qs) [] h g = g
path_lt_trans (p ∷ ps) (q ∷ qs) (r ∷ rs) h g = elim (parts p q ps qs h) [
  | inl l ↦ elim (parts q r qs rs g) [
    | inl m ↦ lt_by_head p r ps rs (str_lt_trans p q r l m)
    | inr (e, m) ↦ lt_by_head p r ps rs (ap (λ x. str_lt p x) (sym e) ∙ l)
  ]
  | inr (e, l) ↦ elim (parts q r qs rs g) [
    | inl m ↦ lt_by_head p r ps rs (ap (λ x. str_lt x r) e ∙ m)
    | inr (f, m) ↦ lt_by_tail p r ps rs (e ∙ f) ∙ path_lt_trans ps qs rs l m
  ]
]

path_lt-between : (a d b : FilePath) → path_lt d a ≡ false → path_lt d b ≡ true → path_lt a b ≡ true
path_lt-between a d b h g = elim (path_lt-cases a d) [
  | inl (l, _) ↦ path_lt_trans a d b l g
  | inr (inl (_, l)) ↦ absurd (cc (h, l))
  | inr (inr e) ↦ ap (λ x. path_lt x b) e ∙ g
]

insert_path-insert_path :
    (a b : FilePath) (ps : List FilePath)
    → insert_path a (insert_path b ps) ≡ insert_path b (insert_path a ps)
insert_path-insert_path a b [] = elim (path_lt-cases a b) [
  | inl (l, m) ↦ rw (l, m) refl
  | inr (inl (l, m)) ↦ rw (l, m) refl
  | inr (inr e) ↦ ap₂ (λ x y. insert_path x (y ∷ [])) e (sym e)
]
insert_path-insert_path a b (d ∷ ds) = elim (Bool-cases (path_lt d a)) [
  | inl l ↦ elim (Bool-cases (path_lt d b)) [
    | inl m ↦ rw (l, m) (rw l (ap (λ es. d ∷ es) (insert_path-insert_path a b ds)))
    | inr m ↦ simp (l, m, path_lt-between b d a m l)
  ]
  | inr l ↦ elim (Bool-cases (path_lt d b)) [
    | inl m ↦ simp (l, m, path_lt-between a d b l m)
    | inr m ↦ elim (path_lt-cases a b) [
      | inl (n, o) ↦ simp (l, m, n, o)
      | inr (inl (n, o)) ↦ simp (l, m, n, o)
      | inr (inr e) ↦ ap₂ (λ x y. insert_path x (insert_path y (d ∷ ds))) e (sym e)
    ]
  ]
]

sort_paths-Permᴰ : (ps qs : List FilePath) → Permᴰ ps qs → sort_paths ps ≡ sort_paths qs
sort_paths-Permᴰ _ _ Permᴰ.nil = refl
sort_paths-Permᴰ _ _ (Permᴰ.cons e h) = ap₂ insert_path e (sort_paths-Permᴰ _ _ h)
sort_paths-Permᴰ _ _ (Permᴰ.swap {a = a} {b = b} {l = l} e f) =
    insert_path-insert_path a b (sort_paths l)
    ∙ ap₂ (λ x y. insert_path x (insert_path y (sort_paths l))) f e
sort_paths-Permᴰ _ _ (Permᴰ.trans h g) = sort_paths-Permᴰ _ _ h ∙ sort_paths-Permᴰ _ _ g

module _ (P : FilePath → Type 0) where
  Each-insert_path :
      (p : FilePath) (ps : List FilePath) → P p → Each P ps → Each P (insert_path p ps)
  Each-insert_path p [] h k = (h, tt)
  Each-insert_path p (q ∷ qs) h (here, rest) = elim (Bool-cases (path_lt q p)) [
    | inl e ↦ rw e (here, Each-insert_path p qs h rest)
    | inr e ↦ rw e (h, (here, rest))
  ]

  Each-sort_paths : (ps : List FilePath) → Each P ps → Each P (sort_paths ps)
  Each-sort_paths [] h = tt
  Each-sort_paths (p ∷ ps) (h, k) = Each-insert_path p (sort_paths ps) h (Each-sort_paths ps k)

abbrev IsKept : FilePath → Type 0
IsKept p = is_source_hash_path p ≡ true

kept-IsKept : (ps : List FilePath) → Each IsKept (kept ps)
kept-IsKept [] = tt
kept-IsKept (p ∷ ps) = elim (Bool-cases (is_source_hash_path p)) [
  | inl e ↦ rw e (e, kept-IsKept ps)
  | inr e ↦ rw e (kept-IsKept ps)
]

module _ (t u : Checkout) (same_root : t.root ≡ u.root)
    (same_files : (p : FilePath) → is_source_hash_path p ≡ true → t.read p ≡ u.read p) where
  fed-same : (ps : List FilePath) → Each IsKept ps → fed t ps ≡ fed u ps
  fed-same [] h = refl
  fed-same (p ∷ ps) (h, k) =
      ap₂ (λ a b. a <> b) (ap (λ r. name_in p (relative_to r p)) same_root)
        (ap₂ (λ a b. a <> b) (same_files p h) (fed-same ps k))

  -- Two states of the files in which the globs list the same sources, in whatever order, and in which these
  -- have the same content, have the same hash. What is below a directory of an effector does not count.
  pub source_hash_stable :
      ⦃platform : Platform⦄
      → Permᴰ (kept (listed t)) (kept (listed u))
      → source_hash t ≡ source_hash u
  unfolding source_hash
  source_hash_stable ⦃platform⦄ h =
      ap (λ text. first_chars 16 (platform.sha256_hex text))
        (ap (fed t) (sort_paths-Permᴰ _ _ h)
          ∙ fed-same (sort_paths (kept (listed u)))
              (Each-sort_paths IsKept (kept (listed u)) (kept-IsKept (listed u))))
