-- ===== src/Build/Found.antt =====
-- python/fala/_build.py: what `repo_root` finds.
use mathlib.Core.List.{Mem}
use mathlib.Core.List.{mem-cons_self, mem-cons_of_mem}
use fala.Prelude.{
  String, true, Option, none, some, List, [], ◌∷◌, ◌≡◌, refl, inl, inr, ◌⊎◌, arith, Bool-cases,
}
use fala.Python.Outcome.{ok}
use fala.Python.Text.{truthy}
use fala.Build.Places.{Terrain, has_sources, first_root, candidates, repo_root, root_from}

module _ (terrain : Terrain) where
  open terrain use {home, resolve, expanded}

  first_root-found :
      (cs : List String) (root : String)
      → first_root terrain cs ≡ ok root
      → (c : String) × Mem c cs × (has_sources terrain c ≡ true) × (root ≡ resolve c)
  first_root-found [] root h = absurd (cc h)
  first_root-found (c ∷ cs) root h = elim (Bool-cases (has_sources terrain c)) [
    | inl e ↦ (c, mem-cons_self, e, ground (arith, e, h))
    | inr e ↦
        let (d, m, sources, found) = first_root-found cs root (ground (arith, e, h)) in
        (d, mem-cons_of_mem c m, sources, found)
  ]

  -- Without FALA_HOME, the root that is returned is one of the four candidates, resolved, and has the sources
  -- of Fala; with it, it is FALA_HOME, expanded, whatever stands there.
  pub repo_root-found :
      (root : String)
      → repo_root terrain ≡ ok root
      → ((text : String) × (home ≡ some text) × (root ≡ expanded text))
        ⊎ ((c : String) × Mem c (candidates terrain)
            × (has_sources terrain c ≡ true)
            × (root ≡ resolve c))
  unfolding repo_root
  repo_root-found root h = from home refl h
    where
      from :
          (o : Option String)
          → home ≡ o
          → root_from terrain o ≡ ok root
          → ((text : String) × (home ≡ some text) × (root ≡ expanded text))
            ⊎ ((c : String) × Mem c (candidates terrain)
                × (has_sources terrain c ≡ true)
                × (root ≡ resolve c))
      from none e h = inr (first_root-found (candidates terrain) root h)
      from (some text) e h = elim (Bool-cases (truthy text)) [
        | inl t ↦ inl (text, e, ground (arith, t, h))
        | inr t ↦ inr (first_root-found (candidates terrain) root (ground (arith, t, h)))
      ]
