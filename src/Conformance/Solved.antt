-- ===== src/Conformance/Solved.antt =====
-- python/fala/conformance.py: the recursion of `check_payload` ends. What the source says of itself, that
-- a checker is its own body with itself for the calls, is solved by one function only.
use fala.Prelude.{ℕ, zero, suc, ◌≤◌, String, ◌≡◌, sym, ◌∙◌, arith}
use fala.Python.Outcome.{raise, out_of_fuel}
use fala.Python.Value.{Value}
use fala.Python.Json.{Platform}
use fala.Conformance.Keywords.{Checker}
use mathlib.Core.Path.{subst}
use fala.Conformance.Payload.{check_node, size, check, check_payload}
use fala.Conformance.Termination.{size_pos, check_node-cong, check_payload-eq}
use fala.Conformance.Reports.{Reports}
use fala.Conformance.Pointers.{check_payload-Reports}

module _ ⦃platform : Platform⦄ where
  -- A checker that satisfies the recursion of the source.
  abbrev pub IsSolution : Checker → Type 0
  IsSolution q =
      (payload schema : Value) (path : String)
      → q payload schema path ≡ check_node q payload schema path

  -- Fuel that is not less than the size of the schema gives what every solution gives.
  check-solved :
      (q : Checker) (n : ℕ)
      → IsSolution q
      → (v s : Value) (path : String) → size s ≤ n
      → check n v s path ≡ q v s path
  unfolding check
  check-solved q zero solves v s path h = absurd (omega (arith, size_pos s))
  check-solved q (suc n) solves v s path h =
      check_node-cong (check n) q v s path (λ w t r l. check-solved q n solves w t r (omega arith))
      ∙ sym (solves v s path)

  has_fuel : (v s : Value) (path : String) → ¬ (check_payload v s path ≡ raise out_of_fuel)
  has_fuel v s path h = subst (Reports path) h (check_payload-Reports v s path)

  -- The recursion of `check_payload` ends on every schema: a checker that satisfies the equation of the source
  -- gives, for every payload, schema and path, exactly what `check_payload` gives, and what any amount of
  -- fuel gives that is not less than the size of the schema. `check_payload` satisfies the equation itself,
  -- and never runs out of fuel.
  pub check_payload-solves :
      (q : Checker) (n : ℕ)
      → IsSolution q
      → (v s : Value) (path : String) → size s ≤ n
      → (q v s path ≡ check_payload v s path)
        × (check n v s path ≡ check_payload v s path)
        × (check_payload v s path ≡ check_node check_payload v s path)
        × (¬ (check_payload v s path ≡ raise out_of_fuel))
  check_payload-solves q n solves v s path h =
      let alike = check-solved q (size s) solves v s path (omega arith) in
      (
        sym (unfold check_payload in alike),
        check-solved q n solves v s path h ∙ sym (unfold check_payload in alike),
        check_payload-eq v s path,
        has_fuel v s path,
      )
