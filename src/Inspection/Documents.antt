-- ===== src/Inspection/Documents.antt =====
-- python/fala/inspection.py: `_finish` raises nothing, and changes nothing of what an inspection found.
use fala.Prelude.{Each}
use fala.Python.Outcome.{Outcome}
use fala.Python.Value.{Value}
use fala.Python.Json.{Platform}
use fala.Inspection.Leases.{Inspection}
use fala.Inspection.Safe.{IsSafe}

module _ ⦃platform : Platform⦄ where
  AllSafe : Inspection → Type 0
  AllSafe s = Each IsSafe s.uncertainty × Each IsSafe s.errors
