-- ===== src/Ingestion/Replay.antt =====
-- Proofs about ingesting documents a second time.
use agenticops.Prelude.{ℕ, String, ◌≡◌, true, find?, is_some}
use agenticops.Ingestion.Aggregation.{ElkDocument, LogDb, is_document}

module _ (normalize_signature : String → String × String) (scope_id : ℕ) where
  -- The document is in the table.
  abbrev pub IsKnown : LogDb → ElkDocument → Type 0
  IsKnown db d = is_some (find? (is_document scope_id d.document_id) db.events) ≡ true
