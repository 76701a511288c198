-- ===== src/Ingestion/Worker.antt =====
-- `IngestionWorker.run_once`, what it writes after a read: backend/ingestion/worker.py.
-- The checkpoint that an earlier transaction read, and what the reader answered, are arguments.
use agenticops.Prelude.{
  ℕ, ◌-◌, String, Bool, true, false, ◌&&◌, Option, none, some, List, [], ◌∷◌, ◌++◌, ◌==◌, length,
  take_text, update_first, str_eq, if◌then◌else◌,
}
use agenticops.Prelude.Exec.{Exec, pure, modify, zoom, ◌>>=◌, ◌>>◌}
use agenticops.Ingestion.Checkpoint.{IngestionCheckpoint, of_scope, claim, advance, release}
use agenticops.Ingestion.Pages.{ElkPage, ReadResult, page_read, read_failed}
use agenticops.Ingestion.Aggregation.{ElkDocument, Ingested, LogDb, ingest_documents}

-- The rates among the metrics are left out: they are quotients of the counts.
pub record NoiseReductionSnapshot : Type 0 where
  pub scope_id : ℕ
  pub window_start : ℕ
  pub window_end : ℕ
  pub input_count : ℕ
  pub bucket_count : ℕ
  pub emitted_count : ℕ
  pub suppressed_count : ℕ
  pub page_count : ℕ
  pub has_more : Bool

pub record WorkerDb : Type 0 where
  pub checkpoints : List IngestionCheckpoint
  pub logs : LogDb
  pub snapshots : List NoiseReductionSnapshot

abbrev pub on_checkpoints : {A : Type 0} → Exec (List IngestionCheckpoint) A → Exec WorkerDb A
on_checkpoints = zoom (λ db. db.checkpoints) (λ cs db. record db { checkpoints = cs })

-- The cursor as it is stored, both of its columns.
abbrev pub Stored : Type 0
Stored = Option ℕ × Option String

unfoldable pub same_number : Option ℕ → Option ℕ → Bool
same_number none none = true
same_number none (some b) = false
same_number (some a) none = false
same_number (some a) (some b) = a == b

unfoldable pub same_text : Option String → Option String → Bool
same_text none none = true
same_text none (some b) = false
same_text (some a) none = false
same_text (some a) (some b) = str_eq a b

-- `(checkpoint.cursor_timestamp, checkpoint.cursor_document_id) == base_cursor`
unfoldable pub at_cursor : Stored → IngestionCheckpoint → Bool
unfolding same_number same_text
at_cursor base c = same_number c.cursor_timestamp base.0 && same_text c.cursor_document_id base.1

unfoldable pub last_or : ElkDocument → List ElkDocument → ElkDocument
last_or d [] = d
last_or d (e ∷ es) = last_or e es

unfoldable pub moved : ℕ → ℕ → List ElkDocument → IngestionCheckpoint → IngestionCheckpoint
unfolding advance last_or
moved now inserted [] c = record c { last_success_at = some now; last_page_count = 0 }
moved now inserted (d ∷ ds) c =
    let last = last_or d ds in
    advance now last.timestamp last.document_id (length (d ∷ ds)) inserted c

unfoldable pub first_time : ℕ → List ElkDocument → ℕ
first_time now [] = now
first_time now (d ∷ ds) = d.timestamp

unfoldable pub last_time : ℕ → List ElkDocument → ℕ
unfolding last_or
last_time now [] = now
last_time now (d ∷ ds) = (last_or d ds).timestamp

unfoldable pub snapshot : ℕ → ℕ → ElkPage → Ingested → NoiseReductionSnapshot
unfolding first_time last_time
snapshot now scope_id page r = record {
  scope_id = scope_id;
  window_start = first_time now page.documents;
  window_end = last_time now page.documents;
  input_count = r.inserted;
  bucket_count = length r.touched_bucket_ids;
  emitted_count = length r.emit_bucket_ids;
  suppressed_count = r.inserted - length r.emit_bucket_ids;
  page_count = length page.documents;
  has_more = page.has_more;
}

unfoldable pub any_document : List ElkDocument → Bool
any_document [] = false
any_document (d ∷ ds) = true

module _ (normalize_signature : String → String × String) (lease_seconds now scope_id : ℕ) where
  unfoldable pub ingest_page : ElkPage → Exec WorkerDb Bool
  unfolding of_scope moved release snapshot any_document
  ingest_page page db =
      let (r, logs) = ingest_documents normalize_signature scope_id page.documents db.logs in
      (on_checkpoints (
            modify (
              update_first (of_scope scope_id)
                (λ c. release (moved now r.inserted page.documents c))))
          >> (modify (λ db. record db {
            logs = logs;
            snapshots = db.snapshots ++ snapshot now scope_id page r ∷ [];
          })
              >> pure (any_document page.documents)))
        db

  unfoldable pub commit_claimed : Stored → ElkPage → IngestionCheckpoint → Exec WorkerDb Bool
  unfolding at_cursor ingest_page of_scope release
  commit_claimed base page c =
      if at_cursor base c
      then ingest_page page
      else on_checkpoints (modify (update_first (of_scope scope_id) release)) >> pure false

  -- The third transaction, without the `emit_pending` that follows its commit: nothing is written of a page read after another cursor.
  unfoldable pub commit_page : String → Stored → ElkPage → Exec WorkerDb Bool
  unfolding claim commit_claimed
  commit_page owner base page = do
    c ← on_checkpoints (claim lease_seconds now scope_id owner)
    commit_claimed base page c

  unfoldable pub failed : String → IngestionCheckpoint → IngestionCheckpoint
  unfolding release
  failed name c = release (record c { last_error_code = some (take_text 120 name) })

  -- What follows the read of a page after a checkpoint.
  unfoldable pub finish_read : String → IngestionCheckpoint → ReadResult → Exec WorkerDb Bool
  unfolding commit_page failed of_scope
  finish_read owner c (page_read page) =
      commit_page owner (c.cursor_timestamp, c.cursor_document_id) page
  finish_read owner c (read_failed name) =
      on_checkpoints (modify (update_first (of_scope scope_id) (failed name))) >> pure false
