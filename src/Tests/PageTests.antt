-- ===== src/Tests/PageTests.antt =====
-- A page of two documents that a worker writes after the cursor it read.
use agenticops.Prelude.{ℕ, true, String, ◌≡◌, refl, ◌↔◌, some, none, [], ◌∷◌, All, false, find?}
use agenticops.Prelude.Json.{end}
use agenticops.Ingestion.Checkpoint.{IngestionCheckpoint, of_scope}
use agenticops.Ingestion.Cursor.{Cursor}
use agenticops.Ingestion.Aggregation.{ElkDocument}
use agenticops.Ingestion.Pages.{
  ElkPage, Fetched, fetched, ReaderConfig, previous_of, validate_order, read_page,
}
use agenticops.Ingestion.PageOrder.{IsAfter, IsAscending, validate_order_iff}
use agenticops.Ingestion.Worker.{WorkerDb, finish_read}
use agenticops.Ingestion.Reads.{IsKept, finish_read-IsKept}

abbrev document : String → ElkDocument
document id = record {
  document_id = id;
  timestamp = 1300;
  message = "link down";
  device_key = "sw-1";
  severity = "warning";
  metadata = end;
}

abbrev checkpoint : IngestionCheckpoint
checkpoint = record {
  scope_id = 4;
  cursor_timestamp = some 1234;
  cursor_document_id = some "d9";
  lease_owner = some "worker-a";
  lease_expires_at = some 2120;
  total_documents = 7;
  last_page_count = 2;
  last_success_at = some 1900;
  lag_seconds = some 5;
  last_error_code = none;
}

abbrev page : ElkPage
page = record { documents = document "d1" ∷ document "d2" ∷ []; has_more = false }

abbrev worker_db : WorkerDb
worker_db = record {
  checkpoints = checkpoint ∷ [];
  logs = record { buckets = []; events = []; next_bucket_id = 1 };
  snapshots = [];
}

abbrev signature_of : String → String × String
signature_of message = (message, message)

validate_order_iff_example : (validate_order page.documents checkpoint ≡ none) ↔ (
    All (IsAfter (previous_of (some 1234) (some "d9"))) page.documents × IsAscending page.documents)
validate_order_iff_example = validate_order_iff page.documents checkpoint

listed : find? (of_scope 4) worker_db.checkpoints ≡ some checkpoint
unfolding find? of_scope
listed = refl

abbrev cursor : Cursor
cursor = record { timestamp = 1234; document_id = "d9" }

read_after : previous_of (some 1234) (some "d9") ≡ some cursor
unfolding previous_of
read_after = refl

abbrev reader : IngestionCheckpoint → ℕ → Fetched
reader c page_size = fetched page.documents

abbrev config : ReaderConfig
config = record { enabled = true; url = "https://logs.example.net"; reader_mode = none }

finish_read-IsKept_example :
    IsKept signature_of 120 2000 4 "worker-a" cursor
      (finish_read signature_of 120 2000 4 "worker-a" checkpoint
        (read_page reader reader config checkpoint 500)
        worker_db).1
finish_read-IsKept_example =
    finish_read-IsKept signature_of 120 2000 4 "worker-a" reader reader config 500 checkpoint
      checkpoint worker_db cursor listed read_after
