-- ===== src/Tests/IngestionTests.antt =====
-- Two documents of one page, and two workers on one scope.
use agenticops.Prelude.{◌≡◌, ◌≢◌, refl, arith, [], ◌∷◌, All, find?, String, eq_iff}
use agenticops.Prelude.Exec.{ok, err, lease_unavailable}
use agenticops.Prelude.Json.{end}
use agenticops.Ingestion.Checkpoint.{claim, leased, new_checkpoint}
use agenticops.Ingestion.Lease.{claim_excludes}
use agenticops.Ingestion.Aggregation.{ElkDocument, LogDb, ingest_documents}
use agenticops.Ingestion.Buckets.{IsDecided, ingest_documents-IsDecided}

granted_to_a :
    (claim 120 1000 4 "worker-a" []).0 ≡ ok (leased 120 1000 "worker-a" (new_checkpoint 4))
unfolding claim find?
granted_to_a = refl

abbrev worker_a : String
worker_a = "worker-a"

abbrev worker_b : String
worker_b = "worker-b"

other_worker : worker_b ≢ worker_a
other_worker e = ground (arith, (eq_iff worker_b worker_a).1 e)

claim_excludes_example : claim 120 1060 4 "worker-b" (claim 120 1000 4 "worker-a" []).1 ≡ (
  err (lease_unavailable "scope lease is held by another worker"),
  (claim 120 1000 4 "worker-a" []).1,
)
claim_excludes_example =
    claim_excludes 120 1000 1060 4 "worker-a" "worker-b" []
      (leased 120 1000 "worker-a" (new_checkpoint 4)) granted_to_a other_worker (omega arith)

abbrev document : String → ElkDocument
document id = record {
  document_id = id;
  timestamp = 1234;
  message = "link down";
  device_key = "sw-1";
  severity = "warning";
  metadata = end;
}

abbrev log_db : LogDb
log_db = record { buckets = []; events = []; next_bucket_id = 1 }

abbrev signature_of : String → String × String
signature_of message = (message, message)

ingest_documents-IsDecided_example :
    All IsDecided
      (ingest_documents signature_of 4
        (document "d1" ∷ document "d2" ∷ document "d1" ∷ [])
        log_db).1.buckets
ingest_documents-IsDecided_example =
    ingest_documents-IsDecided signature_of 4 (document "d1" ∷ document "d2" ∷ document "d1" ∷ [])
      log_db tt
