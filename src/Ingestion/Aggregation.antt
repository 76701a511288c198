-- ===== src/Ingestion/Aggregation.antt =====
-- `LogAggregationService.ingest_documents`: documents that are new to the scope are counted in the
-- bucket of their window, device and signature. The signature, a hash of the redacted text after
-- `re.sub`, is a parameter.
use agenticops.Prelude.{
  ℕ, ◌+◌, ◌-◌, ◌%◌, String, Bool, not, ◌&&◌, Option, none, some, List, [], ◌∷◌, ◌++◌, ltb, leb,
  ◌==◌, find?, update_first, length, is_some, str_eq, str_mem, str, lower, format, if◌then◌else◌,
}
use agenticops.Prelude.Json.{Fields}

pub record ElkDocument : Type 0 where
  pub document_id : String
  pub timestamp : ℕ
  pub message : String
  pub device_key : String
  pub severity : String
  pub metadata : Fields

pub data Decision : Type 0 where
  suppress emit : Decision

pub record LogAggregationBucket : Type 0 where
  pub id : ℕ
  pub scope_id : ℕ
  pub window_start : ℕ
  pub window_end : ℕ
  pub device_key : String
  pub signature : String
  pub severity : String
  pub event_count : ℕ
  pub sample_document_ids : List String
  pub decision : Decision
  pub decision_reason : String
  pub emitted_at : Option ℕ

pub record IngestedLogEvent : Type 0 where
  pub scope_id : ℕ
  pub external_document_id : String
  pub occurred_at : ℕ
  pub device_key : String
  pub severity : String
  pub signature : String
  pub normalized_message : String
  pub source_metadata : Fields
  pub decision : Decision
  pub aggregation_bucket_id : ℕ

pub record LogDb : Type 0 where
  pub buckets : List LogAggregationBucket
  pub events : List IngestedLogEvent
  pub next_bucket_id : ℕ

-- `window_start`: hours are multiples of the five minutes.
unfoldable pub window_start : ℕ → ℕ
window_start value = value - value % 300

unfoldable pub emission_threshold : String → ℕ
unfolding lower
emission_threshold severity =
    let value = lower severity in
    if str_mem value ("emergency" ∷ "emergencies" ∷ "alert" ∷ "critical" ∷ "error" ∷ "high" ∷ [])
    then 1
    else if str_mem value ("warning" ∷ "warn" ∷ "medium" ∷ [])
    then 3
    else 10

unfoldable pub is_document : ℕ → String → IngestedLogEvent → Bool
is_document scope_id document_id e =
    (e.scope_id == scope_id) && str_eq e.external_document_id document_id

unfoldable pub is_bucket : ℕ → ℕ → String → String → LogAggregationBucket → Bool
is_bucket scope_id start device_key signature b =
    (b.scope_id == scope_id)
    && ((b.window_start == start)
        && (str_eq b.device_key device_key && str_eq b.signature signature))

unfoldable pub new_bucket : ℕ → ℕ → ElkDocument → String → LogAggregationBucket
new_bucket id scope_id document signature = record {
  id = id;
  scope_id = scope_id;
  window_start = window_start document.timestamp;
  window_end = window_start document.timestamp + 300;
  device_key = document.device_key;
  signature = signature;
  severity = document.severity;
  event_count = 0;
  sample_document_ids = [];
  decision = suppress;
  decision_reason = "below emission threshold";
  emitted_at = none;
}

-- The samples with one more, of twenty at most.
unfoldable pub sampled : String → List String → List String
sampled document_id samples =
    if ltb (length samples) 20 then samples ++ document_id ∷ [] else samples

-- The changes to the bucket of a document.
unfoldable pub counted : String → LogAggregationBucket → LogAggregationBucket
unfolding sampled
counted document_id b =
    let samples = sampled document_id b.sample_document_ids in
    let threshold = emission_threshold b.severity in
    if leb threshold (b.event_count + 1)
    then record b {
      event_count = b.event_count + 1;
      sample_document_ids = samples;
      decision = emit;
      decision_reason = format ("count reached threshold " ∷ str threshold ∷ []);
    }
    else record b { event_count = b.event_count + 1; sample_document_ids = samples }

-- `sorted(set(...))`
unfoldable pub insert_sorted : ℕ → List ℕ → List ℕ
insert_sorted n [] = n ∷ []
insert_sorted n (k ∷ ks) =
    let rest = insert_sorted n ks in
    if n == k then k ∷ ks else if ltb n k then n ∷ k ∷ ks else k ∷ rest

-- The results: how many were inserted, the buckets touched, and those to emit.
pub record Ingested : Type 0 where
  pub inserted : ℕ
  pub touched_bucket_ids : List ℕ
  pub emit_bucket_ids : List ℕ

unfoldable pub noted : LogAggregationBucket → Ingested → Ingested
unfolding insert_sorted
noted b r = record {
  inserted = r.inserted + 1;
  touched_bucket_ids = insert_sorted b.id r.touched_bucket_ids;
  emit_bucket_ids =
      if leb (emission_threshold b.severity) b.event_count && not (is_some b.emitted_at)
      then insert_sorted b.id r.emit_bucket_ids
      else r.emit_bucket_ids;
}

module _ (normalize_signature : String → String × String) (scope_id : ℕ) where
  unfoldable pub bucket_test : ElkDocument → LogAggregationBucket → Bool
  unfolding is_bucket
  bucket_test d =
      is_bucket scope_id (window_start d.timestamp) d.device_key (normalize_signature d.message).0

  -- The look-up of the bucket, which adds it where there is none.
  unfoldable pub bucket_or_new :
      ElkDocument → Option LogAggregationBucket → LogDb → LogAggregationBucket × LogDb
  unfolding new_bucket
  bucket_or_new d (some b) db = (b, db)
  bucket_or_new d none db =
      let b = new_bucket db.next_bucket_id scope_id d (normalize_signature d.message).0 in
      (b, record db { buckets = db.buckets ++ b ∷ []; next_bucket_id = db.next_bucket_id + 1 })

  unfoldable pub new_event : ElkDocument → LogAggregationBucket → IngestedLogEvent
  new_event d b = record {
    scope_id = scope_id;
    external_document_id = d.document_id;
    occurred_at = d.timestamp;
    device_key = d.device_key;
    severity = d.severity;
    signature = (normalize_signature d.message).0;
    normalized_message = (normalize_signature d.message).1;
    source_metadata = d.metadata;
    decision = b.decision;
    aggregation_bucket_id = b.id;
  }

  -- The body of the loop for a document that is new, in the bucket that was found or added.
  unfoldable pub count_in : ElkDocument → LogAggregationBucket × LogDb → Ingested → Ingested × LogDb
  unfolding counted noted new_event bucket_test
  count_in d (b, db) r =
      let b' = counted d.document_id b in
      (
        noted b' r,
        record db {
          buckets = update_first (bucket_test d) (λ _. b') db.buckets;
          events = db.events ++ new_event d b' ∷ [];
        },
      )

  unfoldable pub ingest_document : ElkDocument → Ingested × LogDb → Ingested × LogDb
  unfolding count_in bucket_or_new is_document
  ingest_document d (r, db) =
      if is_some (find? (is_document scope_id d.document_id) db.events)
      then (r, db)
      else count_in d (bucket_or_new d (find? (bucket_test d) db.buckets) db) r

  unfoldable pub ingest_all : List ElkDocument → Ingested × LogDb → Ingested × LogDb
  unfolding ingest_document
  ingest_all [] s = s
  ingest_all (d ∷ ds) s = ingest_all ds (ingest_document d s)

  unfoldable pub ingest_documents : List ElkDocument → LogDb → Ingested × LogDb
  unfolding ingest_all
  ingest_documents documents db =
      ingest_all documents
        (record { inserted = 0; touched_bucket_ids = []; emit_bucket_ids = [] }, db)
