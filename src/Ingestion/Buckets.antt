-- ===== src/Ingestion/Buckets.antt =====
-- Proofs about the decision and the samples of buckets.
use agenticops.Prelude.{
  ℕ, ◌≤◌, String, ◌≡◌, ◌↔◌, inl, inr, true, some, List, [], ◌∷◌, arith, length, length-append,
  find?, All, All-append, All-update_found, All-found, eq_refl, find?-append_new, Option-cases,
  Bool-cases, is_some,
}
use agenticops.Ingestion.Aggregation.{
  ElkDocument, emit, LogAggregationBucket, LogDb, Ingested, emission_threshold, new_bucket, sampled,
  counted, bucket_test, bucket_or_new, count_in, ingest_document, ingest_all, ingest_documents,
  is_document, is_bucket,
}

-- A bucket is to be emitted just when its count has reached the threshold of its severity, and it
-- holds at most twenty samples.
pub record IsDecided (b : LogAggregationBucket) : Type 0 where
  pub on_threshold : (b.decision ≡ emit) ↔ (emission_threshold b.severity ≤ b.event_count)
  pub few_samples : length b.sample_document_ids ≤ 20

threshold_pos : (severity : String) → 1 ≤ emission_threshold severity
unfolding emission_threshold
threshold_pos severity = ground arith

sampled_few : (s : String) (xs : List String) → length xs ≤ 20 → length (sampled s xs) ≤ 20
unfolding sampled
sampled_few s xs h = ground (arith, length-append xs (s ∷ []))

counted-IsDecided : (s : String) (b : LogAggregationBucket) → IsDecided b → IsDecided (counted s b)
unfolding counted
counted-IsDecided s b h = record {
  on_threshold = ground (arith, h.on_threshold);
  few_samples = ground (arith, sampled_few s b.sample_document_ids h.few_samples);
}

new-IsDecided :
    (id scope_id : ℕ) (d : ElkDocument) (signature : String)
    → IsDecided (new_bucket id scope_id d signature)
unfolding new_bucket
new-IsDecided id scope_id d signature = record {
  on_threshold = ground (arith, threshold_pos d.severity);
  few_samples = omega arith;
}

module _ (normalize_signature : String → String × String) (scope_id : ℕ) where
  own_bucket :
      (d : ElkDocument) (id : ℕ)
      → bucket_test normalize_signature scope_id d
          (new_bucket id scope_id d (normalize_signature d.message).0)
        ≡ true
  unfolding bucket_test is_bucket new_bucket
  own_bucket d id = ground (arith, eq_refl d.device_key, eq_refl (normalize_signature d.message).0)

  -- The bucket of a document, found or added, with the tables that hold it.
  abbrev pub placed : ElkDocument → LogDb → LogAggregationBucket × LogDb
  placed d db =
      bucket_or_new normalize_signature scope_id d
        (find? (bucket_test normalize_signature scope_id d) db.buckets) db

  placed_row :
      (d : ElkDocument) (db : LogDb)
      → All IsDecided db.buckets
      → (find? (bucket_test normalize_signature scope_id d) (placed d db).1.buckets
          ≡ some (placed d db).0)
        × All IsDecided (placed d db).1.buckets
  unfolding bucket_or_new
  placed_row d db h =
      elim (Option-cases (find? (bucket_test normalize_signature scope_id d) db.buckets)) [
        | inl missing ↦
            let new = new_bucket db.next_bucket_id scope_id d (normalize_signature d.message).0 in
            rw missing (
              find?-append_new (bucket_test normalize_signature scope_id d) db.buckets new missing
                  (own_bucket d db.next_bucket_id),
              All-append IsDecided db.buckets (new ∷ []) h (
                new-IsDecided db.next_bucket_id scope_id d (normalize_signature d.message).0,
                tt,
              ),
            )
        | inr (b, found) ↦ rw found (found, h)
      ]

  count_in-IsDecided :
      (d : ElkDocument) (b : LogAggregationBucket) (db : LogDb) (r : Ingested)
      → find? (bucket_test normalize_signature scope_id d) db.buckets ≡ some b
      → All IsDecided db.buckets
      → All IsDecided (count_in normalize_signature scope_id d (b, db) r).1.buckets
  unfolding count_in
  count_in-IsDecided d b db r found h =
      let test = bucket_test normalize_signature scope_id d in
      All-update_found IsDecided test (λ _. counted d.document_id b) db.buckets b found
        (counted-IsDecided d.document_id b (All-found IsDecided test db.buckets b found h)) h

  document-IsDecided :
      (d : ElkDocument) (s : Ingested × LogDb)
      → All IsDecided s.1.buckets
      → All IsDecided (ingest_document normalize_signature scope_id d s).1.buckets
  unfolding ingest_document
  document-IsDecided d (r, db) h =
      let row = placed_row d db h in
      elim (Bool-cases (is_some (find? (is_document scope_id d.document_id) db.events))) [
        | inl seen ↦ rw seen h
        | inr new ↦ rw new (count_in-IsDecided d (placed d db).0 (placed d db).1 r row.0 row.1)
      ]

  All-IsDecided :
      (ds : List ElkDocument) (s : Ingested × LogDb)
      → All IsDecided s.1.buckets
      → All IsDecided (ingest_all normalize_signature scope_id ds s).1.buckets
  unfolding ingest_all
  All-IsDecided [] s h = h
  All-IsDecided (d ∷ ds) s h =
      All-IsDecided ds (ingest_document normalize_signature scope_id d s) (document-IsDecided d s h)

  -- If each bucket is marked to be emitted exactly when its count has reached the threshold of
  -- its severity, and keeps twenty samples at most, then so it is after any documents were
  -- ingested.
  pub ingest_documents-IsDecided :
      (ds : List ElkDocument) (db : LogDb)
      → All IsDecided db.buckets
      → All IsDecided (ingest_documents normalize_signature scope_id ds db).1.buckets
  unfolding ingest_documents
  ingest_documents-IsDecided ds db h = All-IsDecided ds _ h
