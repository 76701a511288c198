-- ===== src/Ingestion/Progress.antt =====
-- Lemmas on how the cursor of a scope moves in `IngestionWorker.run_once`.
use agenticops.Prelude.{
  ℕ, String, ◌≡◌, refl, true, false, ◌&&◌, Option, none, some, List, [], ◌∷◌, All, inl, inr, ap,
  sym, ◌∙◌, Bool-cases, arith, if◌then◌else◌, str_eq, eq_iff, find?, find?-update_self, find?-holds,
  update_first,
}
use agenticops.Prelude.Exec.{continue, err, lease_unavailable}
use agenticops.Ingestion.Checkpoint.{
  IngestionCheckpoint, of_scope, held_by_other, leased, release, advance,
}
use agenticops.Ingestion.Lease.{refused_while_held, claim_free}
use agenticops.Ingestion.Aggregation.{ElkDocument, ingest_documents}
use agenticops.Ingestion.Cursor.{Cursor, cursor_le, cursor_le_refl, cursor_le_total}
use agenticops.Ingestion.Pages.{ElkPage, cursor_of, previous_of, not_after, validate_order}
use agenticops.Ingestion.PageOrder.{IsAfter, validate_order_iff}
use agenticops.Ingestion.Worker.{
  WorkerDb, same_number, same_text, at_cursor, last_or, moved, ingest_page, commit_claimed,
  commit_page,
}

-- The checkpoint's cursor, both of its columns set, is at or after another.
abbrev pub IsPast : Cursor → IngestionCheckpoint → Type 0
IsPast p c =
    (q : Cursor) × (c.cursor_timestamp ≡ some q.timestamp)
    × (c.cursor_document_id ≡ some q.document_id)
    × (cursor_le p q ≡ true)

same_previous :
    (t u : Option ℕ) (s d : Option String)
    → same_number t u && same_text s d ≡ true
    → previous_of t s ≡ previous_of u d
unfolding same_number same_text previous_of
same_previous none none s d h = refl
same_previous none (some u) s d h = absurd (ground (arith, h))
same_previous (some t) none s d h = absurd (ground (arith, h))
same_previous (some t) (some u) none none h = refl
same_previous (some t) (some u) none (some d) h = absurd (ground (arith, h))
same_previous (some t) (some u) (some s) none h = absurd (ground (arith, h))
same_previous (some t) (some u) (some s) (some d) h = ground (arith, h, eq_iff s d)

own_cursor :
    (t : Option ℕ) (s : Option String) (p : Cursor)
    → previous_of t s ≡ some p
    → (t ≡ some p.timestamp) × (s ≡ some p.document_id)
unfolding previous_of
own_cursor none s p h = absurd (ground arith)
own_cursor (some t) none p h = absurd (ground arith)
own_cursor (some t) (some s) p h = elim (Bool-cases (str_eq s "")) [
  | inl empty ↦ absurd (ground (arith, h, empty))
  | inr full ↦ (ground (arith, h, full), ground (arith, h, full))
]

last-IsAfter :
    (p : Option Cursor) (d : ElkDocument) (ds : List ElkDocument)
    → IsAfter p d
    → All (IsAfter p) ds
    → IsAfter p (last_or d ds)
unfolding last_or
last-IsAfter p d [] h hs = h
last-IsAfter p d (e ∷ es) h hs = last-IsAfter p e es hs.0 hs.1

pub unmoved :
    (p : Cursor) (c : IngestionCheckpoint)
    → previous_of c.cursor_timestamp c.cursor_document_id ≡ some p
    → IsPast p c
unmoved p c h =
    let own = own_cursor c.cursor_timestamp c.cursor_document_id p h in
    (p, own.0, own.1, cursor_le_refl p)

moved-IsPast :
    (now inserted : ℕ) (p : Cursor) (ds : List ElkDocument) (c : IngestionCheckpoint)
    → previous_of c.cursor_timestamp c.cursor_document_id ≡ some p
    → All (IsAfter (some p)) ds
    → IsPast p (release (moved now inserted ds c))
unfolding moved release advance not_after cursor_of
moved-IsPast now inserted p [] c h hs = unmoved p c h
moved-IsPast now inserted p (d ∷ ds) c h hs =
    let last = cursor_of (last_or d ds) in
    (last, refl, refl, cursor_le_total last p (last-IsAfter (some p) d ds hs.0 hs.1))

find_twice :
    (f g : IngestionCheckpoint → IngestionCheckpoint) (n : ℕ) (cs : List IngestionCheckpoint)
    (c : IngestionCheckpoint)
    → find? (of_scope n) cs ≡ some c
    → of_scope n (f c) ≡ true
    → of_scope n (g (f c)) ≡ true
    → find? (of_scope n) (update_first (of_scope n) g (update_first (of_scope n) f cs))
      ≡ some (g (f c))
find_twice f g n cs c h k l =
    find?-update_self (of_scope n) g (update_first (of_scope n) f cs)
      (find?-update_self (of_scope n) f cs h k) l

moved_scope :
    (now inserted n : ℕ) (ds : List ElkDocument) (c : IngestionCheckpoint)
    → of_scope n c ≡ true
    → of_scope n (release (moved now inserted ds c)) ≡ true
unfolding moved release advance of_scope
moved_scope now inserted n [] c h = h
moved_scope now inserted n (d ∷ ds) c h = h

module _ (normalize_signature : String → String × String) (lease_seconds now scope_id : ℕ)
    (owner : String) where
  abbrev after_commit : Option ℕ × Option String → ElkPage → WorkerDb → WorkerDb
  after_commit base page db =
      (commit_page normalize_signature lease_seconds now scope_id owner base page db).1

  abbrev lease : IngestionCheckpoint → IngestionCheckpoint
  lease = leased lease_seconds now owner

  commit_granted :
      (base : Option ℕ × Option String) (page : ElkPage) (db : WorkerDb) (c : IngestionCheckpoint)
      → find? (of_scope scope_id) db.checkpoints ≡ some c
      → held_by_other now owner c ≡ false
      → commit_page normalize_signature lease_seconds now scope_id owner base page db
        ≡ commit_claimed normalize_signature lease_seconds now scope_id base page
            (lease c)
            (record db { checkpoints = update_first (of_scope scope_id) lease db.checkpoints })
  unfolding commit_page
  commit_granted base page db c found free =
      ap
        (λ r.
          continue (commit_claimed normalize_signature lease_seconds now scope_id base page)
            (r.0, record db { checkpoints = r.1 }))
        (claim_free lease_seconds now scope_id owner db.checkpoints c found free)

  refused_commit :
      (base : Option ℕ × Option String) (page : ElkPage) (db : WorkerDb) (c : IngestionCheckpoint)
      → find? (of_scope scope_id) db.checkpoints ≡ some c
      → held_by_other now owner c ≡ true
      → commit_page normalize_signature lease_seconds now scope_id owner base page db
        ≡ (err (lease_unavailable "scope lease is held by another worker"), db)
  unfolding commit_page
  refused_commit base page db c found held =
      ap
        (λ r.
          continue (commit_claimed normalize_signature lease_seconds now scope_id base page)
            (r.0, record db { checkpoints = r.1 }))
        (refused_while_held lease_seconds now scope_id owner db.checkpoints c found held)

  -- What the transaction writes to the scope's checkpoint.
  row_after :
      (base : Option ℕ × Option String) (page : ElkPage) (db : WorkerDb) (c : IngestionCheckpoint)
      → find? (of_scope scope_id) db.checkpoints ≡ some c
      → held_by_other now owner c ≡ false
      → find? (of_scope scope_id) (after_commit base page db).checkpoints
        ≡ some (
            if at_cursor base c
            then release (
                moved now
                  (ingest_documents normalize_signature scope_id page.documents db.logs).0.inserted
                  page.documents
                  (lease c))
            else release (lease c))
  unfolding commit_claimed ingest_page at_cursor leased of_scope
  row_after base page db c found free =
      let e = commit_granted base page db c found free in
      let in_scope = find?-holds (of_scope scope_id) db.checkpoints found in
      let n = (ingest_documents normalize_signature scope_id page.documents db.logs).0.inserted in
      let kept =
        find_twice lease (λ d. release (moved now n page.documents d)) scope_id db.checkpoints c
          found in_scope (moved_scope now n scope_id page.documents (lease c) in_scope) in
      let freed = find_twice lease release scope_id db.checkpoints c found in_scope in_scope in
      ap (λ r. find? (of_scope scope_id) r.1.checkpoints) e
      ∙ (elim (Bool-cases (at_cursor base c)) [
        | inl same ↦ ground (arith, same, kept)
        | inr other ↦ ground (arith, other, freed)
      ])

  pub commit_page-IsPast :
      (page : ElkPage) (db : WorkerDb) (read c : IngestionCheckpoint) (p : Cursor)
      → validate_order page.documents read ≡ none
      → find? (of_scope scope_id) db.checkpoints ≡ some c
      → previous_of c.cursor_timestamp c.cursor_document_id ≡ some p
      → (d : IngestionCheckpoint) × (find?
            (of_scope scope_id)
            (after_commit (read.cursor_timestamp, read.cursor_document_id) page db).checkpoints
          ≡ some d)
        × IsPast p d
  unfolding at_cursor leased release
  commit_page-IsPast page db read c p valid found had =
      let base : Option ℕ × Option String = (read.cursor_timestamp, read.cursor_document_id) in
      elim (Bool-cases (held_by_other now owner c)) [
        | inl held ↦ (
          c,
          ap (λ r. find? (of_scope scope_id) r.1.checkpoints)
                (refused_commit base page db c found held)
              ∙ found,
          unmoved p c had,
        )
        | inr free ↦
            let row = row_after base page db c found free in
            elim (Bool-cases (at_cursor base c)) [
              | inr other ↦ (release (lease c), ground (arith, row, other), unmoved p c had)
              | inl same ↦
                  let n =
                    (ingest_documents normalize_signature scope_id page.documents
                      db.logs).0.inserted in
                  let joined =
                    same_previous c.cursor_timestamp read.cursor_timestamp c.cursor_document_id
                      read.cursor_document_id same in
                  let sorted = (validate_order_iff page.documents read).0 valid in
                  (
                    release (moved now n page.documents (lease c)),
                    ground (arith, row, same),
                    moved-IsPast now n p page.documents (lease c) had
                        (rw (sym joined, had) at sorted.0),
                  )
            ]
      ]
