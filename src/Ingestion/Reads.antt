-- ===== src/Ingestion/Reads.antt =====
-- Proofs about a read and what `IngestionWorker.run_once` writes after it.
use agenticops.Prelude.{
  ℕ, String, ◌≡◌, none, some, List, inl, inr, Bool-cases, Option-cases, str_eq, find?,
  find?-update_self, find?-holds, not, ◌||◌,
}
use agenticops.Ingestion.Checkpoint.{IngestionCheckpoint, of_scope, release}
use agenticops.Ingestion.Cursor.{Cursor}
use agenticops.Ingestion.Aggregation.{ElkDocument}
use agenticops.Ingestion.Pages.{
  ReadResult, page_read, read_failed, Fetched, fetched, fetch_failed, ReaderConfig, previous_of,
  validate_order, page_if, checked, mode_or, read_page,
}
use agenticops.Ingestion.Worker.{WorkerDb, failed, finish_read}
use agenticops.Ingestion.Progress.{IsPast, unmoved, commit_page-IsPast}

-- A page that a reader returned was checked.
abbrev pub IsChecked : IngestionCheckpoint → ReadResult → Type 0
IsChecked c (page_read page) = validate_order page.documents c ≡ none
IsChecked c (read_failed name) = Unit

page_if-IsChecked :
    (page_size : ℕ) (documents : List ElkDocument) (c : IngestionCheckpoint)
    → IsChecked c (page_if page_size documents (validate_order documents c))
unfolding page_if
page_if-IsChecked page_size documents c = elim (Option-cases (validate_order documents c)) [
  | inl valid ↦ rw valid valid
  | inr (message, invalid) ↦ rw invalid tt
]

checked-IsChecked :
    (page_size : ℕ) (c : IngestionCheckpoint) (f : Fetched) → IsChecked c (checked page_size c f)
unfolding checked
checked-IsChecked page_size c (fetch_failed name) = tt
checked-IsChecked page_size c (fetched documents) = page_if-IsChecked page_size documents c

module _ (native proxy : IngestionCheckpoint → ℕ → Fetched) (config : ReaderConfig)
    (page_size : ℕ) where
  read_page-IsChecked :
      (c : IngestionCheckpoint) → IsChecked c (read_page native proxy config c page_size)
  unfolding read_page
  read_page-IsChecked c = elim (Bool-cases (not config.enabled || str_eq config.url "")) [
    | inl off ↦ rw off tt
    | inr on ↦ rw on (elim (Bool-cases (str_eq (mode_or config.reader_mode) "native")) [
      | inl is_native ↦ rw is_native (checked-IsChecked page_size c (native c page_size))
      | inr other ↦ rw other (elim (Bool-cases (str_eq (mode_or config.reader_mode) "proxy")) [
        | inl is_proxy ↦ rw is_proxy (checked-IsChecked page_size c (proxy c page_size))
        | inr unknown ↦ rw unknown tt
      ])
    ])
  ]

module _ (normalize_signature : String → String × String) (lease_seconds now scope_id : ℕ)
    (owner : String) where
  -- The scope's checkpoint after a store was changed is at or after a cursor.
  abbrev pub IsKept : Cursor → WorkerDb → Type 0
  IsKept p db =
      (d : IngestionCheckpoint) × (find? (of_scope scope_id) db.checkpoints ≡ some d) × IsPast p d

  failed_kept :
      (name : String) (read c : IngestionCheckpoint) (db : WorkerDb) (p : Cursor)
      → find? (of_scope scope_id) db.checkpoints ≡ some c
      → previous_of c.cursor_timestamp c.cursor_document_id ≡ some p
      → IsKept p
          (finish_read normalize_signature lease_seconds now scope_id owner read
            (read_failed name)
            db).1
  unfolding finish_read failed release of_scope
  failed_kept name read c db p found had =
      let row = failed normalize_signature lease_seconds now scope_id name in
      (
        row c,
        find?-update_self (of_scope scope_id) row db.checkpoints found
            (find?-holds (of_scope scope_id) db.checkpoints found),
        unmoved p c had,
      )

  finished_kept :
      (r : ReadResult) (read c : IngestionCheckpoint) (db : WorkerDb) (p : Cursor)
      → IsChecked read r
      → find? (of_scope scope_id) db.checkpoints ≡ some c
      → previous_of c.cursor_timestamp c.cursor_document_id ≡ some p
      → IsKept p (finish_read normalize_signature lease_seconds now scope_id owner read r db).1
  unfolding finish_read
  finished_kept (read_failed name) read c db p valid found had =
      failed_kept name read c db p found had
  finished_kept (page_read page) read c db p valid found had =
      commit_page-IsPast normalize_signature lease_seconds now scope_id owner page db read c p valid
        found had

  -- If the scope's checkpoint has a cursor when the outcome of a read is written, then it has
  -- one at or after it when that is done, whatever the two readers return, whichever checkpoint
  -- the read was made after, and whether the page is written, skipped or refused or the read
  -- failed.
  pub finish_read-IsKept :
      (native proxy : IngestionCheckpoint → ℕ → Fetched) (config : ReaderConfig) (page_size : ℕ)
      (read c : IngestionCheckpoint) (db : WorkerDb) (p : Cursor)
      → find? (of_scope scope_id) db.checkpoints ≡ some c
      → previous_of c.cursor_timestamp c.cursor_document_id ≡ some p
      → IsKept p
          (finish_read normalize_signature lease_seconds now scope_id owner read
            (read_page native proxy config read page_size)
            db).1
  finish_read-IsKept native proxy config page_size read c db p found had =
      finished_kept (read_page native proxy config read page_size) read c db p
        (read_page-IsChecked native proxy config page_size read) found had
