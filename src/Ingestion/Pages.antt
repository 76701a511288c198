-- ===== src/Ingestion/Pages.antt =====
-- `ELKReader.read_page` and its check of the order of a page: backend/ingestion/elk_reader.py.
use agenticops.Prelude.{
  ℕ, String, Bool, false, not, ◌||◌, Option, none, some, List, [], ◌∷◌, ◌==◌, length, str_eq,
  if◌then◌else◌,
}
use agenticops.Ingestion.Checkpoint.{IngestionCheckpoint}
use agenticops.Ingestion.Aggregation.{ElkDocument}
use agenticops.Ingestion.Cursor.{Cursor, cursor_le, cursor_eq}

unfoldable pub cursor_of : ElkDocument → Cursor
cursor_of d = record { timestamp = d.timestamp; document_id = d.document_id }

unfoldable pub previous_of : Option ℕ → Option String → Option Cursor
previous_of none document_id = none
previous_of (some t) none = none
previous_of (some t) (some s) =
    if str_eq s "" then none else some (record { timestamp = t; document_id = s })

-- `cursor in seen`
unfoldable pub cursor_seen : Cursor → List Cursor → Bool
unfolding cursor_eq
cursor_seen c [] = false
cursor_seen c (s ∷ seen) = cursor_eq c s || cursor_seen c seen

-- `previous and cursor <= previous`
unfoldable pub not_after : Option Cursor → Cursor → Bool
unfolding cursor_le
not_after none c = false
not_after (some p) c = cursor_le c p

unfoldable pub validate_from : Option Cursor → List Cursor → List ElkDocument → Option String
unfolding cursor_seen not_after cursor_of
validate_from previous seen [] = none
validate_from previous seen (d ∷ ds) =
    let rest = validate_from (some (cursor_of d)) (cursor_of d ∷ seen) ds in
    if cursor_seen (cursor_of d) seen || not_after previous (cursor_of d)
    then some "ELK page is not strictly sorted by timestamp and document id"
    else rest

-- `_validate_order`, with the error it raises, if any
unfoldable pub validate_order : List ElkDocument → IngestionCheckpoint → Option String
unfolding validate_from previous_of
validate_order documents c =
    validate_from (previous_of c.cursor_timestamp c.cursor_document_id) [] documents

pub record ElkPage : Type 0 where
  pub documents : List ElkDocument
  pub has_more : Bool

-- A page, or the name of the class of the exception.
pub data ReadResult : Type 0 where
  page_read : ElkPage → ReadResult
  read_failed : String → ReadResult

-- What the two readers return: the documents, or the class of the exception.
pub data Fetched : Type 0 where
  fetched : List ElkDocument → Fetched
  fetch_failed : String → Fetched

unfoldable pub page_if : ℕ → List ElkDocument → Option String → ReadResult
page_if page_size documents (some message) = read_failed "ELKReaderError"
page_if page_size documents none =
    page_read (record { documents = documents; has_more = length documents == page_size })

unfoldable pub checked : ℕ → IngestionCheckpoint → Fetched → ReadResult
unfolding validate_order page_if
checked page_size c (fetch_failed name) = read_failed name
checked page_size c (fetched documents) = page_if page_size documents (validate_order documents c)

-- The settings of the integration and of the scope that `read_page` branches on.
pub record ReaderConfig : Type 0 where
  pub enabled : Bool
  pub url : String
  pub reader_mode : Option String

-- `str(metadata.get("reader_mode") or "proxy")`
unfoldable pub mode_or : Option String → String
mode_or none = "proxy"
mode_or (some mode) = if str_eq mode "" then "proxy" else mode

module _ (native proxy : IngestionCheckpoint → ℕ → Fetched) where
  unfoldable pub read_page : ReaderConfig → IngestionCheckpoint → ℕ → ReadResult
  unfolding checked mode_or
  read_page config c page_size =
      if not config.enabled || str_eq config.url ""
      then read_failed "ELKReaderError"
      else if str_eq (mode_or config.reader_mode) "native"
      then checked page_size c (native c page_size)
      else if str_eq (mode_or config.reader_mode) "proxy"
      then checked page_size c (proxy c page_size)
      else read_failed "ELKReaderError"
