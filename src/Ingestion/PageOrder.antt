-- ===== src/Ingestion/PageOrder.antt =====
-- Proofs about `ELKReader._validate_order`.
use agenticops.Prelude.{◌≡◌, refl, ◌↔◌, false, Option, none, some, List, [], ◌∷◌, All, arith}
use agenticops.Ingestion.Checkpoint.{IngestionCheckpoint}
use agenticops.Ingestion.Aggregation.{ElkDocument}
use agenticops.Ingestion.Cursor.{Cursor, cursor_after_trans, cursor_eq_le}
use agenticops.Ingestion.Pages.{
  cursor_of, previous_of, cursor_seen, not_after, validate_from, validate_order,
}

abbrev pub IsAfter : Option Cursor → ElkDocument → Type 0
IsAfter previous d = not_after previous (cursor_of d) ≡ false

abbrev pub IsAscending : List ElkDocument → Type 0
IsAscending [] = Unit
IsAscending (d ∷ ds) = All (IsAfter (some (cursor_of d))) ds × IsAscending ds

IsAfter-all :
    (p : Option Cursor) (d : ElkDocument) (ds : List ElkDocument)
    → IsAfter p d
    → All (IsAfter (some (cursor_of d))) ds
    → All (IsAfter p) ds
unfolding not_after
IsAfter-all p d [] h hs = tt
IsAfter-all none d (x ∷ xs) h hs = (refl, IsAfter-all none d xs h hs.1)
IsAfter-all (some p) d (x ∷ xs) h hs =
    (cursor_after_trans p (cursor_of d) (cursor_of x) h hs.0, IsAfter-all (some p) d xs h hs.1)

accepted_sorted :
    (p : Option Cursor) (seen : List Cursor) (ds : List ElkDocument)
    → validate_from p seen ds ≡ none
    → All (IsAfter p) ds × IsAscending ds
unfolding validate_from
accepted_sorted p seen [] h = (tt, tt)
accepted_sorted p seen (d ∷ ds) h =
    let rest : validate_from (some (cursor_of d)) (cursor_of d ∷ seen) ds ≡ none =
      ground (arith, h) in
    let first : IsAfter p d = ground (arith, h) in
    let ih = accepted_sorted (some (cursor_of d)) (cursor_of d ∷ seen) ds rest in
    ((first, IsAfter-all p d ds first ih.0), ih)

abbrev IsBeforeAll : List ElkDocument → Cursor → Type 0
IsBeforeAll ds s = All (IsAfter (some s)) ds

unseen :
    (d : ElkDocument) (ds : List ElkDocument) (seen : List Cursor)
    → All (IsBeforeAll (d ∷ ds)) seen
    → (cursor_seen (cursor_of d) seen ≡ false) × All (IsBeforeAll ds) seen
unfolding cursor_seen not_after
unseen d ds [] h = (refl, tt)
unseen d ds (s ∷ seen) h =
    let rest = unseen d ds seen h.1 in
    (ground (arith, rest.0, h.0.0, cursor_eq_le (cursor_of d) s), (h.0.1, rest.1))

sorted_accepted :
    (p : Option Cursor) (seen : List Cursor) (ds : List ElkDocument)
    → All (IsBeforeAll ds) seen
    → All (IsAfter p) ds
    → IsAscending ds
    → validate_from p seen ds ≡ none
unfolding validate_from
sorted_accepted p seen [] hs h a = refl
sorted_accepted p seen (d ∷ ds) hs h a =
    let fresh = unseen d ds seen hs in
    let ih = sorted_accepted (some (cursor_of d)) (cursor_of d ∷ seen) ds (a.0, fresh.1) a.0 a.1 in
    ground (arith, fresh.0, h.0, ih)

-- A page is accepted exactly when each of its documents comes after the checkpoint's cursor,
-- where the checkpoint has one, and after every document before it on the page.
pub validate_order_iff :
    (documents : List ElkDocument) (c : IngestionCheckpoint)
    → (validate_order documents c ≡ none) ↔ (
        All (IsAfter (previous_of c.cursor_timestamp c.cursor_document_id)) documents
        × IsAscending documents)
unfolding validate_order
validate_order_iff documents c =
    let p = previous_of c.cursor_timestamp c.cursor_document_id in
    (accepted_sorted p [] documents, λ (h, a). sorted_accepted p [] documents tt h a)
