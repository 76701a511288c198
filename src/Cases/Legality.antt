-- ===== src/Cases/Legality.antt =====
-- What a call of `transition` does to the case and to the journal.
use agenticops.Prelude.{
  ℕ, ◌≡◌, ◌⊎◌, true, none, some, [], ◌∷◌, ◌++◌, arith, find?, update_first, Option-cases,
  Bool-cases, inl, inr,
}
use agenticops.Prelude.Exec.{Error, lookup_error, invalid_case_transition, ok, err, Atomic}
use agenticops.Cases.Status.{value}
use agenticops.Cases.Store.{
  CaseRecord, CaseStateTransition, CaseTimelineEvent, CaseDb, append, has_id, find_case,
  has_event_key, increment,
}
use agenticops.Cases.Transition.{
  TransitionRequest, has_key, may_move, journal_row, timeline_row, expectation_met, moved,
  record_move, fresh_transition, transition,
}

-- An append touches neither the cases nor the journal, and it always returns.
pub append_frame :
    (e : CaseTimelineEvent) (db : CaseDb)
    → (r : CaseTimelineEvent) × ((append e db).0 ≡ ok r)
      × ((append e db).1.cases ≡ db.cases)
      × ((append e db).1.transitions ≡ db.transitions)
unfolding append
append_frame e db = elim (Option-cases (find? (has_event_key e.idempotency_key) db.timeline)) [
  | inl new ↦ (e, ground arith, ground arith, ground arith)
  | inr (old, found) ↦ (old, ground arith, ground arith, ground arith)
]

record_move_result :
    (now : ℕ) (q : TransitionRequest) (c : CaseRecord) (db : CaseDb)
    → ((record_move now q c db).0 ≡ ok (journal_row c.status q))
      × ((record_move now q c db).1.cases ≡ update_first (has_id q.case_id) (moved now q) db.cases)
      × ((record_move now q c db).1.transitions ≡ db.transitions ++ journal_row c.status q ∷ [])
unfolding record_move increment
record_move_result now q c db =
    let row = journal_row c.status q in
    let db' = record db {
      cases = update_first (has_id q.case_id) (moved now q) db.cases;
      transitions = db.transitions ++ row ∷ [];
    } in
    ground (arith, append_frame (timeline_row c.status q) db')

-- The guards of a transition that is not a replay.
record Granted (q : TransitionRequest) (c : CaseRecord) (db : CaseDb) : Type 0 where
  found : find_case q.case_id db ≡ some c
  expected : expectation_met q.expected_from c.status ≡ true
  permitted : may_move c.status q.to_state ≡ true

-- A fresh request is refused with the store as it was, or it is granted and recorded.
fresh_transition_cases :
    (now : ℕ) (q : TransitionRequest) (db : CaseDb)
    → ((e : Error) × (fresh_transition now q db ≡ (err e, db)))
      ⊎ ((c : CaseRecord) × Granted q c db × (fresh_transition now q db ≡ record_move now q c db))
unfolding fresh_transition
fresh_transition_cases now q db = elim (Option-cases (find_case q.case_id db)) [
  | inl missing ↦ inl (lookup_error "case not found", ground arith)
  | inr (c, found) ↦ elim (Bool-cases (expectation_met q.expected_from c.status)) [
    | inr unexpected ↦ inl (invalid_case_transition (value c.status), ground arith)
    | inl expected ↦ elim (Bool-cases (may_move c.status q.to_state)) [
      | inr illegal ↦ inl (invalid_case_transition (value c.status), ground arith)
      | inl permitted ↦
          inr
            (c, record { found = found; expected = expected; permitted = permitted }, ground arith)
    ]
  ]
]

-- What a granted request leaves behind.
pub record Moved (now : ℕ) (q : TransitionRequest) (c : CaseRecord) (db db' : CaseDb) : Type 0 where
  pub found : find_case q.case_id db ≡ some c
  pub expected : expectation_met q.expected_from c.status ≡ true
  pub permitted : may_move c.status q.to_state ≡ true
  pub cases : db'.cases ≡ update_first (has_id q.case_id) (moved now q) db.cases
  pub journal : db'.transitions ≡ db.transitions ++ journal_row c.status q ∷ []

-- The three outcomes of a call: an error that changes nothing; a replay that returns the recorded
-- row and changes nothing; or a move that the table permits, which updates the case and appends
-- one row to the journal.
pub data Outcome (now : ℕ) (q : TransitionRequest) (db : CaseDb) : Type 0 where
  refused : (e : Error) → transition now q db ≡ (err e, db) → Outcome now q db
  replayed :
      (row : CaseStateTransition)
      → find? (has_key q.idempotency_key) db.transitions ≡ some row
      → transition now q db ≡ (ok row, db)
      → Outcome now q db
  moves :
      (c : CaseRecord)
      → find? (has_key q.idempotency_key) db.transitions ≡ none
      → (transition now q db).0 ≡ ok (journal_row c.status q)
      → Moved now q c db (transition now q db).1
      → Outcome now q db

-- Every call of the case transition is refused and changes nothing, is a replay that returns the
-- recorded row and changes nothing, or is new, finds its case, meets the expectation and the
-- table, and updates that one case and appends one row.
pub transition-Outcome : (now : ℕ) (q : TransitionRequest) (db : CaseDb) → Outcome now q db
unfolding transition
transition-Outcome now q db =
    elim (Option-cases (find? (has_key q.idempotency_key) db.transitions)) [
      | inr (row, seen) ↦ replayed row seen (ground arith)
      | inl new ↦ elim (fresh_transition_cases now q db) [
        | inl (e, refusal) ↦ refused e (ground arith)
        | inr (c, g, granted) ↦
            moves c new (ground (arith, record_move_result now q c db)) (record {
              found = g.found;
              expected = g.expected;
              permitted = g.permitted;
              cases = ground (arith, record_move_result now q c db);
              journal = ground (arith, record_move_result now q c db);
            })
      ]
    ]

-- A transition that raises, for whatever reason, changes nothing.
pub transition-Atomic : (now : ℕ) (q : TransitionRequest) → Atomic (transition now q)
transition-Atomic now q s e h = elim (transition-Outcome now q s) [
  | refused e' p ↦ ground arith
  | replayed row seen p ↦ ground arith
  | moves c new p m ↦ ground arith
]
