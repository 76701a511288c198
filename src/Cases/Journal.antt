-- ===== src/Cases/Journal.antt =====
-- Proofs about the journal and the statuses of cases over sequences of requests.
use agenticops.Prelude.{
  ℕ, ◌≡◌, refl, true, false, ◌&&◌, Option, none, some, List, [], ◌∷◌, ◌++◌, arith, ◌==◌, ==_refl,
  ==_iff, Bool-cases, if◌then◌else◌, find?-update_self, find?-update_other, find?-holds, inl, inr,
  sym, ◌∙◌, subst,
}
use agenticops.Cases.Status.{CaseStatus, status_eq, status_eq_refl}
use agenticops.Cases.Store.{CaseRecord, CaseStateTransition, CaseDb, has_id, find_case}
use agenticops.Cases.Transition.{TransitionRequest, may_move, moved, journal_row, transition}
use agenticops.Cases.Legality.{refused, replayed, moves, Moved, transition-Outcome}

-- One row of the journal, read for one case: it must start where the last one ended and take a
-- step that the table permits.
unfoldable pub read_row : ℕ → Option CaseStatus → CaseStateTransition → Option CaseStatus
read_row i none row = none
read_row i (some s) row =
    if row.case_id == i
    then (if status_eq row.from_state s && may_move row.from_state row.to_state
        then some row.to_state
        else none)
    else some s

unfoldable pub follow : ℕ → Option CaseStatus → List CaseStateTransition → Option CaseStatus
unfolding read_row
follow i s [] = s
follow i s (row ∷ rows) = follow i (read_row i s row) rows

follow-append :
    (i : ℕ) (s : Option CaseStatus) (xs ys : List CaseStateTransition)
    → follow i s (xs ++ ys) ≡ follow i (follow i s xs) ys
unfolding follow
follow-append i s [] ys = refl
follow-append i s (x ∷ xs) ys = follow-append i (read_row i s x) xs ys

-- From the status that each case had at first, the journal leads to the status that it has now.
pub record Accounts (start : ℕ → CaseStatus) (db : CaseDb) : Type 0 where
  pub at :
      (i : ℕ) (c : CaseRecord)
      → find_case i db ≡ some c
      → follow i (some (start i)) db.transitions ≡ some c.status

-- The row of a permitted move leads its own case on, and leaves the others.
follow-own :
    (q : TransitionRequest) (s : CaseStatus)
    → may_move s q.to_state ≡ true
    → follow q.case_id (some s) (journal_row s q ∷ []) ≡ some q.to_state
unfolding follow journal_row
follow-own q s h = ground (arith, ==_refl q.case_id, status_eq_refl s)

follow-other :
    (q : TransitionRequest) (i : ℕ) (s t : CaseStatus)
    → (q.case_id == i) ≡ false
    → follow i (some t) (journal_row s q ∷ []) ≡ some t
unfolding follow journal_row
follow-other q i s t h = ground arith

ids_apart :
    (now : ℕ) (q : TransitionRequest) (i : ℕ) (x : CaseRecord)
    → has_id q.case_id x ≡ true
    → (q.case_id == i) ≡ false
    → (has_id i x ≡ false) × (has_id i (moved now q x) ≡ false)
unfolding has_id moved
ids_apart now q i x own h = ground arith

-- The case of the request becomes what `moved` says, and every other case stays.
pub find_case-Moved_self :
    (now : ℕ) (q : TransitionRequest) (c : CaseRecord) (db db' : CaseDb)
    → Moved now q c db db'
    → find_case q.case_id db' ≡ some (moved now q c)
unfolding find_case moved
find_case-Moved_self now q c db db' m = rw m.cases (
    find?-update_self (has_id q.case_id) (moved now q) db.cases {x = c} m.found
      (find?-holds (has_id q.case_id) db.cases {x = c} m.found))

pub find_case-Moved_other :
    (now : ℕ) (q : TransitionRequest) (c : CaseRecord) (db db' : CaseDb) (i : ℕ)
    → Moved now q c db db'
    → (q.case_id == i) ≡ false
    → find_case i db' ≡ find_case i db
unfolding find_case
find_case-Moved_other now q c db db' i m h = rw m.cases (
    find?-update_other (has_id q.case_id) (has_id i) (moved now q) db.cases
      (λ x own. ids_apart now q i x own h))

Moved-account_self :
    (start : ℕ → CaseStatus) (now : ℕ) (q : TransitionRequest) (c : CaseRecord) (db db' : CaseDb)
    → Moved now q c db db'
    → Accounts start db
    → (x : CaseRecord) → find_case q.case_id db' ≡ some x
    → follow q.case_id (some (start q.case_id)) db'.transitions ≡ some x.status
unfolding moved
Moved-account_self start now q c db db' m h x found =
    rw (m.journal, follow-append)
      (ground (
        arith,
        h.at q.case_id c m.found,
        follow-own q c.status m.permitted,
        find_case-Moved_self now q c db db' m,
      ))

Moved-account_other :
    (start : ℕ → CaseStatus) (now : ℕ) (q : TransitionRequest) (c : CaseRecord) (db db' : CaseDb)
    → Moved now q c db db'
    → Accounts start db
    → (i : ℕ) (x : CaseRecord) → (q.case_id == i) ≡ false
    → find_case i db' ≡ some x
    → follow i (some (start i)) db'.transitions ≡ some x.status
Moved-account_other start now q c db db' m h i x other found =
    rw (m.journal, follow-append)
      (rw (h.at i x (sym (find_case-Moved_other now q c db db' i m other) ∙ found))
        (follow-other q i c.status x.status other))

Moved-Accounts :
    (start : ℕ → CaseStatus) (now : ℕ) (q : TransitionRequest) (c : CaseRecord) (db db' : CaseDb)
    → Moved now q c db db'
    → Accounts start db
    → Accounts start db'
Moved-Accounts start now q c db db' m h = record {
  at = λ i x found. elim (Bool-cases (q.case_id == i)) [
    | inl own ↦
        subst
          (λ j.
            find_case j db' ≡ some x → follow j (some (start j)) db'.transitions ≡ some x.status)
          ((==_iff q.case_id i).0 own) (Moved-account_self start now q c db db' m h x) found
    | inr other ↦ Moved-account_other start now q c db db' m h i x other found
  ];
}

-- A call of `transition` keeps the journal's account of every case.
pub transition-Accounts :
    (start : ℕ → CaseStatus) (now : ℕ) (q : TransitionRequest) (db : CaseDb)
    → Accounts start db
    → Accounts start (transition now q db).1
transition-Accounts start now q db h = elim (transition-Outcome now q db) [
  | refused e p ↦ rw p h
  | replayed row seen p ↦ rw p h
  | moves c new p m ↦ Moved-Accounts start now q c db (transition now q db).1 m h
]

-- The requests of a run, each with its time; an error ends only its own request.
unfoldable pub run : CaseDb → List (ℕ × TransitionRequest) → CaseDb
run db [] = db
run db ((now, q) ∷ rest) = run (transition now q db).1 rest

-- If each case stands where the moves recorded in the journal, each permitted by the table, lead
-- from the status it had at first, then so it is after any sequence of transition requests.
pub run-Accounts :
    (start : ℕ → CaseStatus) (db : CaseDb) (requests : List (ℕ × TransitionRequest))
    → Accounts start db
    → Accounts start (run db requests)
unfolding run
run-Accounts start db [] h = h
run-Accounts start db ((now, q) ∷ rest) h =
    run-Accounts start (transition now q db).1 rest (transition-Accounts start now q db h)
