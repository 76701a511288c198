-- ===== src/Cases/Idempotency.antt =====
-- The idempotency key of `transition`.
use agenticops.Prelude.{ℕ, ◌≡◌, true, some, arith, find?, eq_refl, find?-append_new}
use agenticops.Prelude.Exec.{ok}
use agenticops.Cases.Store.{CaseStateTransition, CaseDb}
use agenticops.Cases.Status.{CaseStatus}
use agenticops.Cases.Transition.{TransitionRequest, has_key, journal_row, transition}
use agenticops.Cases.Legality.{refused, replayed, moves, transition-Outcome}

transition_of_seen :
    (later : ℕ) (q : TransitionRequest) (db : CaseDb) (row : CaseStateTransition)
    → find? (has_key q.idempotency_key) db.transitions ≡ some row
    → transition later q db ≡ (ok row, db)
unfolding transition
transition_of_seen later q db row h = ground arith

own_key :
    (s : CaseStatus) (q : TransitionRequest) → has_key q.idempotency_key (journal_row s q) ≡ true
unfolding has_key journal_row
own_key s q = eq_refl q.idempotency_key

seen_after :
    (now : ℕ) (q : TransitionRequest) (db : CaseDb) (row : CaseStateTransition)
    → (transition now q db).0 ≡ ok row
    → find? (has_key q.idempotency_key) (transition now q db).1.transitions ≡ some row
seen_after now q db row h = elim (transition-Outcome now q db) [
  | refused e p ↦ ground arith
  | replayed old seen p ↦ ground arith
  | moves c new p m ↦ rw m.journal (
      ground (
        arith,
        find?-append_new (has_key q.idempotency_key) db.transitions (journal_row c.status q),
        own_key c.status q,
      ))
]

-- After a transition that succeeded, a call with the same idempotency key, whatever else it
-- asks, returns the same row and changes nothing.
pub transition_idempotent :
    (now later : ℕ) (q q' : TransitionRequest) (db : CaseDb) (row : CaseStateTransition)
    → q'.idempotency_key ≡ q.idempotency_key
    → (transition now q db).0 ≡ ok row
    → transition later q' (transition now q db).1 ≡ (ok row, (transition now q db).1)
transition_idempotent now later q q' db row same_key h =
    transition_of_seen later q' (transition now q db).1 row
      (rw same_key (seen_after now q db row h))
