-- ===== src/Cases/Closing.antt =====
-- When a case carries a closing time, and what can still move it.
use agenticops.Prelude.{
  ℕ, ◌≡◌, refl, true, some, List, [], ◌∷◌, arith, All, update_first, is_some, Bool-cases, inl, inr,
  ◌==◌, ==_iff, subst, ◌∙◌,
}
use agenticops.Cases.Status.{
  CaseStatus, status_eq, status_eq→eq, status_mem, allowed, is_terminal, resolved, rolled_back,
  closed, escalated, failed,
}
use agenticops.Cases.Store.{CaseRecord, CaseDb, has_id, find_case}
use agenticops.Cases.Transition.{TransitionRequest, may_move, moved, transition}
use agenticops.Cases.Journal.{find_case-Moved_self, find_case-Moved_other}
use agenticops.Cases.Legality.{refused, replayed, moves, Moved, transition-Outcome}

-- A case has a closing time exactly while its status is terminal.
abbrev pub IsClosedRight : CaseRecord → Type 0
IsClosedRight c = is_some c.closed_at ≡ is_terminal c.status

moved-IsClosedRight :
    (now : ℕ) (q : TransitionRequest) (c : CaseRecord) → IsClosedRight (moved now q c)
unfolding moved
moved-IsClosedRight now q c = elim (Bool-cases (is_terminal q.to_state)) [
  | inl t ↦ ground arith
  | inr f ↦ ground arith
]

update-IsClosedRight :
    (now : ℕ) (q : TransitionRequest) (cs : List CaseRecord)
    → All IsClosedRight cs
    → All IsClosedRight (update_first (has_id q.case_id) (moved now q) cs)
unfolding update_first
update-IsClosedRight now q [] h = tt
update-IsClosedRight now q (c ∷ cs) h = elim (Bool-cases (has_id q.case_id c)) [
  | inl own ↦ rw own (moved-IsClosedRight now q c, h.1)
  | inr other ↦ rw other (h.0, update-IsClosedRight now q cs h.1)
]

-- If every case has a closing time exactly while its status is terminal, then so it is after any
-- call of transition.
pub transition-IsClosedRight :
    (now : ℕ) (q : TransitionRequest) (db : CaseDb)
    → All IsClosedRight db.cases
    → All IsClosedRight (transition now q db).1.cases
transition-IsClosedRight now q db h = elim (transition-Outcome now q db) [
  | refused e p ↦ rw p h
  | replayed row seen p ↦ rw p h
  | moves c new p m ↦ rw m.cases (update-IsClosedRight now q db.cases h)
]

terminal_allows_none : (s : CaseStatus) → is_terminal s ≡ true → allowed s ≡ []
unfolding is_terminal allowed
terminal_allows_none resolved h = refl
terminal_allows_none rolled_back h = refl
terminal_allows_none closed h = refl
terminal_allows_none escalated h = refl
terminal_allows_none failed h = refl
terminal_allows_none _ h = cc

stuck : (s t : CaseStatus) → is_terminal s ≡ true → may_move s t ≡ true → t ≡ s
unfolding may_move status_mem
stuck s t h k = elim (Bool-cases (status_eq s t)) [
  | inl e ↦ ground (arith, status_eq→eq s t)
  | inr e ↦ ground (arith, terminal_allows_none s h)
]

SameStatus : CaseDb → ℕ → CaseRecord → Type 0
SameStatus db i c = (c' : CaseRecord) × (find_case i db ≡ some c') × (c'.status ≡ c.status)

absorbed_self :
    (now : ℕ) (q : TransitionRequest) (c d : CaseRecord) (db db' : CaseDb)
    → Moved now q d db db'
    → find_case q.case_id db ≡ some c
    → is_terminal c.status ≡ true
    → SameStatus db' q.case_id c
unfolding SameStatus moved
absorbed_self now q c d db db' m found t =
    let same_case : d ≡ c = ground (arith, m.found) in
    (
      moved now q d,
      find_case-Moved_self now q d db db' m,
      stuck c.status q.to_state t (rw same_case at m.permitted),
    )

-- A case with a terminal status has the same status after any call of transition, for this case
-- or another.
pub terminal_absorbs :
    (now : ℕ) (q : TransitionRequest) (db : CaseDb) (i : ℕ) (c : CaseRecord)
    → find_case i db ≡ some c
    → is_terminal c.status ≡ true
    → (c' : CaseRecord) × (find_case i (transition now q db).1 ≡ some c') × (c'.status ≡ c.status)
unfolding SameStatus
terminal_absorbs now q db i c found t = elim (transition-Outcome now q db) [
  | refused e p ↦ (c, rw p found, refl)
  | replayed row seen p ↦ (c, rw p found, refl)
  | moves d new p m ↦ elim (Bool-cases (q.case_id == i)) [
    | inl own ↦
        subst (λ j. find_case j db ≡ some c → SameStatus (transition now q db).1 j c)
          ((==_iff q.case_id i).0 own)
          (λ found'. absorbed_self now q c d db (transition now q db).1 m found' t) found
    | inr other ↦
        (c, find_case-Moved_other now q d db (transition now q db).1 i m other ∙ found, refl)
  ]
]
