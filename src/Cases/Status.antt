-- ===== src/Cases/Status.antt =====
-- `CaseStatus`, the table `ALLOWED` and the set `TERMINAL`.
use agenticops.Prelude.{
  String, Bool, true, false, ◌||◌, List, [], ◌∷◌, ◌≡◌, same, same_refl, same→eq,
}

pub data CaseStatus : Type 0 where
  new normalized open_ triaged evidence_collecting diagnosing hypothesis_review : CaseStatus
  planning safety_review awaiting_approval investigating planned executing : CaseStatus
  verifying observing resolved rolled_back closed escalated failed : CaseStatus

unfoldable pub CaseStatus-discrete : Discrete CaseStatus
CaseStatus-discrete = hlevel

-- The values of the enumeration.
unfoldable pub value : CaseStatus → String
value new = "new"
value normalized = "normalized"
value open_ = "open"
value triaged = "triaged"
value evidence_collecting = "evidence_collecting"
value diagnosing = "diagnosing"
value hypothesis_review = "hypothesis_review"
value planning = "planning"
value safety_review = "safety_review"
value awaiting_approval = "awaiting_approval"
value investigating = "investigating"
value planned = "planned"
value executing = "executing"
value verifying = "verifying"
value observing = "observing"
value resolved = "resolved"
value rolled_back = "rolled_back"
value closed = "closed"
value escalated = "escalated"
value failed = "failed"

-- `ALLOWED.get(current, set())`
unfoldable pub allowed : CaseStatus → List CaseStatus
allowed new = normalized ∷ escalated ∷ failed ∷ []
allowed open_ = normalized ∷ triaged ∷ investigating ∷ planned ∷ failed ∷ escalated ∷ []
allowed normalized = triaged ∷ escalated ∷ failed ∷ []
allowed triaged =
    evidence_collecting ∷ diagnosing ∷ investigating ∷ planned ∷ escalated ∷ failed ∷ []
allowed investigating = evidence_collecting ∷ diagnosing ∷ planning ∷ escalated ∷ failed ∷ []
allowed evidence_collecting = diagnosing ∷ escalated ∷ failed ∷ []
allowed diagnosing = evidence_collecting ∷ hypothesis_review ∷ planning ∷ escalated ∷ failed ∷ []
allowed hypothesis_review = evidence_collecting ∷ diagnosing ∷ planning ∷ escalated ∷ failed ∷ []
allowed planning = safety_review ∷ awaiting_approval ∷ observing ∷ escalated ∷ failed ∷ []
allowed planned =
    safety_review ∷ awaiting_approval ∷ executing ∷ observing ∷ escalated ∷ failed ∷ []
allowed safety_review = awaiting_approval ∷ observing ∷ escalated ∷ failed ∷ []
allowed awaiting_approval = planning ∷ planned ∷ executing ∷ observing ∷ escalated ∷ failed ∷ []
allowed executing = verifying ∷ rolled_back ∷ escalated ∷ failed ∷ []
allowed verifying = resolved ∷ rolled_back ∷ escalated ∷ failed ∷ []
allowed observing = planning ∷ awaiting_approval ∷ resolved ∷ escalated ∷ failed ∷ []
allowed resolved = []
allowed rolled_back = []
allowed closed = []
allowed escalated = []
allowed failed = []

unfoldable pub status_eq : CaseStatus → CaseStatus → Bool
unfolding CaseStatus-discrete
status_eq = same CaseStatus-discrete

unfoldable pub status_mem : CaseStatus → List CaseStatus → Bool
unfolding status_eq
status_mem s [] = false
status_mem s (t ∷ ts) = status_eq s t || status_mem s ts

-- `target in TERMINAL`
unfoldable pub is_terminal : CaseStatus → Bool
unfolding status_mem
is_terminal s = status_mem s (resolved ∷ rolled_back ∷ escalated ∷ failed ∷ closed ∷ [])

pub status_eq_refl : (s : CaseStatus) → status_eq s s ≡ true
unfolding status_eq
status_eq_refl s = same_refl CaseStatus-discrete s

pub status_eq→eq : (s t : CaseStatus) → status_eq s t ≡ true → s ≡ t
unfolding status_eq
status_eq→eq s t h = same→eq CaseStatus-discrete s t h
