-- ===== src/Cases/Graph.antt =====
-- The diagram of the statuses, as a relation.
use agenticops.Prelude.{◌≡◌, refl, true, false, arith}
use agenticops.Cases.Status.{
  CaseStatus, allowed, status_mem, is_terminal, new, normalized, open_, triaged,
  evidence_collecting, diagnosing, hypothesis_review, planning, safety_review, awaiting_approval,
  investigating, planned, executing, verifying, observing, resolved, escalated, failed,
}

-- One move of the table, which changes the status.
infix 4 ◌⟶◌ ◌⟶*◌
pub data ◌⟶◌ (s t : CaseStatus) : Type 0 where
  step : status_mem t (allowed s) ≡ true → s ⟶ t

pub data ◌⟶*◌ : CaseStatus → CaseStatus → Type 0 where
  here : {s : CaseStatus} → s ⟶* s
  then : {s t u : CaseStatus} → s ⟶ t → t ⟶* u → s ⟶* u

from_verifying : verifying ⟶* resolved
unfolding allowed status_mem
from_verifying = then (step refl) here

from_observing : observing ⟶* resolved
unfolding allowed status_mem
from_observing = then (step refl) here

from_executing : executing ⟶* resolved
unfolding allowed status_mem
from_executing = then (step refl) from_verifying

from_planning : planning ⟶* resolved
unfolding allowed status_mem
from_planning = then (step refl) from_observing

from_planned : planned ⟶* resolved
unfolding allowed status_mem
from_planned = then (step refl) from_observing

from_safety_review : safety_review ⟶* resolved
unfolding allowed status_mem
from_safety_review = then (step refl) from_observing

from_awaiting_approval : awaiting_approval ⟶* resolved
unfolding allowed status_mem
from_awaiting_approval = then (step refl) from_observing

from_hypothesis_review : hypothesis_review ⟶* resolved
unfolding allowed status_mem
from_hypothesis_review = then (step refl) from_planning

from_diagnosing : diagnosing ⟶* resolved
unfolding allowed status_mem
from_diagnosing = then (step refl) from_planning

from_investigating : investigating ⟶* resolved
unfolding allowed status_mem
from_investigating = then (step refl) from_planning

from_triaged : triaged ⟶* resolved
unfolding allowed status_mem
from_triaged = then (step refl) from_planned

from_open : open_ ⟶* resolved
unfolding allowed status_mem
from_open = then (step refl) from_planned

from_evidence_collecting : evidence_collecting ⟶* resolved
unfolding allowed status_mem
from_evidence_collecting = then (step refl) from_diagnosing

from_normalized : normalized ⟶* resolved
unfolding allowed status_mem
from_normalized = then (step refl) from_triaged

from_new : new ⟶* resolved
unfolding allowed status_mem
from_new = then (step refl) from_normalized

to_resolved : (s : CaseStatus) → is_terminal s ≡ false → s ⟶* resolved
unfolding is_terminal
to_resolved verifying h = from_verifying
to_resolved observing h = from_observing
to_resolved executing h = from_executing
to_resolved planning h = from_planning
to_resolved planned h = from_planned
to_resolved safety_review h = from_safety_review
to_resolved awaiting_approval h = from_awaiting_approval
to_resolved hypothesis_review h = from_hypothesis_review
to_resolved diagnosing h = from_diagnosing
to_resolved investigating h = from_investigating
to_resolved triaged h = from_triaged
to_resolved open_ h = from_open
to_resolved evidence_collecting h = from_evidence_collecting
to_resolved normalized h = from_normalized
to_resolved new h = from_new
to_resolved _ h = cc

to_escalated : (s : CaseStatus) → is_terminal s ≡ false → status_mem escalated (allowed s) ≡ true
unfolding is_terminal allowed status_mem
to_escalated new h = refl
to_escalated _ h = ground arith

to_failed : (s : CaseStatus) → is_terminal s ≡ false → status_mem failed (allowed s) ≡ true
unfolding is_terminal allowed status_mem
to_failed new h = refl
to_failed _ h = ground arith

-- From every status that is not terminal the table leads to resolved, and in one move to
-- escalated and to failed.
pub nonterminal_has_exits :
    (s : CaseStatus) → is_terminal s ≡ false → (s ⟶* resolved) × (s ⟶ escalated) × (s ⟶ failed)
nonterminal_has_exits s h = (to_resolved s h, step (to_escalated s h), step (to_failed s h))
