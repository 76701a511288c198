-- ===== src/Ingestion/Lease.antt =====
-- Proofs about the lease of `CheckpointService.claim`.
use agenticops.Prelude.{
  ℕ, ◌+◌, ◌<◌, String, ◌≡◌, ◌≢◌, inl, inr, true, false, none, some, List, [], ◌∷◌, ◌++◌, arith,
  find?, update_first, eq_iff, Option-cases, Bool-cases, ==_refl, find?-update_self,
  find?-append_new, find?-holds,
}
use agenticops.Prelude.Exec.{ok, err, lease_unavailable}
use agenticops.Ingestion.Checkpoint.{
  IngestionCheckpoint, of_scope, new_checkpoint, held_by_other, leased, claim, found_or_new,
  same_owner, later_than,
}

abbrev pub Checkpoints : Type 0
Checkpoints = List IngestionCheckpoint

pub refused_while_held :
    (lease_seconds now scope_id : ℕ) (owner : String) (cs : Checkpoints) (c : IngestionCheckpoint)
    → find? (of_scope scope_id) cs ≡ some c
    → held_by_other now owner c ≡ true
    → claim lease_seconds now scope_id owner cs
      ≡ (err (lease_unavailable "scope lease is held by another worker"), cs)
unfolding claim found_or_new
refused_while_held lease_seconds now scope_id owner cs c h k = ground arith

claim_new :
    (lease_seconds now scope_id : ℕ) (owner : String) (cs : Checkpoints)
    → find? (of_scope scope_id) cs ≡ none
    → claim lease_seconds now scope_id owner cs ≡ (
      ok (leased lease_seconds now owner (new_checkpoint scope_id)),
      update_first
          (of_scope scope_id)
          (leased lease_seconds now owner)
          (cs ++ new_checkpoint scope_id ∷ []),
    )
unfolding claim found_or_new held_by_other new_checkpoint later_than
claim_new lease_seconds now scope_id owner cs h = ground arith

pub claim_free :
    (lease_seconds now scope_id : ℕ) (owner : String) (cs : Checkpoints) (c : IngestionCheckpoint)
    → find? (of_scope scope_id) cs ≡ some c
    → held_by_other now owner c ≡ false
    → claim lease_seconds now scope_id owner cs ≡ (
      ok (leased lease_seconds now owner c),
      update_first (of_scope scope_id) (leased lease_seconds now owner) cs,
    )
unfolding claim found_or_new
claim_free lease_seconds now scope_id owner cs c h k = ground arith

new_of_scope : (n : ℕ) → of_scope n (new_checkpoint n) ≡ true
unfolding of_scope new_checkpoint
new_of_scope n = ==_refl n

leased_found :
    (lease_seconds now scope_id : ℕ) (owner : String) (cs : Checkpoints) (c : IngestionCheckpoint)
    → find? (of_scope scope_id) cs ≡ some c
    → find?
        (of_scope scope_id)
        (update_first (of_scope scope_id) (leased lease_seconds now owner) cs)
      ≡ some (leased lease_seconds now owner c)
unfolding of_scope leased
leased_found lease_seconds now scope_id owner cs c h =
    find?-update_self (of_scope scope_id) (leased lease_seconds now owner) cs h
      (find?-holds (of_scope scope_id) cs h)

leased_keeps :
    (lease_seconds now : ℕ) (owner : String) (c d : IngestionCheckpoint)
    → leased lease_seconds now owner d ≡ c
    → (c.lease_owner ≡ some owner) × (c.lease_expires_at ≡ some (now + lease_seconds))
unfolding leased
leased_keeps lease_seconds now owner c d h = (ground (arith, h), ground (arith, h))

-- What a claim that succeeds leaves: the scope's checkpoint is leased to the owner.
claimed_row :
    (lease_seconds now scope_id : ℕ) (owner : String) (cs : Checkpoints) (c : IngestionCheckpoint)
    → (claim lease_seconds now scope_id owner cs).0 ≡ ok c
    → (find? (of_scope scope_id) (claim lease_seconds now scope_id owner cs).1 ≡ some c)
      × (c.lease_owner ≡ some owner)
      × (c.lease_expires_at ≡ some (now + lease_seconds))
claimed_row lease_seconds now scope_id owner cs c h =
    elim (Option-cases (find? (of_scope scope_id) cs)) [
      | inl missing ↦
          let e = claim_new lease_seconds now scope_id owner cs missing in
          let new = new_checkpoint scope_id in
          let same : leased lease_seconds now owner new ≡ c = ground (arith, e, h) in
          let kept = leased_keeps lease_seconds now owner c new same in
          let listed =
            leased_found lease_seconds now scope_id owner (cs ++ new ∷ []) new
              (find?-append_new (of_scope scope_id) cs new missing (new_of_scope scope_id)) in
          (ground (arith, e, listed, same), kept.0, kept.1)
      | inr (d, found) ↦ elim (Bool-cases (held_by_other now owner d)) [
        | inl held ↦
            absurd (
              ground
                (arith, h, refused_while_held lease_seconds now scope_id owner cs d found held))
        | inr free ↦
            let e = claim_free lease_seconds now scope_id owner cs d found free in
            let same : leased lease_seconds now owner d ≡ c = ground (arith, e, h) in
            let kept = leased_keeps lease_seconds now owner c d same in
            let listed = leased_found lease_seconds now scope_id owner cs d found in
            (ground (arith, e, listed, same), kept.0, kept.1)
      ]
    ]

-- After a claim that succeeded, another worker's claim of the scope before the lease runs out is
-- refused and changes nothing.
pub claim_excludes :
    (lease_seconds now later scope_id : ℕ) (owner other : String) (cs : Checkpoints)
    (c : IngestionCheckpoint)
    → (claim lease_seconds now scope_id owner cs).0 ≡ ok c
    → other ≢ owner
    → later < now + lease_seconds
    → claim lease_seconds later scope_id other (claim lease_seconds now scope_id owner cs).1 ≡ (
      err (lease_unavailable "scope lease is held by another worker"),
      (claim lease_seconds now scope_id owner cs).1,
    )
unfolding held_by_other same_owner later_than
claim_excludes lease_seconds now later scope_id owner other cs c h ne early =
    let row = claimed_row lease_seconds now scope_id owner cs c h in
    refused_while_held lease_seconds later scope_id other _ c row.0
      (ground (arith, row.1, row.2, eq_iff owner other))
