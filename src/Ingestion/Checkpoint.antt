-- ===== src/Ingestion/Checkpoint.antt =====
-- `CheckpointService`: the lease on a scope and the cursor of what was read.
use agenticops.Prelude.{
  ℕ, ◌+◌, ◌-◌, String, Bool, false, not, ◌&&◌, Option, none, some, List, [], ◌∷◌, ◌++◌, ltb, ◌==◌,
  find?, update_first, str_eq,
}
use agenticops.Prelude.Exec.{Exec, lease_unavailable, pure, gets, modify, require, ◌>>=◌, ◌>>◌}

pub record IngestionCheckpoint : Type 0 where
  pub scope_id : ℕ
  pub cursor_timestamp : Option ℕ
  pub cursor_document_id : Option String
  pub lease_owner : Option String
  pub lease_expires_at : Option ℕ
  pub total_documents : ℕ
  pub last_page_count : ℕ
  pub last_success_at : Option ℕ
  pub lag_seconds : Option ℕ
  pub last_error_code : Option String

unfoldable pub of_scope : ℕ → IngestionCheckpoint → Bool
of_scope n c = c.scope_id == n

unfoldable pub new_checkpoint : ℕ → IngestionCheckpoint
new_checkpoint scope_id = record {
  scope_id = scope_id;
  cursor_timestamp = none;
  cursor_document_id = none;
  lease_owner = none;
  lease_expires_at = none;
  total_documents = 0;
  last_page_count = 0;
  last_success_at = none;
  lag_seconds = none;
  last_error_code = none;
}

unfoldable pub same_owner : Option String → String → Bool
same_owner none owner = false
same_owner (some o) owner = str_eq o owner

unfoldable pub later_than : Option ℕ → ℕ → Bool
later_than none now = false
later_than (some t) now = ltb now t

-- `lease_expires_at and lease_expires_at > now and lease_owner != owner`
unfoldable pub held_by_other : ℕ → String → IngestionCheckpoint → Bool
unfolding same_owner later_than
held_by_other now owner c =
    later_than c.lease_expires_at now && not (same_owner c.lease_owner owner)

unfoldable pub leased : ℕ → ℕ → String → IngestionCheckpoint → IngestionCheckpoint
leased lease_seconds now owner c = record c {
  lease_owner = some owner;
  lease_expires_at = some (now + lease_seconds);
}

unfoldable pub found_or_new :
    ℕ → Option IngestionCheckpoint → Exec (List IngestionCheckpoint) IngestionCheckpoint
unfolding new_checkpoint
found_or_new scope_id (some c) = pure c
found_or_new scope_id none = do
  modify (λ cs. cs ++ new_checkpoint scope_id ∷ [])
  pure (new_checkpoint scope_id)

-- `claim`, with the length of a lease from the settings
unfoldable pub claim : ℕ → ℕ → ℕ → String → Exec (List IngestionCheckpoint) IngestionCheckpoint
unfolding found_or_new held_by_other leased of_scope
claim lease_seconds now scope_id owner = do
  found ← gets (find? (of_scope scope_id))
  c ← found_or_new scope_id found
  require (not (held_by_other now owner c))
      (lease_unavailable "scope lease is held by another worker")
  modify (update_first (of_scope scope_id) (leased lease_seconds now owner))
  pure (leased lease_seconds now owner c)

unfoldable pub advance : ℕ → ℕ → String → ℕ → ℕ → IngestionCheckpoint → IngestionCheckpoint
advance now timestamp document_id page_count inserted_count c = record c {
  cursor_timestamp = some timestamp;
  cursor_document_id = some document_id;
  last_page_count = page_count;
  total_documents = c.total_documents + inserted_count;
  last_success_at = some now;
  lag_seconds = some (now - timestamp);
  last_error_code = none;
}

unfoldable pub release : IngestionCheckpoint → IngestionCheckpoint
release c = record c { lease_owner = none; lease_expires_at = none }
