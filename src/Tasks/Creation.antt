-- ===== src/Tasks/Creation.antt =====
-- What `create` adds, and what it never adds twice.
use agenticops.Prelude.{
  ℕ, ◌+◌, ◌≤◌, ◌<◌, String, ◌≡◌, ◌⊎◌, inl, inr, true, none, some, List, [], ◌∷◌, ◌++◌, arith, All,
  All-append, Bool-cases, Option-cases, find?, where_all, where_all-append, where_all_of_none,
  length, length-append, eq_iff, eq_refl, find?-append_new,
}
use agenticops.Prelude.Exec.{ok}
use agenticops.Cases.Store.{increment}
use agenticops.Cases.Legality.{append_frame}
use agenticops.Tasks.Store.{AgentTask, TaskDb}
use agenticops.Tasks.Create.{
  TaskRequest, has_key, new_task, announcement, assignment, add_task, create,
}

add_task_result :
    (q : TaskRequest) (db : TaskDb)
    → ((add_task q db).0 ≡ ok (new_task db.next_task_id q))
      × ((add_task q db).1.tasks ≡ db.tasks ++ new_task db.next_task_id q ∷ [])
      × ((add_task q db).1.next_task_id ≡ db.next_task_id + 1)
      × (length (add_task q db).1.messages ≡ length db.messages + 1)
unfolding add_task increment
add_task_result q db = ground (
  arith,
  append_frame (announcement db.next_task_id q) db.case_db,
  length-append db.messages (assignment db.next_task_id q ∷ []),
)

own_key :
    (id : ℕ) (q : TaskRequest) → has_key q.graph_run_id q.idempotency_key (new_task id q) ≡ true
unfolding has_key new_task
own_key id q = ground (arith, eq_refl q.graph_run_id, eq_refl q.idempotency_key)

-- A call returns the task that holds the key and changes nothing, or, when none does, it appends
-- one ready task under the next number, and one message, and returns that task.
pub create_cases :
    (q : TaskRequest) (db : TaskDb)
    → ((t : AgentTask) × (find? (has_key q.graph_run_id q.idempotency_key) db.tasks ≡ some t)
        × (create q db ≡ (ok t, db)))
      ⊎ ((find? (has_key q.graph_run_id q.idempotency_key) db.tasks ≡ none)
          × ((create q db).0 ≡ ok (new_task db.next_task_id q))
          × ((create q db).1.tasks ≡ db.tasks ++ new_task db.next_task_id q ∷ [])
          × ((create q db).1.next_task_id ≡ db.next_task_id + 1)
          × (length (create q db).1.messages ≡ length db.messages + 1))
unfolding create
create_cases q db =
    elim (Option-cases (find? (has_key q.graph_run_id q.idempotency_key) db.tasks)) [
      | inr (t, seen) ↦ inl (t, seen, ground arith)
      | inl new ↦ inr (
        new,
        ground (arith, add_task_result q db),
        ground (arith, add_task_result q db),
        ground (arith, add_task_result q db),
        ground (arith, add_task_result q db),
      )
    ]

create_of_seen :
    (q : TaskRequest) (db : TaskDb) (t : AgentTask)
    → find? (has_key q.graph_run_id q.idempotency_key) db.tasks ≡ some t
    → create q db ≡ (ok t, db)
unfolding create
create_of_seen q db t h = ground arith

seen_after :
    (q : TaskRequest) (db : TaskDb) (t : AgentTask)
    → (create q db).0 ≡ ok t
    → find? (has_key q.graph_run_id q.idempotency_key) (create q db).1.tasks ≡ some t
seen_after q db t r = elim (create_cases q db) [
  | inl (old, seen, p) ↦ ground arith
  | inr (new, p, rows, next, sent) ↦ rw rows (
      ground (
        arith,
        own_key db.next_task_id q,
        find?-append_new (has_key q.graph_run_id q.idempotency_key) db.tasks
            (new_task db.next_task_id q),
      ))
]

-- After a creation that returned a task, a request with the same run and key, whatever else it
-- asks, returns the same task and changes nothing.
pub create_idempotent :
    (q q' : TaskRequest) (db : TaskDb) (t : AgentTask)
    → q'.graph_run_id ≡ q.graph_run_id
    → q'.idempotency_key ≡ q.idempotency_key
    → (create q db).0 ≡ ok t
    → create q' (create q db).1 ≡ (ok t, (create q db).1)
create_idempotent q q' db t r k h =
    create_of_seen q' (create q db).1 t (rw (r, k) (seen_after q db t h))

-- The unique constraint of the table, and the sequence ahead of every number.
pub record IsKeyed (db : TaskDb) : Type 0 where
  pub once : (run key : String) → length (where_all (has_key run key) db.tasks) ≤ 1
  pub numbered : All (λ t. t.id < db.next_task_id) db.tasks

raised : (n : ℕ) (ts : List AgentTask) → All (λ t. t.id < n) ts → All (λ t. t.id < n + 1) ts
raised n [] h = tt
raised n (t ∷ ts) h = (omega arith, raised n ts h.1)

keys_of :
    (q : TaskRequest) (id : ℕ) (run key : String)
    → has_key run key (new_task id q) ≡ true
    → (q.graph_run_id ≡ run) × (q.idempotency_key ≡ key)
unfolding has_key new_task
keys_of q id run key own = ground (arith, eq_iff q.graph_run_id run, eq_iff q.idempotency_key key)

absent :
    (q : TaskRequest) (id : ℕ) (ts : List AgentTask) (run key : String)
    → find? (has_key q.graph_run_id q.idempotency_key) ts ≡ none
    → has_key run key (new_task id q) ≡ true
    → where_all (has_key run key) ts ≡ []
absent q id ts run key new own =
    let (same_run, same_key) = keys_of q id run key own in
    rw (← same_run, ← same_key) (where_all_of_none _ ts new)

-- The key of a new row, as the table's other rows see it.
at_most_one :
    (q : TaskRequest) (id : ℕ) (ts : List AgentTask) (run key : String)
    → find? (has_key q.graph_run_id q.idempotency_key) ts ≡ none
    → length (where_all (has_key run key) ts) ≤ 1
    → length (where_all (has_key run key) ts ++ where_all (has_key run key) (new_task id q ∷ []))
      ≤ 1
unfolding where_all
at_most_one q id ts run key new h = elim (Bool-cases (has_key run key (new_task id q))) [
  | inr other ↦ rw (other, length-append) (omega arith)
  | inl own ↦ rw (own, absent q id ts run key new own) (omega arith)
]

-- If no two tasks share their run and key and every number is below the next, then so it is
-- after a creation.
pub create-IsKeyed : (q : TaskRequest) (db : TaskDb) → IsKeyed db → IsKeyed (create q db).1
create-IsKeyed q db h = elim (create_cases q db) [
  | inl (old, seen, p) ↦ rw p h
  | inr (new, p, rows, next, sent) ↦ record {
    once = λ run key.
        rw (rows, where_all-append)
          (at_most_one q db.next_task_id db.tasks run key new (h.once run key));
    numbered =
        rw (rows, next)
          (All-append (λ t. t.id < db.next_task_id + 1) db.tasks _
            (raised db.next_task_id db.tasks h.numbered) (unfold new_task in omega arith, tt));
  }
]
