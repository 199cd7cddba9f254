-- ===== src/StateDb/Tasks/Claim/Runs.antt =====
-- Histories of the task table: no task is handed out twice.
use mathlib.Core.Path.{subst}
use mathlib.Core.Option
use mathlib.Core.Option.{some-injective}
use s2afl.Prelude.{
  ℕ, String, true, false, Option, none, some, List, [], ◌∷◌, ◌≡◌, ◌≢◌, refl, sym, ap, ◌∙◌, inl, inr,
  arith, str_eq, eq_iff, if◌then◌else◌, All, Bool-cases,
}
use s2afl.Dict.{Dict, Json}
use s2afl.StateDb.Schema.{Db, TaskRow}
use s2afl.StateDb.Tasks.{
  task_key, new_task, create_task, is_pending, lease, claim_next_task, finish_task,
}
use s2afl.Table
use s2afl.Table.{IsUnique}
use s2afl.Table.Laws.{
  find-update, find_of_In, find-insert, has_key-false, insert-IsUnique, update-IsUnique,
}
use s2afl.StateDb.Tasks.Claim.{claim_leases, claim-pending, claim_next_task_sound}

-- What the threads do to the task table, the ids of the claimed tasks in order of time. The statuses
-- that `finish_task` is called with are "completed" and "failed".
pub data Run : Db → List String → Db → Type 0 where
  stop : (db : Db) → Run db [] db
  create :
      (task_id kind protocol subject seed_id target_id : String) (priority : ℕ)
      (payload : Dict Json) (now : ℕ) (db db' : Db) {ids : List String} {last : Db}
      → create_task task_id kind protocol subject seed_id target_id priority payload now db
        ≡ some db'
      → Run db' ids last
      → Run db ids last
  claim :
      (worker : String) (now : ℕ) (db : Db) (row : TaskRow) {ids : List String} {last : Db}
      → (claim_next_task worker now db).0 ≡ some row
      → Run (claim_next_task worker now db).1 ids last
      → Run db (row.task_id ∷ ids) last
  finish :
      (task_id status : String) (result : Dict Json) (now : ℕ) (db : Db) {ids : List String}
      {last : Db}
      → str_eq status "pending" ≡ false
      → Run (finish_task task_id status result now db) ids last
      → Run db ids last

-- The task is in the table and waits no more.
abbrev Settled : String → Db → Type 0
Settled j db = (r : TaskRow) × (Table.find task_key j db.tasks ≡ some r) × (is_pending r ≡ false)

map_tasks :
    (db db' : Db) (o : Option (List TaskRow))
    → Option.map (λ rows. record db { tasks = rows }) o ≡ some db'
    → o ≡ some db'.tasks
map_tasks db db' none h = cc
map_tasks db db' (some rows) h = ap (λ (d : Db). some d.tasks) (some-injective _ _ h)

module _ (task_id kind protocol subject seed_id target_id : String) (priority : ℕ)
    (payload : Dict Json) (now : ℕ) (db db' : Db)
    (created : create_task task_id kind protocol subject seed_id target_id priority payload now db
      ≡ some db') where
  -- A created task stands in the table as a pending one, and the other tasks keep their rows.
  pub find-create_task :
      (j : String)
      → Table.find task_key j db'.tasks ≡ (
          if str_eq task_id j
          then some (new_task task_id kind protocol subject seed_id target_id priority payload now)
          else Table.find task_key j db.tasks)
  unfolding create_task
  find-create_task j =
      find-insert task_key j
        (new_task task_id kind protocol subject seed_id target_id priority payload now) db.tasks
        db'.tasks (map_tasks db db' _ created)

  pub create_task-IsUnique : IsUnique task_key db.tasks → IsUnique task_key db'.tasks
  unfolding create_task
  create_task-IsUnique =
      insert-IsUnique task_key
        (new_task task_id kind protocol subject seed_id target_id priority payload now) db.tasks
        db'.tasks (map_tasks db db' _ created)

  -- The id of a new task was free.
  pub create_task-free : Table.find task_key task_id db.tasks ≡ none
  unfolding create_task Table.insert
  create_task-free = has_key-false task_key task_id db.tasks (ground arith)

  create-Settled : (j : String) → Settled j db → Settled j db'
  create-Settled j s =
      (s.0, ground (arith, find-create_task j, create_task-free, eq_iff task_id j, s.1), s.2)

module _ (worker : String) (now : ℕ) (db : Db) (row : TaskRow) where
  claim-Settled :
      (j : String)
      → (claim_next_task worker now db).0 ≡ some row
      → Settled j db
      → Settled j (claim_next_task worker now db).1
  claim-Settled j h s = (
    (if str_eq row.task_id j then lease worker now s.0 else s.0),
    rw (claim_leases worker now db row h) (
        rw (find-update task_key row.task_id j (lease worker now) db.tasks (λ r. refl))
          (ground (arith, s.1))),
    elim (Bool-cases (str_eq row.task_id j)) [ inl e ↦ rw e refl | inr e ↦ rw e s.2 ],
  )

  claimed-Settled :
      IsUnique task_key db.tasks
      → (claim_next_task worker now db).0 ≡ some row
      → Settled row.task_id (claim_next_task worker now db).1
  claimed-Settled u h =
      (lease worker now row, (claim_next_task_sound worker now db row u h).3, refl)

  claim-IsUnique :
      IsUnique task_key db.tasks
      → (claim_next_task worker now db).0 ≡ some row
      → IsUnique task_key (claim_next_task worker now db).1.tasks
  claim-IsUnique u h =
      rw (claim_leases worker now db row h)
        (update-IsUnique task_key row.task_id (lease worker now) db.tasks (λ r. refl) u)

  -- What is handed out was not settled.
  claim-fresh :
      (j : String)
      → IsUnique task_key db.tasks
      → (claim_next_task worker now db).0 ≡ some row
      → Settled j db
      → row.task_id ≢ j
  claim-fresh j u h s e =
      let found = claim-pending worker now db row h in
      let at : Table.find task_key row.task_id db.tasks ≡ some row =
        find_of_In task_key row db.tasks u found.0 in
      let same : some row ≡ some s.0 = sym at ∙ rw e s.1 in
      let one : row ≡ s.0 = some-injective _ _ same in
      let waits : is_pending s.0 ≡ true = subst (λ r. is_pending r ≡ true) one found.1 in
      cc (waits, s.2)

finish-Settled :
    (task_id status : String) (result : Dict Json) (now : ℕ) (db : Db) (j : String)
    → str_eq status "pending" ≡ false
    → Settled j db
    → Settled j (finish_task task_id status result now db)
unfolding finish_task
finish-Settled task_id status result now db j f s = (
  (if str_eq task_id j
      then record s.0 { status = status; result = result; updated_at = now }
      else s.0),
  rw
      (find-update task_key task_id j
        (λ r. record r { status = status; result = result; updated_at = now }) db.tasks (λ r. refl))
      (ground (arith, s.1)),
  ground (arith, s.2, f),
)

-- None of the ids.
abbrev Lacks : String → List String → Type 0
Lacks j ids = All (λ i. i ≢ j) ids

Run-fresh :
    {db last : Db} {ids : List String} (j : String)
    → Run db ids last
    → IsUnique task_key db.tasks
    → Settled j db
    → Lacks j ids
Run-fresh j (stop _) u s = tt
Run-fresh j (create i k p su se ta pr pa n db db' made r) u s =
    Run-fresh j r (create_task-IsUnique i k p su se ta pr pa n db db' made u)
      (create-Settled i k p su se ta pr pa n db db' made j s)
Run-fresh j (claim w n db row h r) u s = (
  claim-fresh w n db row j u h s,
  Run-fresh j r (claim-IsUnique w n db row u h) (claim-Settled w n db row j h s),
)
Run-fresh j (finish i st re n db f r) u s =
    Run-fresh j r (unfold finish_task in update-IsUnique task_key i _ db.tasks (λ x. refl) u)
      (finish-Settled i st re n db j f s)

-- Distinct ids.
abbrev pub Distinct : List String → Type 0
Distinct [] = Unit
Distinct (j ∷ ids) = Lacks j ids × Distinct ids

-- Over every history of task creations, claims and ends, by any number of workers, in which no
-- task is finished with the status "pending", no task id is handed out twice, if the ids of the
-- table are unique at the start.
pub Run-Distinct :
    {db last : Db} {ids : List String} → Run db ids last → IsUnique task_key db.tasks → Distinct ids
Run-Distinct (stop _) u = tt
Run-Distinct (create i k p su se ta pr pa n db db' made r) u =
    Run-Distinct r (create_task-IsUnique i k p su se ta pr pa n db db' made u)
Run-Distinct (claim w n db row h r) u =
    let v = claim-IsUnique w n db row u h in
    (Run-fresh row.task_id r v (claimed-Settled w n db row u h), Run-Distinct r v)
Run-Distinct (finish i st re n db f r) u =
    Run-Distinct r (unfold finish_task in update-IsUnique task_key i _ db.tasks (λ x. refl) u)

claim_none :
    (worker : String) (now : ℕ) (db : Db)
    → (claim_next_task worker now db).0 ≡ none
    → (claim_next_task worker now db).1 ≡ db
unfolding claim_next_task
claim_none worker now db e = ground arith
