-- ===== src/StateDb/Tasks/Claim.antt =====
-- What the claim of the next task returns.
pub mod Runs
use mathlib.Core.Path.{subst}
use mathlib.Core.Option
use mathlib.Core.Option.{some-injective}
use s2afl.Prelude.{
  ℕ, String, Bool, true, false, Option, none, some, List, [], ◌∷◌, ◌≡◌, ◌≢◌, ◌↔◌, refl, sym, ap,
  ◌∙◌, inl, inr, arith, str_eq, str_eq_refl, eq_iff, filter, if◌then◌else◌, In, All, All-In,
  In-filter, filter-In, Bool-cases, Option-cases,
}
use s2afl.Dict.{Dict, Json}
use s2afl.StateDb.Schema.{Db, TaskRow}
use s2afl.StateDb.Tasks.{
  task_key, new_task, create_task, is_pending, claims_before, lease, claim_next_task, finish_task,
}
use s2afl.Table
use s2afl.Table.{IsUnique}
use s2afl.Table.Laws.{
  find-update, find_of_In, find-insert, has_key-false, insert-IsUnique, update-IsUnique,
}
use s2afl.Table.Ordered.{IsOrder, first_by-In, first_by-none, first_by-least}

claims_before-IsOrder : IsOrder claims_before
claims_before-IsOrder = record { asym = λ a b h. ground arith; weak = λ a b c h k. ground arith }

-- The row that a claim selects.
abbrev next_pending : Db → Option TaskRow
next_pending db = Table.first_by claims_before (filter is_pending db.tasks)

claim_selects :
    (worker : String) (now : ℕ) (db : Db) (row : TaskRow)
    → (claim_next_task worker now db).0 ≡ some row
    → next_pending db ≡ some row
unfolding claim_next_task
claim_selects worker now db row h = ground arith

claim_leases :
    (worker : String) (now : ℕ) (db : Db) (row : TaskRow)
    → (claim_next_task worker now db).0 ≡ some row
    → (claim_next_task worker now db).1.tasks
      ≡ Table.update task_key row.task_id (lease worker now) db.tasks
unfolding claim_next_task
claim_leases worker now db row h = ground arith

claim-pending :
    (worker : String) (now : ℕ) (db : Db) (row : TaskRow)
    → (claim_next_task worker now db).0 ≡ some row
    → In row db.tasks × (is_pending row ≡ true)
claim-pending worker now db row h =
    filter-In is_pending db.tasks row
      (first_by-In claims_before _ row (claim_selects worker now db row h))

-- A claimed row is a pending row of the table, no pending row comes before it by priority and age,
-- it is leased to the worker afterwards, and every other task keeps its row, where the ids are
-- unique.
pub claim_next_task_sound :
    (worker : String) (now : ℕ) (db : Db) (row : TaskRow)
    → IsUnique task_key db.tasks
    → (claim_next_task worker now db).0 ≡ some row
    → In row db.tasks
      × (row.status ≡ "pending")
      × ((t : TaskRow) → In t db.tasks → is_pending t ≡ true → claims_before t row ≡ false)
      × (Table.find task_key row.task_id (claim_next_task worker now db).1.tasks
          ≡ some (lease worker now row))
      × ((j : String)
          → row.task_id ≢ j
          → Table.find task_key j (claim_next_task worker now db).1.tasks
            ≡ Table.find task_key j db.tasks)
claim_next_task_sound worker now db row u h =
    let found = claim-pending worker now db row h in
    let at : Table.find task_key row.task_id db.tasks ≡ some row =
      find_of_In task_key row db.tasks u found.0 in
    (
      found.0,
      (eq_iff row.status "pending").0 found.1,
      λ t m p.
          All-In _ (filter is_pending db.tasks)
            (first_by-least claims_before claims_before-IsOrder _ row
              (claim_selects worker now db row h))
            (In-filter is_pending db.tasks t m p),
      rw (claim_leases worker now db row h) (
          rw (find-update task_key row.task_id row.task_id (lease worker now) db.tasks (λ r. refl))
            (rw (str_eq_refl row.task_id, at) refl)),
      λ j ne. rw (claim_leases worker now db row h) (
          rw (find-update task_key row.task_id j (lease worker now) db.tasks (λ r. refl))
            (ground (arith, eq_iff row.task_id j))),
    )

-- No row passes a test that keeps none.
filter-nil :
    (p : TaskRow → Bool) (rows : List TaskRow)
    → ((t : TaskRow) → In t rows → p t ≡ false)
    → filter p rows ≡ []
filter-nil p [] h = refl
filter-nil p (r ∷ rows) h = rw (h r (inl refl)) (filter-nil p rows (λ t m. h t (inr m)))

-- A claim comes back with nothing, and changes nothing, exactly when no task is pending.
pub claim_next_task-none :
    (worker : String) (now : ℕ) (db : Db)
    → (claim_next_task worker now db ≡ (none, db))
      ↔ ((t : TaskRow) → In t db.tasks → is_pending t ≡ false)
unfolding claim_next_task
claim_next_task-none worker now db = (
  λ e t m.
      let idle : next_pending db ≡ none = ground arith in
      elim (Bool-cases (is_pending t)) [
        | inl p ↦ absurd (
            subst (In t) (first_by-none claims_before _ idle) (In-filter is_pending db.tasks t m p))
        | inr p ↦ p
      ],
  λ all. rw (claim_next_task, filter-nil is_pending db.tasks all) (unfold Table.first_by in refl),
)
