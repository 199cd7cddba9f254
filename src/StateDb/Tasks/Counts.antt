-- ===== src/StateDb/Tasks/Counts.antt =====
-- The counts that the scheduler reads.
use s2afl.Prelude.{
  ℕ, String, Option, none, some, List, [], ◌∷◌, ◌+◌, ◌≡◌, ◌≢◌, refl, arith, str_eq, eq_iff, filter,
  length, if◌then◌else◌,
}
use s2afl.Dict
use s2afl.Dict.{Dict, Json, get-put}
use s2afl.StateDb.Schema.{Db, TaskRow}
use s2afl.StateDb.Tasks.{in_batch, bump, group_by_status, sum_values, task_batch_status_counts}
use s2afl.Table

-- The number of the rows with a status.
abbrev pub with_status : String → List TaskRow → ℕ
with_status status rows = Table.count (λ (r : TaskRow). str_eq r.status status) rows

abbrev pub value_or_zero : Option ℕ → ℕ
value_or_zero none = 0
value_or_zero (some n) = n

get-bump :
    (k j : String) (d : Dict ℕ)
    → value_or_zero (Dict.get j (bump k d))
      ≡ (if str_eq k j then value_or_zero (Dict.get j d) + 1 else value_or_zero (Dict.get j d))
unfolding bump
get-bump k j d =
    ground (arith, eq_iff k j, get-put k j (elim (Dict.get k d) [ none ↦ 0 | some n ↦ n ] + 1) d)

sum_values-put :
    (k : String) (n : ℕ) (d : Dict ℕ)
    → sum_values (Dict.put k n d) + value_or_zero (Dict.get k d) ≡ sum_values d + n
unfolding sum_values Dict.put Dict.get
sum_values-put k n [] = omega arith
sum_values-put k n ((j, m) ∷ d) = ground (arith, sum_values-put k n d)

sum_values-bump : (k : String) (d : Dict ℕ) → sum_values (bump k d) ≡ sum_values d + 1
unfolding bump
sum_values-bump k d =
    ground (arith, sum_values-put k (elim (Dict.get k d) [ none ↦ 0 | some n ↦ n ] + 1) d)

get-group_by_status :
    (status : String) (rows : List TaskRow)
    → value_or_zero (Dict.get status (group_by_status rows)) ≡ with_status status rows
unfolding group_by_status Table.count Dict.get
get-group_by_status status [] = refl
get-group_by_status status (r ∷ rows) =
    ground (arith, get-bump r.status status (group_by_status rows), get-group_by_status status rows)

sum-group_by_status : (rows : List TaskRow) → sum_values (group_by_status rows) ≡ length rows
unfolding group_by_status sum_values
sum-group_by_status [] = refl
sum-group_by_status (r ∷ rows) =
    omega (arith, sum_values-bump r.status (group_by_status rows), sum-group_by_status rows)

-- For a batch with an id, "total" counts all its tasks, and any other status counts its tasks of
-- that status, 0 where the dict has no such key.
pub task_batch_status_counts_lem :
    (batch_id : String) (kind : Option String) (status : String) (db : Db)
    → batch_id ≢ ""
    → value_or_zero (Dict.get status (task_batch_status_counts batch_id kind db)) ≡ (
        if str_eq "total" status
        then length (filter (in_batch batch_id kind) db.tasks)
        else with_status status (filter (in_batch batch_id kind) db.tasks))
unfolding task_batch_status_counts
task_batch_status_counts_lem batch_id kind status db named = ground (
  arith,
  eq_iff batch_id "",
  get-put "total" status (sum_values (group_by_status (filter (in_batch batch_id kind) db.tasks)))
      (group_by_status (filter (in_batch batch_id kind) db.tasks)),
  sum-group_by_status (filter (in_batch batch_id kind) db.tasks),
  get-group_by_status status (filter (in_batch batch_id kind) db.tasks),
)
