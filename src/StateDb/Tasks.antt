-- ===== src/StateDb/Tasks.antt =====
-- The task methods: creation, the claim of the next task, its end, and the counts that the scheduler
-- reads. `if kind:` takes the empty text for no kind.
pub mod Claim
pub mod Counts
pub mod Streak
use s2afl.Prelude.{
  ℕ, String, Bool, true, false, Option, none, some, List, [], ◌∷◌, ◌+◌, ltb, ◌==◌, ◌&&◌, ◌||◌, not,
  str_eq, filter, length, take, if◌then◌else◌,
}
use s2afl.Dict
use s2afl.Dict.{Dict, Json, null, bool, num, str, arr, obj}
use s2afl.StateDb.Schema.{Db, TaskRow, SeedRow}
use s2afl.StateDb.Seeds.{seed_key}
use s2afl.Table
use mathlib.Core.Option

abbrev pub task_key : TaskRow → String
task_key r = r.task_id

-- The values of the INSERT: attempt 1, 'pending', no lease, result '{}'.
abbrev pub new_task :
    String → String → String → String → String → String → ℕ → Dict Json → ℕ → TaskRow
new_task task_id kind protocol subject seed_id target_id priority payload now = record {
  task_id = task_id;
  kind = kind;
  protocol = protocol;
  subject = subject;
  seed_id = seed_id;
  target_id = target_id;
  attempt = 1;
  status = "pending";
  leased_by = "";
  priority = priority;
  payload = payload;
  result = [];
  created_at = now;
  updated_at = now;
}

unfoldable pub create_task :
    String → String → String → String → String → String → ℕ → Dict Json → ℕ → Db → Option Db
create_task task_id kind protocol subject seed_id target_id priority payload now db =
    Option.map (λ rows. record db { tasks = rows })
      (Table.insert task_key
        (new_task task_id kind protocol subject seed_id target_id priority payload now) db.tasks)

abbrev pub is_pending : TaskRow → Bool
is_pending r = str_eq r.status "pending"

-- ORDER BY priority ASC, created_at ASC
abbrev pub claims_before : TaskRow → TaskRow → Bool
claims_before a b =
    ltb a.priority b.priority || (a.priority == b.priority) && ltb a.created_at b.created_at

abbrev pub lease : String → ℕ → TaskRow → TaskRow
lease worker now r = record r { status = "leased"; leased_by = worker; updated_at = now }

-- The row is the one that was read, before the UPDATE.
unfoldable pub claim_next_task : String → ℕ → Db → Option TaskRow × Db
claim_next_task worker now db = elim (Table.first_by claims_before (filter is_pending db.tasks)) [
  | none ↦ (none, db)
  | some row ↦ (
    some row,
    record db { tasks = Table.update task_key row.task_id (lease worker now) db.tasks },
  )
]

unfoldable pub finish_task : String → String → Dict Json → ℕ → Db → Db
finish_task task_id status result now db = record db {
  tasks =
      Table.update task_key task_id
        (λ r. record r { status = status; result = result; updated_at = now }) db.tasks;
}

abbrev pub is_active : TaskRow → Bool
is_active r = str_eq r.status "pending" || str_eq r.status "leased"

abbrev pub kind_matches : Option String → TaskRow → Bool
kind_matches none r = true
kind_matches (some kind) r = if str_eq kind "" then true else str_eq r.kind kind

unfoldable pub has_active_task_for_target : String → Option String → Db → Bool
has_active_task_for_target target_id kind db =
    Table.exists (λ r. str_eq r.target_id target_id && kind_matches kind r && is_active r) db.tasks

unfoldable pub count_tasks_for_target : String → Option String → Db → ℕ
count_tasks_for_target target_id kind db =
    Table.count (λ r. str_eq r.target_id target_id && kind_matches kind r) db.tasks

-- COALESCE(json_extract(json, '$.key'), ''), compared with a text: only a text, or no value, is equal
-- to one. (An array or an object is extracted as its JSON text, which is no name of a module or batch.)
abbrev pub extract_eq : Option Json → String → Bool
extract_eq none t = str_eq "" t
extract_eq (some null) t = str_eq "" t
extract_eq (some (str s)) t = str_eq s t
extract_eq (some _) t = false

-- LEFT JOIN seeds AS s ON s.seed_id=t.seed_id
abbrev seed_module_matches : String → Db → TaskRow → Bool
seed_module_matches name db r = elim (Table.find seed_key r.seed_id db.seeds) [
  | none ↦ str_eq "" name
  | some s ↦ extract_eq (Dict.get "task_kind" s.metadata) name
]

unfoldable pub count_tasks_for_target_module : String → String → String → Db → ℕ
count_tasks_for_target_module target_id kind name db =
    Table.count
      (λ r. str_eq r.target_id target_id && str_eq r.kind kind && seed_module_matches name db r)
      db.tasks

bump : String → Dict ℕ → Dict ℕ
bump k d = Dict.put k (elim (Dict.get k d) [ none ↦ 0 | some n ↦ n ] + 1) d

-- SELECT status, COUNT(*) … GROUP BY status
group_by_status : List TaskRow → Dict ℕ
group_by_status [] = []
group_by_status (r ∷ rows) = bump r.status (group_by_status rows)

-- sum(counts.values())
sum_values : Dict ℕ → ℕ
sum_values [] = 0
sum_values ((k, n) ∷ d) = n + sum_values d

abbrev pub in_batch : String → Option String → TaskRow → Bool
in_batch batch_id kind r =
    kind_matches kind r && extract_eq (Dict.get "batch_id" r.payload) batch_id

unfoldable pub task_batch_status_counts : String → Option String → Db → Dict ℕ
unfolding bump group_by_status sum_values
task_batch_status_counts batch_id kind db =
    if str_eq batch_id ""
    then []
    else let counts = group_by_status (filter (in_batch batch_id kind) db.tasks) in
      Dict.put "total" (sum_values counts) counts

unfoldable pub has_task_for_target_seed : String → String → Option String → Db → Bool
has_task_for_target_seed target_id seed_id kind db =
    if str_eq target_id "" || str_eq seed_id ""
    then false
    else Table.exists
        (λ r. str_eq r.target_id target_id && str_eq r.seed_id seed_id && kind_matches kind r)
        db.tasks
