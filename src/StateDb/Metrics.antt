-- ===== src/StateDb/Metrics.antt =====
-- update_metric, get_metric and add_llm_usage.
pub mod Usage
use Prim.Native.String.{◌++◌}
use s2afl.Prelude.{ℕ, String, Bool, true, false, Option, none, some, List, [], ◌∷◌, ◌+◌, ◌>>=◌}
use s2afl.Dict
use s2afl.Dict.{Dict, Json, null, bool, num, str, arr, obj}
use s2afl.StateDb.Schema.{Db, MetricRow}
use s2afl.StateDb.Events.{record_event}
use s2afl.Table
use mathlib.Core.Option

abbrev pub metric_key : MetricRow → String
metric_key r = r.metric_name

-- ON CONFLICT(metric_name) DO UPDATE SET metric_value, updated_at
on_conflict : MetricRow → MetricRow → MetricRow
on_conflict old excluded = record old {
  metric_value = excluded.metric_value;
  updated_at = excluded.updated_at;
}

unfoldable pub update_metric : String → Json → ℕ → Db → Db
unfolding on_conflict
update_metric name value now db = record db {
  metrics =
      Table.upsert metric_key on_conflict
        (record { metric_name = name; metric_value = value; updated_at = now }) db.metrics;
}

unfoldable pub get_metric : String → Json → Db → Json
get_metric name default db = elim (Table.find metric_key name db.metrics) [
  | none ↦ default
  | some r ↦ r.metric_value
]

-- int(json.loads(…)), or 0 where that raises. A bool is an int in Python; a text of digits would be
-- read too, but `add_llm_usage` writes numbers only.
as_int : Json → ℕ
as_int (num n) = n
as_int (bool b) = elim b [ true ↦ 1 | false ↦ 0 ]
as_int _ = 0

pub metric_name : String → String → String
metric_name name key = "llm_usage." ++ name ++ "." ++ key

add_usage : String → ℕ → Dict ℕ → Db → Db
unfolding update_metric as_int
add_usage name now [] db = db
add_usage name now ((key, delta) ∷ updates) db =
    let current = as_int (get_metric (metric_name name key) (num 0) db) in
    add_usage name now updates (update_metric (metric_name name key) (num (current + delta)) now db)

-- payload.get(key, ""): `none` for None, which the column does not take. The metadata has a text or
-- None there.
text_or_empty : Option Json → Option String
text_or_empty none = some ""
text_or_empty (some (str s)) = some s
text_or_empty (some _) = none

text_or_none : Option Json → Option String
text_or_none (some (str s)) = some s
text_or_none _ = none

-- The event, in a transaction of its own.
usage_event : String → Dict Json → ℕ → Db → Option Db
unfolding text_or_empty text_or_none
usage_event event_id payload now db = do
  subject ← text_or_empty (Dict.get "subject" payload)
  protocol ← text_or_empty (Dict.get "protocol" payload)
  record_event event_id "llm_usage" subject protocol payload
      (text_or_none (Dict.get "seed_id" payload)) now db

-- The state behind the call, and whether it returns: where the event raises, the counters are written.
unfoldable pub add_llm_usage : String → String → ℕ → ℕ → ℕ → ℕ → Dict Json → ℕ → Db → Db × Bool
unfolding add_usage usage_event
add_llm_usage event_id name input_tokens output_tokens reasoning_tokens calls metadata now db =
    let total_tokens = input_tokens + output_tokens in
    let payload =
      Dict.merge
        (("module", str name)
          ∷ ("calls", num calls)
          ∷ ("input_tokens", num input_tokens)
          ∷ ("output_tokens", num output_tokens)
          ∷ ("reasoning_tokens", num reasoning_tokens)
          ∷ ("total_tokens", num total_tokens)
          ∷ [])
        metadata in
    let updates =
      ("calls", calls)
      ∷ ("input_tokens", input_tokens)
      ∷ ("output_tokens", output_tokens)
      ∷ ("reasoning_tokens", reasoning_tokens)
      ∷ ("total_tokens", total_tokens)
      ∷ [] in
    let counted = add_usage name now updates db in
    elim (usage_event event_id payload now counted) [
      | none ↦ (counted, false)
      | some recorded ↦ (recorded, true)
    ]
