-- ===== src/StateDb/Metrics/Usage.antt =====
-- The counters of `add_llm_usage`.
use Prim.Native.String.{◌++◌}
use text.Mathlib.TextLemmas.{append_cancel_left}
use s2afl.Prelude.{
  ℕ, String, Bool, true, false, Option, none, some, sym, ap, bind-some, [], ◌∷◌, ◌+◌, ◌≡◌, ◌∙◌,
  refl, arith, str_eq, eq_iff, if◌then◌else◌, ◌>>=◌,
}
use s2afl.Dict
use s2afl.Dict.{Dict, Json, num, str}
use s2afl.StateDb.Schema.{Db}
use s2afl.StateDb.Events.{record_event}
use s2afl.StateDb.Metrics.{
  metric_key, on_conflict, update_metric, get_metric, as_int, metric_name, text_or_empty,
  text_or_none, add_usage, usage_event, add_llm_usage,
}
use s2afl.Table
use s2afl.Table.{IsUnique}
use s2afl.Table.Laws.{find-upsert}

-- A metric has the value that was written last, and writing one leaves the others alone.
pub get-update_metric :
    (name other : String) (value default : Json) (now : ℕ) (db : Db)
    → get_metric other default (update_metric name value now db)
      ≡ (if str_eq name other then value else get_metric other default db)
unfolding get_metric update_metric
get-update_metric name other value default now db = ground (
  arith,
  eq_iff name other,
  find-upsert metric_key other on_conflict
      (record { metric_name = name; metric_value = value; updated_at = now }) db.metrics
      (λ a b. refl),
)

-- The names of two counters of one module differ if the keys do.
metric_name-injective :
    (name key other : String) → metric_name name key ≡ metric_name name other → key ≡ other
unfolding metric_name
metric_name-injective name key other e = append_cancel_left "." key other (
    append_cancel_left name ("." ++ key) ("." ++ other)
      (append_cancel_left "llm_usage." (name ++ "." ++ key) (name ++ "." ++ other) e))

metric_name-eq :
    (name key other : String)
    → str_eq (metric_name name key) (metric_name name other) ≡ str_eq key other
metric_name-eq name key other = ground (
  arith,
  eq_iff (metric_name name key) (metric_name name other),
  eq_iff key other,
  metric_name-injective name key other,
)

-- One counter of a module, 0 where there is none.
pub counter : String → String → Db → ℕ
unfolding as_int
counter name key db = as_int (get_metric (metric_name name key) (num 0) db)

counter_lem :
    (name key : String) (db : Db)
    → counter name key db ≡ as_int (get_metric (metric_name name key) (num 0) db)
unfolding counter
counter_lem name key db = refl

counter-update :
    (name key other : String) (v now : ℕ) (db : Db)
    → counter name other (update_metric (metric_name name key) (num v) now db)
      ≡ (if str_eq key other then v else counter name other db)
unfolding counter
counter-update name key other v now db =
    rw (get-update_metric (metric_name name key) (metric_name name other) (num v) (num 0) now db)
      (rw (metric_name-eq name key other) (ground arith))

-- The sum of the deltas under a key.
abbrev pub delta_of : String → Dict ℕ → ℕ
delta_of key [] = 0
delta_of key ((k, n) ∷ d) = (if str_eq k key then n else 0) + delta_of key d

counter-add_usage :
    (name : String) (now : ℕ) (updates : Dict ℕ) (db : Db) (key : String)
    → counter name key (add_usage name now updates db) ≡ counter name key db + delta_of key updates
unfolding add_usage
counter-add_usage name now [] db key = omega arith
counter-add_usage name now ((k, n) ∷ d) db key =
    let next =
      update_metric (metric_name name k)
        (num (as_int (get_metric (metric_name name k) (num 0) db) + n)) now db in
    ground (
      arith,
      counter-add_usage name now d next key,
      counter-update name k key (as_int (get_metric (metric_name name k) (num 0) db) + n) now db,
      eq_iff k key,
      counter_lem name k db,
    )

-- The metrics under an event are those before it.
metrics-record_event :
    (event_id kind subject protocol : String) (payload : Dict Json) (seed_id : Option String)
    (ts : ℕ) (db db' : Db)
    → record_event event_id kind subject protocol payload seed_id ts db ≡ some db'
    → db'.metrics ≡ db.metrics
unfolding record_event Table.insert
metrics-record_event event_id kind subject protocol payload seed_id ts db db' h = ground arith

pub get_metric-metrics :
    (name : String) (default : Json) (a b : Db)
    → a.metrics ≡ b.metrics
    → get_metric name default a ≡ get_metric name default b
unfolding get_metric
get_metric-metrics name default a b e = rw e refl

counter-metrics :
    (name key : String) (a b : Db) → a.metrics ≡ b.metrics → counter name key a ≡ counter name key b
unfolding counter
counter-metrics name key a b e =
    ap (λ (j : Json). as_int j) (get_metric-metrics (metric_name name key) (num 0) a b e)

usage_event-metrics :
    (event_id : String) (payload : Dict Json) (now : ℕ) (db db' : Db)
    → usage_event event_id payload now db ≡ some db'
    → db'.metrics ≡ db.metrics
unfolding usage_event
usage_event-metrics event_id payload now db db' h =
    let record_as : String → String → Option Db = λ subject protocol.
      record_event event_id "llm_usage" subject protocol payload
        (text_or_none (Dict.get "seed_id" payload)) now db in
    let (subject, (s, h2)) =
      bind-some (text_or_empty (Dict.get "subject" payload))
        (λ subject. text_or_empty (Dict.get "protocol" payload) >>= record_as subject) db' h in
    let (protocol, (p, h3)) =
      bind-some (text_or_empty (Dict.get "protocol" payload)) (record_as subject) db' h2 in
    metrics-record_event event_id "llm_usage" subject protocol payload
      (text_or_none (Dict.get "seed_id" payload)) now db db' h3

-- Whether the event is recorded or raises, the metrics are those of the first transaction.
metrics-behind :
    (o : Option Db) (counted : Db)
    → ((d : Db) → o ≡ some d → d.metrics ≡ counted.metrics)
    → (elim o as (λ _. Db × Bool) [ none ↦ (counted, false) | some d ↦ (d, true) ]).0.metrics
      ≡ counted.metrics
metrics-behind none counted h = refl
metrics-behind (some d) counted h = h d refl

-- Each call of `add_llm_usage`, also one whose event raises, adds its numbers to the counters of
-- the module: the calls, the input, output and reasoning tokens, and the sum of input and output
-- to the total.
pub add_llm_usage_lem :
    (event_id name : String) (input output reasoning calls : ℕ) (metadata : Dict Json) (now : ℕ)
    (db db' : Db) (returns : Bool)
    → add_llm_usage event_id name input output reasoning calls metadata now db ≡ (db', returns)
    → (counter name "calls" db' ≡ counter name "calls" db + calls)
      × (counter name "input_tokens" db' ≡ counter name "input_tokens" db + input)
      × (counter name "output_tokens" db' ≡ counter name "output_tokens" db + output)
      × (counter name "reasoning_tokens" db' ≡ counter name "reasoning_tokens" db + reasoning)
      × (counter name "total_tokens" db' ≡ counter name "total_tokens" db + (input + output))
unfolding add_llm_usage
add_llm_usage_lem event_id name input output reasoning calls metadata now db db' returns h =
    let updates : Dict ℕ =
      ("calls", calls)
      ∷ ("input_tokens", input)
      ∷ ("output_tokens", output)
      ∷ ("reasoning_tokens", reasoning)
      ∷ ("total_tokens", input + output)
      ∷ [] in
    let counted = add_usage name now updates db in
    let payload =
      Dict.merge
        (("module", str name)
          ∷ ("calls", num calls)
          ∷ ("input_tokens", num input)
          ∷ ("output_tokens", num output)
          ∷ ("reasoning_tokens", num reasoning)
          ∷ ("total_tokens", num (input + output))
          ∷ [])
        metadata in
    let same : db'.metrics ≡ counted.metrics =
      ap (λ (t : Db × Bool). t.0.metrics) (sym h)
      ∙ metrics-behind (usage_event event_id payload now counted) counted
          (λ d e. usage_event-metrics event_id payload now counted d e) in
    let adds : (key : String) → counter name key db' ≡ counter name key db + delta_of key updates =
      λ key.
        counter-metrics name key db' counted same ∙ counter-add_usage name now updates db key in
    (
      omega (arith, adds "calls"),
      omega (arith, adds "input_tokens"),
      omega (arith, adds "output_tokens"),
      omega (arith, adds "reasoning_tokens"),
      omega (arith, adds "total_tokens"),
    )
