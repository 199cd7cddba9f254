-- ===== src/StateDb/Events.antt =====
-- record_event, latest_events and record_seed_observation. `none` is the IntegrityError of an id that
-- is taken; the ids (uuid4) and the clock are arguments.
use s2afl.Prelude.{ℕ, String, Bool, Option, List, take, ltb, str_eq, filter}
use s2afl.Dict.{Dict, Json}
use s2afl.StateDb.Schema.{Db, EventRow, ObservationRow}
use s2afl.Table
use mathlib.Core.Option

abbrev pub event_key : EventRow → String
event_key r = r.event_id

unfoldable pub record_event :
    String → String → String → String → Dict Json → Option String → ℕ → Db → Option Db
record_event event_id kind subject protocol payload seed_id ts db =
    Option.map (λ rows. record db { events = rows })
      (Table.insert event_key
        (record {
          event_id = event_id;
          kind = kind;
          subject = subject;
          protocol = protocol;
          seed_id = seed_id;
          payload = payload;
          created_at = ts;
        })
        db.events)

abbrev newer : EventRow → EventRow → Bool
newer a b = ltb b.created_at a.created_at

unfoldable pub latest_events : String → ℕ → Db → List EventRow
latest_events kind limit db =
    take limit (Table.order_by newer (filter (λ (r : EventRow). str_eq r.kind kind) db.events))

abbrev pub observation_key : ObservationRow → String
observation_key r = r.observation_id

unfoldable pub record_seed_observation : ObservationRow → Db → Option Db
record_seed_observation row db =
    Option.map (λ rows. record db { seed_observations = rows })
      (Table.insert observation_key row db.seed_observations)
