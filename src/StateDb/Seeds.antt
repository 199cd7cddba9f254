-- ===== src/StateDb/Seeds.antt =====
-- The seed methods. The look-ups by LIKE patterns on JSON text are not modelled.
pub mod Merge
use s2afl.Prelude.{ℕ, String, Bool, Option, none, some, List, [], ltb, ◌==◌, str_eq, filter}
use s2afl.Dict
use s2afl.Dict.{Dict, Json}
use s2afl.StateDb.Schema.{Db, SeedRow}
use s2afl.Table

-- `SeedRecord` of models.py.
pub record SeedRecord : Type 0 where
  pub seed_id : String
  pub queue_path : String
  pub origin : String
  pub protocol : String
  pub subject : String
  pub methods : List String
  pub message_count : ℕ
  pub body_sha1 : String
  pub size_bytes : ℕ
  pub first_seen_at : ℕ
  pub metadata : Dict Json

abbrev pub seed_key : SeedRow → String
seed_key r = r.seed_id

unfoldable pub get_seed_row : String → Db → Option SeedRow
get_seed_row seed_id db = Table.find seed_key seed_id db.seeds

-- The metadata of the row that is there, or {}.
existing_meta : Option SeedRow → Dict Json
existing_meta none = []
existing_meta (some row) = row.metadata

seed_row : SeedRecord → Dict Json → SeedRow
seed_row s meta = record {
  seed_id = s.seed_id;
  queue_path = s.queue_path;
  origin = s.origin;
  protocol = s.protocol;
  subject = s.subject;
  methods = s.methods;
  message_count = s.message_count;
  body_sha1 = s.body_sha1;
  size_bytes = s.size_bytes;
  first_seen_at = s.first_seen_at;
  last_replayed_at = 0;
  metadata = meta;
}

-- ON CONFLICT(seed_id) DO UPDATE SET queue_path, origin, metadata_json
on_conflict : SeedRow → SeedRow → SeedRow
on_conflict old excluded = record old {
  queue_path = excluded.queue_path;
  origin = excluded.origin;
  metadata = excluded.metadata;
}

unfoldable pub upsert_seed : SeedRecord → Db → Db
unfolding existing_meta seed_row on_conflict
upsert_seed seed db =
    let merged_meta =
      Dict.merge (existing_meta (Table.find seed_key seed.seed_id db.seeds)) seed.metadata in
    record db { seeds = Table.upsert seed_key on_conflict (seed_row seed merged_meta) db.seeds }

unfoldable pub mark_seed_replayed : String → ℕ → Db → Db
mark_seed_replayed seed_id when db = record db {
  seeds = Table.update seed_key seed_id (λ r. record r { last_replayed_at = when }) db.seeds;
}

unfoldable pub update_seed_metadata : String → Dict Json → Db → Db
update_seed_metadata seed_id updates db = elim (Table.find seed_key seed_id db.seeds) [
  | none ↦ db
  | some row ↦ record db {
    seeds =
        Table.update seed_key seed_id (λ r. record r { metadata = Dict.merge row.metadata updates })
          db.seeds;
  }
]

unfoldable pub has_seed_body_sha1 : String → Db → Bool
has_seed_body_sha1 body_sha1 db =
    Table.exists (λ (r : SeedRow). str_eq r.body_sha1 body_sha1) db.seeds

abbrev pub seen_before : SeedRow → SeedRow → Bool
seen_before a b = ltb a.first_seen_at b.first_seen_at

abbrev pub unreplayed : SeedRow → Bool
unreplayed r = r.last_replayed_at == 0

unfoldable pub list_unreplayed_seed_rows : Db → List SeedRow
list_unreplayed_seed_rows db = Table.order_by seen_before (filter unreplayed db.seeds)
