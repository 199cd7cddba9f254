-- ===== src/StateDb/Seeds/Merge.antt =====
-- Rediscovery of a seed, and the replay list.
use s2afl.Prelude.{
  ℕ, String, none, some, [], ◌≡◌, refl, arith, str_eq, str_eq_refl, eq_iff, if◌then◌else◌, In, ◌↔◌,
  filter, ◌≢◌, ◌≤◌, ◌∷◌, List, sym, ap, ◌∙◌, inl, inr, Bool-cases, filter-In, In-filter,
}
use s2afl.Dict
use s2afl.Dict.{Dict, Json, IsDict, get-merge}
use s2afl.StateDb.Schema.{Db, SeedRow}
use s2afl.StateDb.Seeds.{
  SeedRecord, seed_key, seed_row, existing_meta, on_conflict, get_seed_row, upsert_seed,
  mark_seed_replayed, list_unreplayed_seed_rows, unreplayed, seen_before,
}
use s2afl.Table
use s2afl.Table.Ordered.{Sorted, order_by-In, order_by-Sorted}
use s2afl.Table.Laws.{find-upsert}

-- The row under the seed's id after `upsert_seed`, and every other row.
get-upsert_seed :
    (s : SeedRecord) (j : String) (db : Db)
    → get_seed_row j (upsert_seed s db) ≡ (
        if str_eq s.seed_id j
        then elim (get_seed_row j db) [
          | none ↦ some (seed_row s (Dict.merge [] s.metadata))
          | some old ↦ some (record old {
            queue_path = s.queue_path;
            origin = s.origin;
            metadata = Dict.merge old.metadata s.metadata;
          })
        ]
        else get_seed_row j db)
unfolding get_seed_row upsert_seed
get-upsert_seed s j db = ground (
  arith,
  eq_iff s.seed_id j,
  find-upsert seed_key j on_conflict
      (seed_row s (Dict.merge (existing_meta (Table.find seed_key s.seed_id db.seeds)) s.metadata))
      db.seeds (λ old new. refl),
)

-- What `new` keeps of `old`.
abbrev pub KeepsHistory : SeedRow → SeedRow → Type 0
KeepsHistory old new =
    (new.seed_id ≡ old.seed_id)
    × (new.body_sha1 ≡ old.body_sha1)
    × (new.first_seen_at ≡ old.first_seen_at)
    × (new.last_replayed_at ≡ old.last_replayed_at)
    × (new.message_count ≡ old.message_count)

-- A seed that is found again keeps its history (first seen, last replayed, hash and message
-- count), takes the new queue path and origin, and merges its metadata: each key has the new
-- value, or the old one where the new metadata, a dict with distinct keys, lacks it.
pub upsert_seed-again :
    (s : SeedRecord) (db : Db) (old : SeedRow)
    → IsDict s.metadata
    → get_seed_row s.seed_id db ≡ some old
    → (new : SeedRow) × (get_seed_row s.seed_id (upsert_seed s db) ≡ some new)
      × KeepsHistory old new
      × (new.queue_path ≡ s.queue_path)
      × (new.origin ≡ s.origin)
      × ((k : String)
          → Dict.get k new.metadata
            ≡ elim (Dict.get k s.metadata) [ none ↦ Dict.get k old.metadata | some v ↦ some v ])
upsert_seed-again s db old d h = (
  record old {
    queue_path = s.queue_path;
    origin = s.origin;
    metadata = Dict.merge old.metadata s.metadata;
  },
  rw (get-upsert_seed s s.seed_id db, str_eq_refl s.seed_id, h) refl,
  (refl, refl, refl, refl, refl),
  refl,
  refl,
  λ k. get-merge k old.metadata s.metadata d,
)

list_unreplayed-Sorted :
    (db : Db)
    → ((r : SeedRow)
        → In r (list_unreplayed_seed_rows db) ↔ (In r db.seeds × (r.last_replayed_at ≡ 0)))
      × Sorted seen_before (list_unreplayed_seed_rows db)
unfolding list_unreplayed_seed_rows
list_unreplayed-Sorted db = (
  λ r. (
    λ m.
        let kept =
          filter-In unreplayed db.seeds r
            ((order_by-In seen_before r (filter unreplayed db.seeds)).0 m) in
        (kept.0, ground arith),
    λ (m, e).
        (order_by-In seen_before r (filter unreplayed db.seeds)).1
          (In-filter unreplayed db.seeds r m (ground arith)),
  ),
  order_by-Sorted seen_before
      (record { asym = λ a b h. ground arith; weak = λ a b c h k. ground arith })
      (filter unreplayed db.seeds),
)

abbrev replayed_at : ℕ → SeedRow → SeedRow
replayed_at when r = record r { last_replayed_at = when }

-- A row that is not replayed behind the statement is one of before, under another id.
unmarked :
    (seed_id : String) (when : ℕ) (rows : List SeedRow) (r : SeedRow)
    → 1 ≤ when
    → In r (Table.update seed_key seed_id (replayed_at when) rows)
    → r.last_replayed_at ≡ 0
    → In r rows × (r.seed_id ≢ seed_id)
unfolding Table.update
unmarked seed_id when [] r h m e = absurd m
unmarked seed_id when (x ∷ rows) r h (inr m) e =
    let (k, other) = unmarked seed_id when rows r h m e in (inr k, other)
unmarked seed_id when (x ∷ rows) r h (inl m) e = elim (Bool-cases (str_eq x.seed_id seed_id)) [
  | inl f ↦
      let same : r ≡ replayed_at when x = m ∙ rw f refl in
      let never : when ≡ 0 = sym (ap (λ (t : SeedRow). t.last_replayed_at) same) ∙ e in
      absurd (omega (arith, h, never))
  | inr f ↦
      let same : r ≡ x = m ∙ rw f refl in
      (
        inl same,
        λ id.
            let hit =
              (eq_iff x.seed_id seed_id).1 (sym (ap (λ (t : SeedRow). t.seed_id) same) ∙ id) in
            absurd (ground (arith, f, hit)),
      )
]

-- The statement leaves the rows under other ids.
left :
    (seed_id : String) (when : ℕ) (rows : List SeedRow) (r : SeedRow)
    → In r rows
    → r.seed_id ≢ seed_id
    → In r (Table.update seed_key seed_id (replayed_at when) rows)
unfolding Table.update
left seed_id when [] r m other = absurd m
left seed_id when (x ∷ rows) r (inr m) other = inr (left seed_id when rows r m other)
left seed_id when (x ∷ rows) r (inl e) other = elim (Bool-cases (str_eq x.seed_id seed_id)) [
  | inl f ↦ absurd (other (ap (λ (t : SeedRow). t.seed_id) e ∙ (eq_iff x.seed_id seed_id).0 f))
  | inr f ↦ inl (rw f e)
]

-- `mark_seed_replayed` with a time that is not 0 takes exactly the seed of the id off the replay
-- list, which stays in the order in which the seeds were first seen.
pub list_unreplayed-mark :
    (seed_id : String) (when : ℕ) (db : Db)
    → 1 ≤ when
    → ((r : SeedRow)
        → In r (list_unreplayed_seed_rows (mark_seed_replayed seed_id when db))
          ↔ (In r (list_unreplayed_seed_rows db) × (r.seed_id ≢ seed_id)))
      × Sorted seen_before (list_unreplayed_seed_rows (mark_seed_replayed seed_id when db))
unfolding mark_seed_replayed
list_unreplayed-mark seed_id when db h =
    let before = list_unreplayed-Sorted db in
    let after = list_unreplayed-Sorted (mark_seed_replayed seed_id when db) in
    (
      λ r. (
        λ m.
            let (k, fresh) = (after.0 r).0 m in
            let (old, other) = unmarked seed_id when db.seeds r h k fresh in
            ((before.0 r).1 (old, fresh), other),
        λ (m, other).
            let (k, fresh) = (before.0 r).0 m in
            (after.0 r).1 (left seed_id when db.seeds r k other, fresh),
      ),
      after.1,
    )
