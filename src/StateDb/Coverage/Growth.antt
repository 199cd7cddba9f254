-- ===== src/StateDb/Coverage/Growth.antt =====
-- Coverage only grows.
use s2afl.Prelude.{
  ℕ, String, Option, none, some, List, [], ◌∷◌, ◌+◌, ◌≡◌, refl, arith, str_eq, eq_iff,
  if◌then◌else◌, any,
}
use s2afl.StateDb.Schema.{Db, LineRow, BranchRow}
use s2afl.StateDb.Coverage.{LineKey, line_row_key, note_line, note_lines, note_covered_lines}
use s2afl.Table
use s2afl.Table.{IsUnique}
use s2afl.Table.Laws.{find-append, find-update}

-- One more hit.
abbrev pub hit : String → ℕ → LineRow → LineRow
hit seed_id now r = record r {
  last_seed_id = seed_id;
  last_seen_at = now;
  hit_count = r.hit_count + 1;
}

-- The row of a line that is seen for the first time.
abbrev pub first_hit : String → ℕ → LineKey → LineRow
first_hit seed_id now k = record {
  line_key = k.line_key;
  relative_path = k.relative_path;
  line = k.line_no;
  first_seed_id = seed_id;
  first_seen_at = now;
  last_seed_id = seed_id;
  last_seen_at = now;
  hit_count = 1;
}

find-note_line :
    (seed_id : String) (now : ℕ) (k : LineKey) (rows : List LineRow) (j : String)
    → Table.find line_row_key j (note_line seed_id now k rows) ≡ (
        if str_eq k.line_key j
        then elim (Table.find line_row_key j rows) [
          | none ↦ some (first_hit seed_id now k)
          | some r ↦ some (hit seed_id now r)
        ]
        else Table.find line_row_key j rows)
unfolding note_line
find-note_line seed_id now k rows j = ground (
  arith,
  eq_iff k.line_key j,
  find-update line_row_key k.line_key j (hit seed_id now) rows (λ r. refl),
  find-append line_row_key j rows (first_hit seed_id now k ∷ []),
  find-one seed_id now k j,
)
  where
    find-one :
        (seed_id : String) (now : ℕ) (k : LineKey) (j : String)
        → Table.find line_row_key j (first_hit seed_id now k ∷ [])
          ≡ (if str_eq k.line_key j then some (first_hit seed_id now k) else none)
    find-one seed_id now k j = unfold Table.find in refl

-- How often the key stands in the list.
abbrev pub occurrences : String → List LineKey → ℕ
occurrences j [] = 0
occurrences j (k ∷ keys) = (if str_eq k.line_key j then 1 else 0) + occurrences j keys

abbrev pub hits : Option LineRow → ℕ
hits none = 0
hits (some r) = r.hit_count

hits-note_lines :
    (seed_id : String) (now : ℕ) (keys : List LineKey) (rows : List LineRow) (j : String)
    → hits (Table.find line_row_key j (note_lines seed_id now keys rows))
      ≡ hits (Table.find line_row_key j rows) + occurrences j keys
unfolding note_lines
hits-note_lines seed_id now [] rows j = omega arith
hits-note_lines seed_id now (k ∷ keys) rows j = ground (
  arith,
  hits-note_lines seed_id now keys (note_line seed_id now k rows) j,
  find-note_line seed_id now k rows j,
)

-- The hit count of every line key grows by the number of times that the replay reports the key.
pub note_covered_lines-hits :
    (seed_id : String) (now : ℕ) (keys : List LineKey) (db : Db) (j : String)
    → hits (Table.find line_row_key j (note_covered_lines seed_id now keys db).coverage_lines)
      ≡ hits (Table.find line_row_key j db.coverage_lines) + occurrences j keys
unfolding note_covered_lines
note_covered_lines-hits seed_id now keys db j = hits-note_lines seed_id now keys db.coverage_lines j

-- Where the line was first covered.
abbrev pub first_cover : Option LineRow → Option (String × ℕ)
first_cover none = none
first_cover (some r) = some (r.first_seed_id, r.first_seen_at)

first-note_lines :
    (seed_id : String) (now : ℕ) (keys : List LineKey) (rows : List LineRow) (j : String)
    → first_cover (Table.find line_row_key j (note_lines seed_id now keys rows))
      ≡ elim (first_cover (Table.find line_row_key j rows)) [
        | some f ↦ some f
        | none ↦
            if any (λ (k : LineKey). str_eq k.line_key j) keys then some (seed_id, now) else none
      ]
unfolding note_lines
first-note_lines seed_id now [] rows j = ground arith
first-note_lines seed_id now (k ∷ keys) rows j = ground (
  arith,
  first-note_lines seed_id now keys (note_line seed_id now k rows) j,
  find-note_line seed_id now k rows j,
)

-- A line that is covered keeps the seed and the time that covered it first, and a line that is not
-- gets those of this replay exactly when the replay reports it.
pub note_covered_lines-first :
    (seed_id : String) (now : ℕ) (keys : List LineKey) (db : Db) (j : String)
    → first_cover
        (Table.find line_row_key j (note_covered_lines seed_id now keys db).coverage_lines)
      ≡ elim (first_cover (Table.find line_row_key j db.coverage_lines)) [
        | some f ↦ some f
        | none ↦
            if any (λ (k : LineKey). str_eq k.line_key j) keys then some (seed_id, now) else none
      ]
unfolding note_covered_lines
note_covered_lines-first seed_id now keys db j =
    first-note_lines seed_id now keys db.coverage_lines j

abbrev branch_hit : String → ℕ → BranchRow → BranchRow
branch_hit seed_id now r = record r {
  last_seed_id = seed_id;
  last_seen_at = now;
  hit_count = r.hit_count + 1;
}

abbrev first_branch_hit : String → ℕ → String → BranchRow
first_branch_hit seed_id now k = record {
  branch_key = k;
  first_seed_id = seed_id;
  first_seen_at = now;
  last_seed_id = seed_id;
  last_seen_at = now;
  hit_count = 1;
}
