-- ===== src/StateDb/Coverage.antt =====
-- note_covered_lines, note_covered_branches and the covered keys. A set of keys is a list of them; a
-- line key is given with the two parts that `rsplit(":", 1)` and `int` make of it.
pub mod Growth
use s2afl.Prelude.{ℕ, String, Option, none, some, List, [], ◌∷◌, ◌++◌, ◌+◌, map}
use s2afl.StateDb.Schema.{Db, LineRow, BranchRow}
use s2afl.Table

pub record LineKey : Type 0 where
  pub line_key : String
  pub relative_path : String
  pub line_no : ℕ

abbrev pub line_row_key : LineRow → String
line_row_key r = r.line_key

abbrev pub branch_row_key : BranchRow → String
branch_row_key r = r.branch_key

-- One round of the loop: SELECT, then UPDATE or INSERT. The INSERT comes after a SELECT that found no
-- row, under one lock, and meets no conflict.
note_line : String → ℕ → LineKey → List LineRow → List LineRow
note_line seed_id now k rows = elim (Table.find line_row_key k.line_key rows) [
  | some _ ↦
      Table.update line_row_key k.line_key
        (λ r. record r { last_seed_id = seed_id; last_seen_at = now; hit_count = r.hit_count + 1 })
        rows
  | none ↦
      rows
      ++ record {
        line_key = k.line_key;
        relative_path = k.relative_path;
        line = k.line_no;
        first_seed_id = seed_id;
        first_seen_at = now;
        last_seed_id = seed_id;
        last_seen_at = now;
        hit_count = 1;
      }
        ∷ []
]

note_lines : String → ℕ → List LineKey → List LineRow → List LineRow
unfolding note_line
note_lines seed_id now [] rows = rows
note_lines seed_id now (k ∷ keys) rows = note_lines seed_id now keys (note_line seed_id now k rows)

unfoldable pub note_covered_lines : String → ℕ → List LineKey → Db → Db
unfolding note_lines
note_covered_lines seed_id now lines db = record db {
  coverage_lines = note_lines seed_id now lines db.coverage_lines;
}

note_branch : String → ℕ → String → List BranchRow → List BranchRow
note_branch seed_id now k rows = elim (Table.find branch_row_key k rows) [
  | some _ ↦
      Table.update branch_row_key k
        (λ r. record r { last_seed_id = seed_id; last_seen_at = now; hit_count = r.hit_count + 1 })
        rows
  | none ↦
      rows
      ++ record {
        branch_key = k;
        first_seed_id = seed_id;
        first_seen_at = now;
        last_seed_id = seed_id;
        last_seen_at = now;
        hit_count = 1;
      }
        ∷ []
]

note_branches : String → ℕ → List String → List BranchRow → List BranchRow
unfolding note_branch
note_branches seed_id now [] rows = rows
note_branches seed_id now (k ∷ keys) rows =
    note_branches seed_id now keys (note_branch seed_id now k rows)

unfoldable pub note_covered_branches : String → ℕ → List String → Db → Db
unfolding note_branches
note_covered_branches seed_id now branches db = record db {
  coverage_branches = note_branches seed_id now branches db.coverage_branches;
}

unfoldable pub covered_line_keys : Db → List String
covered_line_keys db = map line_row_key db.coverage_lines

unfoldable pub covered_branch_keys : Db → List String
covered_branch_keys db = map branch_row_key db.coverage_branches
