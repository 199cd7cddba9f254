-- ===== src/Knowledge/Targets/Nearby.antt =====
-- `materialize_boundary_targets_for_coverage`: the boundary points that the coverage has touched or
-- come near to. The sets of coverage keys are lists, in the order in which Python walks them.
use Prim.Native.Char.{code}
use s2afl.Prelude.{
  ℕ, zero, suc, ◌+◌, ◌-◌, String, Bool, true, false, not, ◌&&◌, ◌||◌, Option, none, some, List, [],
  ◌∷◌, str_eq, if◌then◌else◌, ◌==◌, ltb, leb, any, ◌>>=◌,
}
use s2afl.StateDb.Targets.{TargetRecord}
use s2afl.Knowledge.Points.{Builtins, Point, line_key, point_line_keys, target_id_for_point}
use s2afl.Knowledge.Targets.{Knowledge, build_target_record, is_materialized}

-- s.rsplit(":", 1): the text before the last colon and behind it.
unfoldable pub rsplit : String → Option (String × String)
rsplit String.[] = none
rsplit (String.◌∷◌ c s) = elim (rsplit s) [
  | some (a, b) ↦ some (String.◌∷◌ c a, b)
  | none ↦ if code c == b':' then some ("", s) else none
]

-- One key of `_covered_line_numbers`: the file and the line.
covered_line : Builtins → String → Option (String × ℕ)
unfolding rsplit
covered_line b key = do cut ← rsplit key; n ← b.int cut.1; some (cut.0, n)

-- line in covered_by_file[file_key], for a set of line keys.
is_covered_line : Builtins → List String → String → ℕ → Bool
unfolding covered_line
is_covered_line b covered file_key line =
    any
      (λ key. elim (covered_line b key) [
        | none ↦ false
        | some (rel, n) ↦ (str_eq rel file_key || str_eq (b.path_name rel) file_key) && n == line
      ])
      covered

-- One key of `_covered_branch_lines`: the file and the line.
covered_branch : Builtins → String → Option (String × ℕ)
unfolding rsplit
covered_branch b key = do side ← rsplit key; cut ← rsplit side.0; n ← b.int cut.1; some (cut.0, n)

is_covered_branch_line : Builtins → List String → String → Bool
unfolding covered_branch
is_covered_branch_line b branches key =
    any
      (λ branch_key. elim (covered_branch b branch_key) [
        | none ↦ false
        | some (rel, n) ↦ str_eq (line_key rel n) key || str_eq (line_key (b.path_name rel) n) key
      ])
      branches

-- any((line + offset) in lines for offset in range(-radius, radius + 1) if offset != 0): the offsets
-- up to `n`, on both sides. No line is negative.
any_offset : (ℕ → Bool) → ℕ → ℕ → Bool
any_offset is_covered line zero = false
any_offset is_covered line (suc n) =
    is_covered (line + suc n)
    || leb (suc n) line && is_covered (line - suc n)
    || any_offset is_covered line n

-- Whether the point is touched or nearby.
unfoldable pub is_reached : Builtins → List String → List String → ℕ → String → ℕ → Bool
unfolding is_covered_line is_covered_branch_line any_offset point_line_keys
is_reached b covered_lines covered_branches radius relative_path line =
    let near = λ (file_key : String).
      is_covered_line b covered_lines file_key line
      || any_offset (is_covered_line b covered_lines file_key) line radius in
    any (is_covered_branch_line b covered_branches) (point_line_keys b relative_path line)
    || near relative_path
    || near (b.path_name relative_path)

-- The loop on the points; `found` is len(records).
unfoldable pub nearby_loop :
    (Point → Bool) → Knowledge → ℕ → ℕ → List Point → List String → List TargetRecord × List String
unfolding is_materialized build_target_record target_id_for_point
nearby_loop reached k limit found [] seen = ([], seen)
nearby_loop reached k limit found (p ∷ points) seen =
    elim (p.is_boundary && not (is_materialized (target_id_for_point p) seen) && reached p) [
      | false ↦ nearby_loop reached k limit found points seen
      | true ↦ elim (build_target_record k p) [
        | none ↦ nearby_loop reached k limit found points seen
        | some r ↦
            let rest =
              if ltb 0 limit && leb limit (suc found)
              then ([], target_id_for_point p ∷ seen)
              else nearby_loop reached k limit (suc found) points (target_id_for_point p ∷ seen) in
            (r ∷ rest.0, rest.1)
      ]
    ]

-- The test of one point behind that on its id.
unfoldable pub reaches_point : Builtins → List String → List String → ℕ → Point → Bool
unfolding is_reached
reaches_point b covered_lines covered_branches radius p =
    let relative_path = b.strip p.relative_path in
    not (str_eq relative_path "" || p.line == 0)
    && is_reached b covered_lines covered_branches radius relative_path p.line

-- materialize_boundary_targets_for_coverage
unfoldable pub materialize_boundary_targets_for_coverage :
    Builtins → List String → List String → ℕ → ℕ → Knowledge → List TargetRecord × Knowledge
unfolding nearby_loop reaches_point
materialize_boundary_targets_for_coverage b covered_lines covered_branches radius limit k =
    let out =
      nearby_loop (reaches_point b covered_lines covered_branches radius) k limit 0
        k.static_program_points k.materialized in
    (out.0, record k { materialized = out.1 })
