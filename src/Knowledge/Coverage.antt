-- ===== src/Knowledge/Coverage.antt =====
-- RuntimeKnowledge on coverage: `hit_targets_for_lines`, `boundary_branch_state` and
-- `frontier_score`. The sets of keys are lists, in the order in which Python walks them.
use Prim.Native.String.{◌++◌}
use Prim.Native.Char.{code}
use s2afl.Prelude.{
  ℕ, zero, suc, ◌+◌, ◌-◌, String, Bool, false, not, ◌&&◌, ◌||◌, Option, none, some, List, [], ◌∷◌,
  str_eq, if◌then◌else◌, ◌==◌, leb, any, length, filter, is_some, max,
}
use s2afl.Dict
use s2afl.Scheduler.{decimal}
use s2afl.Knowledge.Points.{Builtins, Index, add_new, point_line_keys}
use s2afl.Knowledge.Targets.Nearby.{rsplit}

-- s[len(p):], if s.startswith(p).
unfoldable pub behind_prefix : String → String → Option String
behind_prefix String.[] s = some s
behind_prefix (String.◌∷◌ c p) String.[] = none
behind_prefix (String.◌∷◌ c p) (String.◌∷◌ d s) =
    let rest = behind_prefix p s in if code c == code d then rest else none

pub record Hits : Type 0 where
  pub boundary_ids : List String
  pub vuln_ids : List String

-- The two tests on each id of a key.
add_hits : List String → Hits → Hits
unfolding behind_prefix add_new
add_hits [] h = h
add_hits (id ∷ ids) h = add_hits ids (record {
  boundary_ids =
      if is_some (behind_prefix "boundary:" id) then add_new id h.boundary_ids else h.boundary_ids;
  vuln_ids = if is_some (behind_prefix "vuln:" id) then add_new id h.vuln_ids else h.vuln_ids;
})

ids_of : Index → String → List String
ids_of i key = elim (Dict.get key i.target_ids_by_line) [ none ↦ [] | some ids ↦ ids ]

hit_key : Builtins → Index → String → Hits → Hits
unfolding add_hits ids_of rsplit
hit_key b i key h =
    let direct = add_hits (ids_of i key) h in
    elim (rsplit key) [
      | none ↦ direct
      | some (rel, line_str) ↦
          let file_key = b.path_name rel ++ ":" ++ line_str in
          if str_eq file_key key then direct else add_hits (ids_of i file_key) direct
    ]

hit_keys : Builtins → Index → List String → Hits → Hits
unfolding hit_key
hit_keys b i [] h = h
hit_keys b i (key ∷ keys) h = hit_keys b i keys (hit_key b i key h)

-- hit_targets_for_lines
unfoldable pub hit_targets_for_lines : Builtins → Index → List String → Hits
unfolding hit_keys
hit_targets_for_lines b i lines = hit_keys b i lines (record { boundary_ids = []; vuln_ids = [] })

-- The prefixes of the branch keys of a line, the second only where it differs.
branch_prefixes : Builtins → String → ℕ → List String
unfolding add_new
branch_prefixes b rel line =
    add_new (b.path_name rel ++ ":" ++ decimal line ++ ":")
      ((rel ++ ":" ++ decimal line ++ ":") ∷ [])

-- The first prefix of a key, and the text behind it.
match_prefix : List String → String → Option (String × String)
unfolding behind_prefix
match_prefix [] key = none
match_prefix (p ∷ prefixes) key =
    let rest = match_prefix prefixes key in
    elim (behind_prefix p key) [ some remaining ↦ some (p, remaining) | none ↦ rest ]

pub record Sides : Type 0 where
  pub saw_zero : Bool
  pub saw_one : Bool
  pub matched_prefix : String

-- One round of the loop.
see_branch : Builtins → List String → String → Sides → Sides
unfolding match_prefix
see_branch b prefixes key s = elim (match_prefix prefixes key) [
  | none ↦ s
  | some (prefix, remaining) ↦ elim (b.int remaining) [
    | none ↦ record s { matched_prefix = prefix }
    | some side ↦ record {
      saw_zero = s.saw_zero || side == 0;
      saw_one = s.saw_one || side == 1;
      matched_prefix = prefix;
    }
  ]
]

see_branches : Builtins → List String → List String → Sides → Sides
unfolding see_branch
see_branches b prefixes [] s = s
see_branches b prefixes (key ∷ keys) s = see_branches b prefixes keys (see_branch b prefixes key s)

pub record BranchState : Type 0 where
  pub covered_side : ℕ
  pub missing_side : ℕ
  pub covered_branch_key : String
  pub missing_branch_key : String

state_of : String → ℕ → ℕ → BranchState
state_of prefix covered missing = record {
  covered_side = covered;
  missing_side = missing;
  covered_branch_key = prefix ++ decimal covered;
  missing_branch_key = prefix ++ decimal missing;
}

one_side : Sides → Option BranchState
unfolding state_of
one_side s =
    if s.saw_zero && not s.saw_one
    then some (state_of s.matched_prefix 0 1)
    else if s.saw_one && not s.saw_zero
    then some (state_of s.matched_prefix 1 0)
    else none

-- boundary_branch_state, for the path and the line of the target's row.
unfoldable pub boundary_branch_state : Builtins → String → ℕ → List String → Option BranchState
unfolding branch_prefixes see_branches one_side
boundary_branch_state b rel line covered_branches = one_side (
    see_branches b (branch_prefixes b rel line) covered_branches (record {
      saw_zero = false;
      saw_one = false;
      matched_prefix = rel ++ ":" ++ decimal line ++ ":";
    }))

is_line_covered : Builtins → List String → String → ℕ → Bool
unfolding point_line_keys
is_line_covered b covered rel line =
    any (λ key. any (λ c. str_eq key c) covered) (point_line_keys b rel line)

-- The lines at the offsets up to `n`, on both sides, that are covered. No line is negative.
count_near : (ℕ → Bool) → ℕ → ℕ → ℕ
count_near is_covered line zero = 0
count_near is_covered line (suc n) =
    (if is_covered (line + suc n) then 1 else 0)
    + (if leb (suc n) line && is_covered (line - suc n) then 1 else 0)
    + count_near is_covered line n

-- nearby + covered_in_function / max(len(function_lines), 1), with the parts of the fraction.
pub record FrontierScore : Type 0 where
  pub nearby : ℕ
  pub covered_in_function : ℕ
  pub function_size : ℕ

-- frontier_score
unfoldable pub frontier_score :
    Builtins → Index → String → ℕ → String → List String → ℕ → FrontierScore
unfolding is_line_covered count_near
frontier_score b i rel line function covered_lines radius =
    let is_covered = is_line_covered b covered_lines rel in
    let function_lines : List ℕ = elim (Dict.get function i.function_lines) [
      | none ↦ []
      | some lines ↦ lines
    ] in
    if is_covered line
    then record { nearby = 0; covered_in_function = 0; function_size = 1 }
    else record {
      nearby = count_near is_covered line radius;
      covered_in_function = length (filter is_covered function_lines);
      function_size = max (length function_lines) 1;
    }
