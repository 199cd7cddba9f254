-- ===== src/Knowledge/Points.antt =====
-- Program points with their facts, and the index that RuntimeKnowledge makes of them. A missing text
-- is empty, a missing line 0.
use Prim.Native.String.{◌++◌}
use mathlib.Core.List.{◌++◌ as append}
use s2afl.Prelude.{
  ℕ, String, Bool, ◌||◌, Option, none, some, List, [], ◌∷◌, str_eq, if◌then◌else◌, ◌==◌, any,
  length,
}
use s2afl.Dict
use s2afl.Dict.{Dict, Json}
use s2afl.Scheduler.{decimal}

-- `Path(p).name`, `str.strip`, and `int` of a text, `none` where it raises ValueError; the lines of
-- coverage keys are not negative.
pub record Builtins : Type 0 where
  pub path_name : String → String
  pub strip : String → String
  pub int : String → Option ℕ

-- A dynamic fact: what the target record reads, and the JSON of the fact.
pub record Fact : Type 0 where
  pub field_name : String
  pub parent_command : String
  pub related_functions : List String
  pub mapped_variables : Bool
  pub risk_tags : Bool
  pub json : Json

pub record Ref : Type 0 where
  pub field_name : String
  pub command : String
  pub json : Json

pub record Point : Type 0 where
  pub is_boundary : Bool
  pub relative_path : String
  pub line : ℕ
  pub function : String
  pub code : String
  pub field_refs : List Ref
  pub match_level : String
  pub json : Json

-- line_key
abbrev pub line_key : String → ℕ → String
line_key relative_path line = relative_path ++ ":" ++ decimal line

-- _point_kind
abbrev pub point_kind : Point → String
point_kind p = if p.is_boundary then "boundary" else "vuln"

-- _target_id_for_point
unfoldable pub target_id_for_point : Point → String
target_id_for_point p = point_kind p ++ ":" ++ p.relative_path ++ ":" ++ decimal p.line

-- key not in keys, and the list grows.
unfoldable pub add_new : String → List String → List String
add_new key [] = key ∷ []
add_new key (k ∷ keys) = if str_eq k key then k ∷ keys else k ∷ add_new key keys

-- _point_line_keys; no key is empty.
unfoldable pub point_line_keys : Builtins → String → ℕ → List String
unfolding add_new
point_line_keys b relative_path line =
    add_new (line_key (b.path_name relative_path) line) (line_key relative_path line ∷ [])

-- The three maps of `_index_program_points` that the runtime reads.
pub record Index : Type 0 where
  pub target_ids_by_line : Dict (List String)
  pub point_by_target_id : Dict Point
  pub function_lines : Dict (List ℕ)

-- d[k].append(v) of a defaultdict.
append_at : {A : Type 0} → String → A → Dict (List A) → Dict (List A)
append_at k v d = Dict.put k (append (elim (Dict.get k d) [ none ↦ [] | some l ↦ l ]) (v ∷ [])) d

append_all : List String → String → Dict (List String) → Dict (List String)
unfolding append_at
append_all [] target_id d = d
append_all (k ∷ keys) target_id d = append_all keys target_id (append_at k target_id d)

-- d[k].add(n) of a set.
add_line : String → ℕ → Dict (List ℕ) → Dict (List ℕ)
unfolding append_at
add_line k n d =
    let lines : List ℕ = elim (Dict.get k d) [ none ↦ [] | some l ↦ l ] in
    if any (λ m. m == n) lines then d else append_at k n d

unfoldable pub index_point : Builtins → Point → Index → Index
unfolding append_all add_line point_line_keys target_id_for_point
index_point b p i =
    let relative_path = b.strip p.relative_path in
    let function = if str_eq p.function "" then "unknown" else p.function in
    let lines =
      if p.line == 0 then i.function_lines else add_line function p.line i.function_lines in
    let target_id = target_id_for_point p in
    if str_eq relative_path "" || p.line == 0 then record i { function_lines = lines } else record {
      target_ids_by_line =
          append_all (point_line_keys b relative_path p.line) target_id i.target_ids_by_line;
      point_by_target_id = Dict.put target_id p i.point_by_target_id;
      function_lines = lines;
    }

unfoldable pub index_points : Builtins → List Point → Index → Index
unfolding index_point
index_points b [] i = i
index_points b (p ∷ points) i = index_points b points (index_point b p i)

-- _index_program_points
unfoldable pub index_program_points : Builtins → List Point → Index
unfolding index_points
index_program_points b points =
    index_points b points
      (record { target_ids_by_line = []; point_by_target_id = []; function_lines = [] })

-- target_catalog_size
unfoldable pub target_catalog_size : Index → ℕ
target_catalog_size i = length i.point_by_target_id
