-- ===== src/Knowledge/Targets.antt =====
-- The targets of RuntimeKnowledge: `_build_target_record` and the two ways in which the scheduler
-- materializes targets. `build_targets`, which materializes all points and has no caller, is left out.
-- `materialized` is the set `_materialized_target_ids`.
pub mod Once
pub mod Nearby
use s2afl.Prelude.{
  ℕ, suc, ◌+◌, ◌-◌, ◌≤◌, String, Bool, true, false, not, ◌&&◌, ◌||◌, Option, none, some, List, [],
  ◌∷◌, ◌++◌, str_eq, if◌then◌else◌, ◌==◌, ltb, leb, any, all, length, map, codes,
}
use s2afl.Dict
use s2afl.Dict.{Dict, Json, Items, nil, cons, str, arr}
use s2afl.StateDb.Targets.{TargetRecord}
use s2afl.Knowledge.{Templates, template_for_method}
use s2afl.Knowledge.Points.{
  Builtins, Fact, Ref, Point, Index, point_kind, target_id_for_point, point_line_keys, add_new,
}

pub record Knowledge : Type 0 where
  pub implementation : String
  pub protocol : String
  pub templates : Templates
  pub facts_by_field : Dict (List Fact)
  pub facts_by_function : Dict (List Fact)
  pub static_program_points : List Point
  pub index : Index
  pub materialized : List String

list_eq : List String → List String → Bool
list_eq [] [] = true
list_eq (a ∷ s) (b ∷ t) = str_eq a b && list_eq s t
list_eq _ _ = false

-- Whether two facts have the same key.
same_fact : Fact → Fact → Bool
unfolding list_eq
same_fact f g =
    str_eq f.field_name g.field_name
    && str_eq f.parent_command g.parent_command
    && list_eq f.related_functions g.related_functions

dedupe_from : List Fact → List Fact → List Fact
unfolding same_fact
dedupe_from seen [] = []
dedupe_from seen (f ∷ facts) = elim (any (same_fact f) seen) [
  | true ↦ dedupe_from seen facts
  | false ↦ f ∷ dedupe_from (f ∷ seen) facts
]

-- _dedupe_facts
unfoldable pub dedupe_facts : List Fact → List Fact
unfolding dedupe_from
dedupe_facts facts = dedupe_from [] facts

facts_of : String → Dict (List Fact) → List Fact
facts_of k d = elim (Dict.get k d) [ none ↦ [] | some facts ↦ facts ]

ref_facts : Knowledge → List Ref → List Fact
unfolding facts_of
ref_facts k [] = []
ref_facts k (r ∷ refs) =
    let rest = ref_facts k refs in
    if str_eq r.field_name "" then rest else facts_of r.field_name k.facts_by_field ++ rest

or_unknown : String → String
or_unknown s = if str_eq s "" then "unknown" else s

pub record Evidence : Type 0 where
  pub static_refs : List Ref
  pub dynamic_facts : List Fact
  pub function_facts : List Fact
  pub evidence_mode : String
  pub info_rank : ℕ

-- _evidence_bundle_for_point, with `_dynamic_facts_for_static_refs` and `_function_facts_for_point`.
unfoldable pub evidence_bundle_for_point : Knowledge → Point → Evidence
unfolding dedupe_facts ref_facts facts_of or_unknown
evidence_bundle_for_point k p =
    let dynamic_from_static = dedupe_facts (ref_facts k p.field_refs) in
    let function_facts =
      if length dynamic_from_static == 0
      then dedupe_facts (facts_of (or_unknown p.function) k.facts_by_function)
      else [] in
    let dynamic_facts =
      if length dynamic_from_static == 0 then function_facts else dynamic_from_static in
    let mode : String × ℕ =
      if not (length dynamic_facts == 0)
      then ("dynamic", 0)
      else if not (length p.field_refs == 0)
      then ("static", 1)
      else ("function", 2) in
    record {
      static_refs = p.field_refs;
      dynamic_facts = dynamic_facts;
      function_facts = function_facts;
      evidence_mode = mode.0;
      info_rank = mode.1;
    }

-- A name that is not empty, added once.
add_name : String → List String → List String
unfolding add_new
add_name name names = if str_eq name "" then names else add_new name names

ref_names : List Ref → List String × List String → List String × List String
unfolding add_name
ref_names [] names = names
ref_names (r ∷ refs) (fields, commands) =
    ref_names refs (add_name r.field_name fields, add_name r.command commands)

fact_names : List Fact → List String × List String → List String × List String
unfolding add_name
fact_names [] names = names
fact_names (f ∷ facts) (fields, commands) =
    fact_names facts (add_name f.field_name fields, add_name f.parent_command commands)

evidence_score : List Fact → ℕ
evidence_score [] = 0
evidence_score (f ∷ facts) =
    (if f.mapped_variables then 2 else 0) + (if f.risk_tags then 1 else 0) + evidence_score facts

-- template_bonus > 0
has_template : Templates → List Fact → Bool
unfolding template_for_method
has_template templates facts =
    any
      (λ (f : Fact).
        not (str_eq f.parent_command "")
        && elim (template_for_method (codes f.parent_command) templates) [
          | none ↦ false
          | some template ↦ not (length template == 0)
        ])
      facts

items : List Json → Items
items [] = nil
items (j ∷ js) = cons j (items js)

-- _build_target_record
unfoldable pub build_target_record : Knowledge → Point → Option TargetRecord
unfolding evidence_bundle_for_point ref_names fact_names evidence_score has_template or_unknown
    items target_id_for_point
build_target_record k p =
    let evidence = evidence_bundle_for_point k p in
    let facts = evidence.dynamic_facts in
    let names = fact_names facts (ref_names evidence.static_refs ([], [])) in
    let info_rank =
      if not p.is_boundary
        && evidence.info_rank == 0
        && not (not (length names.1 == 0) && has_template k.templates facts)
      then 1
      else evidence.info_rank in
    let boundary_lane = if p.is_boundary && info_rank == 2 then "guess" else "strict" in
    if str_eq p.relative_path "" || p.line == 0
    then none
    else some (record {
      target_id = target_id_for_point p;
      kind = point_kind p;
      implementation = k.implementation;
      protocol = k.protocol;
      relative_path = p.relative_path;
      line = p.line;
      function = or_unknown p.function;
      code = p.code;
      field_names = names.0;
      commands = names.1;
      evidence_score = evidence_score facts;
      info_rank = info_rank;
      first_activation_ts = 0;
      analyzed = false;
      analysis_result = "";
      source_payload =
          ("program_point", p.json)
          ∷ ("field_facts", arr (items (map (λ (f : Fact). f.json) facts)))
          ∷ ("static_refs", arr (items (map (λ (r : Ref). r.json) evidence.static_refs)))
          ∷ ("function_facts", arr (items (map (λ (f : Fact). f.json) evidence.function_facts)))
          ∷ ("evidence_mode", str evidence.evidence_mode)
          ∷ ("boundary_lane", str boundary_lane)
          ∷ ("match_level", str p.match_level)
          ∷ [];
    })

unfoldable pub is_materialized : String → List String → Bool
is_materialized target_id ids = any (λ i. str_eq target_id i) ids

-- The loop of `materialize_targets_by_id`: the records and the set behind it.
unfoldable pub materialize_loop :
    Knowledge → List String → List String → List TargetRecord × List String
unfolding is_materialized build_target_record
materialize_loop k [] seen = ([], seen)
materialize_loop k (target_id ∷ ids) seen = elim (is_materialized target_id seen) [
  | true ↦ materialize_loop k ids seen
  | false ↦ elim (Dict.get target_id k.index.point_by_target_id) [
    | none ↦ materialize_loop k ids seen
    | some p ↦ elim (build_target_record k p) [
      | none ↦ materialize_loop k ids seen
      | some r ↦ let rest = materialize_loop k ids (target_id ∷ seen) in (r ∷ rest.0, rest.1)
    ]
  ]
]

-- materialize_targets_by_id
unfoldable pub materialize_targets_by_id : List String → Knowledge → List TargetRecord × Knowledge
unfolding materialize_loop
materialize_targets_by_id ids k =
    let out = materialize_loop k ids k.materialized in (out.0, record k { materialized = out.1 })
