-- ===== src/Knowledge/Targets/Once.antt =====
-- No target is materialized twice.
use s2afl.Prelude.{
  ℕ, suc, String, Bool, true, false, not, ◌&&◌, ◌||◌, some, List, [], ◌∷◌, ◌++◌, ◌≡◌, refl, ◌∙◌,
  str_eq, eq_iff, Bool-cases, Option-cases, inl, inr, arith, ltb, leb, ◌==◌,
}
use s2afl.Dict
use s2afl.Dict.{Dict, get-put}
use s2afl.StateDb.Targets.{TargetRecord}
use s2afl.Knowledge.Points.{
  Builtins, Point, Index, target_id_for_point, index_program_points, index_points, index_point,
}
use s2afl.Knowledge.Targets.{
  Knowledge, build_target_record, is_materialized, materialize_loop, materialize_targets_by_id,
}
use s2afl.Knowledge.Targets.Nearby.{
  nearby_loop, reaches_point, materialize_boundary_targets_for_coverage,
}

pub data Call : Type 0 where
  by_id : List String → Call
  by_coverage : (covered_lines covered_branches : List String) (radius limit : ℕ) → Call

call : Builtins → Call → Knowledge → List TargetRecord × Knowledge
unfolding materialize_targets_by_id materialize_boundary_targets_for_coverage
call b (by_id ids) k = materialize_targets_by_id ids k
call b (by_coverage lines branches radius limit) k =
    materialize_boundary_targets_for_coverage b lines branches radius limit k

-- All that a sequence of calls returns.
unfoldable pub run : Builtins → List Call → Knowledge → List TargetRecord
unfolding call
run b [] k = []
run b (c ∷ calls) k = let out = call b c k in out.0 ++ run b calls out.1

-- No record has an id of the set or of a record before.
abbrev pub IsFresh : List String → List TargetRecord → Type 0
IsFresh seen [] = Unit
IsFresh seen (r ∷ records) =
    (is_materialized r.target_id seen ≡ false) × IsFresh (r.target_id ∷ seen) records

push : List TargetRecord → List String → List String
push [] seen = seen
push (r ∷ records) seen = push records (r.target_id ∷ seen)

IsFresh-append :
    (seen : List String) (xs ys : List TargetRecord)
    → IsFresh seen xs
    → IsFresh (push xs seen) ys
    → IsFresh seen (xs ++ ys)
unfolding push
IsFresh-append seen [] ys hx hy = hy
IsFresh-append seen (x ∷ xs) ys (h, hx) hy = (h, IsFresh-append (x.target_id ∷ seen) xs ys hx hy)

-- A target's point has the id of the target.
IsIndexed : Index → Type 0
IsIndexed i =
    (id : String) (p : Point)
    → Dict.get id i.point_by_target_id ≡ some p
    → target_id_for_point p ≡ id

put-same :
    (k j : String) (p q : Point) (d : Dict Point)
    → str_eq k j ≡ true
    → Dict.get j (Dict.put k p d) ≡ some q
    → p ≡ q
put-same k j p q d e h = ground (arith, get-put k j p d)

put-other :
    (k j : String) (p q : Point) (d : Dict Point)
    → str_eq k j ≡ false
    → Dict.get j (Dict.put k p d) ≡ some q
    → Dict.get j d ≡ some q
put-other k j p q d e h = ground (arith, get-put k j p d)

index_point-IsIndexed :
    (b : Builtins) (p : Point) (i : Index) → IsIndexed i → IsIndexed (index_point b p i)
unfolding index_point IsIndexed
index_point-IsIndexed b p i h =
    elim (Bool-cases (str_eq (b.strip p.relative_path) "" || p.line == 0)) [
      | inl e ↦ rw e h
      | inr e ↦ rw e (λ id q found. elim (Bool-cases (str_eq (target_id_for_point p) id)) [
        | inl same ↦
            rw (← put-same (target_id_for_point p) id p q i.point_by_target_id same found)
              ((eq_iff (target_id_for_point p) id).0 same)
        | inr other ↦
            h id q (put-other (target_id_for_point p) id p q i.point_by_target_id other found)
      ])
    ]

index_points-IsIndexed :
    (b : Builtins) (points : List Point) (i : Index)
    → IsIndexed i
    → IsIndexed (index_points b points i)
unfolding index_points
index_points-IsIndexed b [] i h = h
index_points-IsIndexed b (p ∷ points) i h =
    index_points-IsIndexed b points (index_point b p i) (index_point-IsIndexed b p i h)

index_program_points-IsIndexed :
    (b : Builtins) (points : List Point) → IsIndexed (index_program_points b points)
unfolding index_program_points
index_program_points-IsIndexed b points =
    index_points-IsIndexed b points _
      (unfold IsIndexed in λ id p e. unfold Dict.get in absurd (cc e))

build_target_record-id :
    (k : Knowledge) (p : Point) (r : TargetRecord)
    → build_target_record k p ≡ some r
    → r.target_id ≡ target_id_for_point p
unfolding build_target_record
build_target_record-id k p r h = elim (Bool-cases (str_eq p.relative_path "" || p.line == 0)) [
  | inl e ↦ absurd (ground (arith, e))
  | inr e ↦ ground (arith, e)
]

module _ (k : Knowledge) where
  materialize_loop-IsFresh :
      (ids seen : List String)
      → IsIndexed k.index
      → IsFresh seen (materialize_loop k ids seen).0
        × ((materialize_loop k ids seen).1 ≡ push (materialize_loop k ids seen).0 seen)
  unfolding materialize_loop push IsIndexed
  materialize_loop-IsFresh [] seen h = (tt, refl)
  materialize_loop-IsFresh (id ∷ ids) seen h = elim (Bool-cases (is_materialized id seen)) [
    | inl e ↦ rw (materialize_loop, e) (materialize_loop-IsFresh ids seen h)
    | inr e ↦ elim (Option-cases (Dict.get id k.index.point_by_target_id)) [
      | inl n ↦ rw (materialize_loop, e, n) (materialize_loop-IsFresh ids seen h)
      | inr (p, found) ↦ elim (Option-cases (build_target_record k p)) [
        | inl n ↦ rw (materialize_loop, e, found, n) (materialize_loop-IsFresh ids seen h)
        | inr (r, built) ↦
            let same : r.target_id ≡ id = build_target_record-id k p r built ∙ h id p found in
            let more = materialize_loop-IsFresh ids (id ∷ seen) h in
            let step : materialize_loop k (id ∷ ids) seen ≡ (
              r ∷ (materialize_loop k ids (id ∷ seen)).0,
              (materialize_loop k ids (id ∷ seen)).1,
            ) =
              rw (materialize_loop, e, found, built) refl in
            rw (step, same) ((e, more.0), more.1)
      ]
    ]
  ]

  nearby_loop-IsFresh :
      (reached : Point → Bool) (limit found : ℕ) (points : List Point) (seen : List String)
      → IsFresh seen (nearby_loop reached k limit found points seen).0
        × ((nearby_loop reached k limit found points seen).1
            ≡ push (nearby_loop reached k limit found points seen).0 seen)
  unfolding nearby_loop push
  nearby_loop-IsFresh reached limit found [] seen = (tt, refl)
  nearby_loop-IsFresh reached limit found (p ∷ points) seen =
      let test = p.is_boundary && not (is_materialized (target_id_for_point p) seen) && reached p in
      let skip = nearby_loop-IsFresh reached limit found points seen in
      elim (Bool-cases test) [
        | inr e ↦ rw (nearby_loop, e) skip
        | inl e ↦ elim (Option-cases (build_target_record k p)) [
          | inl n ↦ rw (nearby_loop, e, n) skip
          | inr (r, built) ↦
              let id = target_id_for_point p in
              let same : r.target_id ≡ id = build_target_record-id k p r built in
              let fresh : is_materialized id seen ≡ false = ground (arith, e) in
              let more = nearby_loop-IsFresh reached limit (suc found) points (id ∷ seen) in
              elim (Bool-cases (ltb 0 limit && leb limit (suc found))) [
                | inl full ↦
                    let step : nearby_loop reached k limit found (p ∷ points) seen
                        ≡ (r ∷ [], id ∷ seen) =
                      rw (nearby_loop, e, built, full) refl in
                    rw (step, same) ((fresh, tt), refl)
                | inr room ↦
                    let rest = nearby_loop reached k limit (suc found) points (id ∷ seen) in
                    let step : nearby_loop reached k limit found (p ∷ points) seen
                        ≡ (r ∷ rest.0, rest.1) =
                      rw (nearby_loop, e, built, room) refl in
                    rw (step, same) ((fresh, more.0), more.1)
              ]
        ]
      ]

call-IsFresh :
    (b : Builtins) (c : Call) (k : Knowledge)
    → IsIndexed k.index
    → IsFresh k.materialized (call b c k).0
      × ((call b c k).1.materialized ≡ push (call b c k).0 k.materialized)
      × ((call b c k).1.index ≡ k.index)
unfolding call materialize_targets_by_id materialize_boundary_targets_for_coverage
call-IsFresh b (by_id ids) k h =
    let out = materialize_loop-IsFresh k ids k.materialized h in (out.0, out.1, refl)
call-IsFresh b (by_coverage lines branches radius limit) k h =
    let out =
      nearby_loop-IsFresh k (reaches_point b lines branches radius) limit 0 k.static_program_points
        k.materialized in
    (out.0, out.1, refl)

run-IsFresh_indexed :
    (b : Builtins) (calls : List Call) (k : Knowledge)
    → IsIndexed k.index
    → IsFresh k.materialized (run b calls k)
unfolding run
run-IsFresh_indexed b [] k h = tt
run-IsFresh_indexed b (c ∷ calls) k h =
    let (fresh, pushed, index) = call-IsFresh b c k h in
    let more = run-IsFresh_indexed b calls (call b c k).1 (rw index h) in
    IsFresh-append k.materialized (call b c k).0 (run b calls (call b c k).1) fresh
      (rw (← pushed) more)

-- Over every sequence of calls of `materialize_targets_by_id` and
-- `materialize_boundary_targets_for_coverage` on a knowledge base with the index of its points, no
-- target is returned twice, and none that was materialized before.
pub run-IsFresh :
    (b : Builtins) (points : List Point) (calls : List Call) (k : Knowledge)
    → k.index ≡ index_program_points b points
    → IsFresh k.materialized (run b calls k)
run-IsFresh b points calls k e =
    run-IsFresh_indexed b calls k (rw e (index_program_points-IsIndexed b points))
