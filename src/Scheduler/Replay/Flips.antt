-- ===== src/Scheduler/Replay/Flips.antt =====
-- What a round of `_consume_coverage_results` writes for the boundaries that a replay flipped.
use mathlib.Core.Option
use Prim.Native.String.{◌++◌ as append}
use s2afl.Prelude.{
  String, true, false, List, [], ◌∷◌, ◌≡◌, refl, ◌∙◌, arith, str_eq, if◌then◌else◌, ◌==◌, ◌≤◌,
  length, any, ◌⊎◌, sym, Option-cases, Bool-cases, eq_iff, In, inl, inr,
}
use s2afl.Dict.{null, num}
use s2afl.StateDb.Schema.{Db, TargetRow}
use s2afl.StateDb.Targets.{target_key, get_target_row, set_target_analysis_result}
use s2afl.StateDb.Metrics.{get_metric, update_metric}
use s2afl.StateDb.Metrics.Usage.{get-update_metric}
use s2afl.Table.Laws.{find-update}
use s2afl.Scheduler.{SchedulerConfig, Services, World}
use s2afl.Scheduler.Results.{CoverageReplayResult}
use s2afl.Scheduler.Replay.{flip_targets, note_flips}

-- The row of a target whose branch a seed flipped.
abbrev pub flipped_by : String → TargetRow → TargetRow
flipped_by seed_id r = record r { analysis_result = append "branch-flipped:" seed_id }

any-cases :
    (j : String) (ids : List String)
    → (In j ids × (any (λ t. str_eq t j) ids ≡ true))
      ⊎ ((In j ids → ⊥) × (any (λ t. str_eq t j) ids ≡ false))
any-cases j [] = inr (λ m. m, refl)
any-cases j (t ∷ ids) = elim (Bool-cases (str_eq t j)) [
  | inl e ↦ inl (inl (sym ((eq_iff t j).0 e)), rw e refl)
  | inr e ↦ elim (any-cases j ids) [
    | inl (m, h) ↦ inl (inr m, rw (e, h) refl)
    | inr (f, h) ↦ inr (
      λ m. elim m [
        | inl k ↦ let hit = (eq_iff t j).1 (sym k) in absurd (ground (arith, e, hit))
        | inr n ↦ f n
      ],
      rw (e, h) refl,
    )
  ]
]

empty : (ids : List String) → length ids ≡ 0 → ids ≡ []
empty [] h = refl
empty (t ∷ ids) h = absurd (omega (arith, h))

module _ (c : SchedulerConfig) (s : Services) where
  get-set_target_analysis_result :
      (seed_id t j : String) (db : Db)
      → get_target_row j (set_target_analysis_result t (append "branch-flipped:" seed_id) db) ≡ (
          if str_eq t j
          then Option.map (flipped_by seed_id) (get_target_row j db)
          else get_target_row j db)
  unfolding get_target_row set_target_analysis_result
  get-set_target_analysis_result seed_id t j db =
      find-update target_key t j (flipped_by seed_id) db.targets (λ r. refl)

  flip_targets-rows :
      (seed_id j : String) (ids : List String) (db : Db)
      → get_target_row j (flip_targets c s seed_id ids db) ≡ (
          if any (λ t. str_eq t j) ids
          then Option.map (flipped_by seed_id) (get_target_row j db)
          else get_target_row j db)
  unfolding flip_targets
  flip_targets-rows seed_id j [] db = refl
  flip_targets-rows seed_id j (t ∷ ids) db =
      let flipped = set_target_analysis_result t (append "branch-flipped:" seed_id) db in
      let rest = flip_targets-rows seed_id j ids flipped in
      let one = get-set_target_analysis_result seed_id t j db in
      elim (Option-cases (get_target_row j db)) [
        | inl e ↦ ground (arith, rest, one, e)
        | inr (r, e) ↦ ground (arith, rest, one, e)
      ]

  get_target_row-note_flips :
      (j : String) (result : CoverageReplayResult) (w : World)
      → get_target_row j (note_flips c s result w).db
        ≡ get_target_row j (flip_targets c s result.seed_id result.flipped_boundary_target_ids w.db)
  unfolding note_flips update_metric get_target_row flip_targets
  get_target_row-note_flips j result w =
      elim (Bool-cases (length result.flipped_boundary_target_ids == 0)) [
        | inl e ↦
            let none_flipped : result.flipped_boundary_target_ids ≡ [] =
              empty result.flipped_boundary_target_ids (ground (arith, e)) in
            rw none_flipped refl
        | inr e ↦ rw e refl
      ]

  -- The part of a round of `_consume_coverage_results` for flips sets the analysis result of the
  -- row of exactly each flipped target to "branch-flipped:" and the seed, and nothing else of a
  -- row; without a flip it changes nothing, and with one it stores the time of it.
  pub note_flips-rows :
      (result : CoverageReplayResult) (w : World) (j : String)
      → ((In j result.flipped_boundary_target_ids
            × (get_target_row j (note_flips c s result w).db
                ≡ Option.map (flipped_by result.seed_id) (get_target_row j w.db)))
          ⊎ ((In j result.flipped_boundary_target_ids → ⊥)
              × (get_target_row j (note_flips c s result w).db ≡ get_target_row j w.db)))
        × (((result.flipped_boundary_target_ids ≡ []) × (note_flips c s result w ≡ w))
            ⊎ ((1 ≤ length result.flipped_boundary_target_ids)
                × (get_metric "last_boundary_flip_at" null (note_flips c s result w).db
                    ≡ num (s.clock w.draws))))
  unfolding note_flips
  note_flips-rows result w j =
      let ids = result.flipped_boundary_target_ids in
      let flipped = flip_targets c s result.seed_id ids w.db in
      let rows = flip_targets-rows result.seed_id j ids w.db in
      let behind : get_target_row j (note_flips c s result w).db ≡ get_target_row j flipped =
        get_target_row-note_flips j result w in
      (
        elim (any-cases j ids) [
          | inl (m, e) ↦ inl (m, behind ∙ rows ∙ rw e refl)
          | inr (f, e) ↦ inr (f, behind ∙ rows ∙ rw e refl)
        ],
        elim (Bool-cases (length ids == 0)) [
          | inl e ↦ inl (empty ids (ground (arith, e)), rw e refl)
          | inr e ↦ inr (
            ground (arith, e),
            rw e (
                get-update_metric "last_boundary_flip_at" "last_boundary_flip_at"
                  (num (s.clock w.draws)) null (s.clock w.draws) flipped),
          )
        ],
      )
