-- ===== src/StateDb/Tasks/Streak.antt =====
-- recent_boundary_skip_streak: the newest boundary tasks of a target that have ended, if there are as
-- many as asked for and the model skipped each.
use s2afl.Prelude.{
  ap, ◌∙◌, ◌<◌, ◌↔◌, min, false, eq_iff, In-filter, ℕ, ◌≤◌, String, Bool, true, not, ◌&&◌, ◌||◌,
  some, List, [], ◌∷◌, ◌≡◌, ◌⊎◌, inl, inr, refl, arith, ltb, leb, ◌==◌, str_eq, filter, filter-In,
  length, length-take, take, all, if◌then◌else◌, In, All, All-of_In, Bool-cases, Text, codes,
  text_eq,
}
use s2afl.Dict
use s2afl.Dict.{Dict, Json, str}
use s2afl.Text.{strip, upper, lower}
use s2afl.StateDb.Schema.{Db, TaskRow}
use s2afl.Table
use s2afl.Table.Ordered.{Sorted, order_by-In, order_by-Sorted, length-order_by}
use s2afl.Table.Limit.{take-In, take-Sorted, take-least}

-- str(result.get(key) or "").strip(), of a text; nothing else gives "SKIP" or "length".
entry : String → TaskRow → Text
unfolding strip Dict.get
entry key r = elim (Dict.get key r.result) [ some (str t) ↦ strip (codes t) | _ ↦ [] ]

pub is_skip : TaskRow → Bool
unfolding entry upper lower text_eq
is_skip r =
    text_eq (upper (entry "decision" r)) (codes "SKIP")
    && not (text_eq (lower (entry "finish_reason" r)) (codes "length"))

pub has_ended : String → TaskRow → Bool
has_ended target_id r =
    str_eq r.target_id target_id
    && str_eq r.kind "boundary-generate"
    && (str_eq r.status "completed" || str_eq r.status "failed")

-- ORDER BY updated_at DESC, created_at DESC
abbrev pub newer : TaskRow → TaskRow → Bool
newer a b =
    ltb b.updated_at a.updated_at || (a.updated_at == b.updated_at) && ltb b.created_at a.created_at

pub newest_ended : String → ℕ → Db → List TaskRow
unfolding has_ended
newest_ended target_id limit db =
    take limit (Table.order_by newer (filter (has_ended target_id) db.tasks))

unfoldable pub recent_boundary_skip_streak : String → ℕ → Db → List TaskRow
unfolding newest_ended is_skip
recent_boundary_skip_streak target_id limit db =
    let rows = newest_ended target_id limit db in
    if limit == 0
    then []
    else if all is_skip rows
    then if leb limit (length rows) then rows else []
    else []

all-All : (rows : List TaskRow) → all is_skip rows ≡ true → All (λ r. is_skip r ≡ true) rows
all-All [] h = tt
all-All (r ∷ rows) h = (ground (arith, h), all-All rows (ground (arith, h)))

all-false :
    (rows : List TaskRow)
    → all is_skip rows ≡ false
    → (r : TaskRow) × (In r rows × (is_skip r ≡ false))
all-false [] h = cc
all-false (x ∷ rows) h = elim (Bool-cases (is_skip x)) [
  | inl e ↦ let (r, (m, f)) = all-false rows (ground (arith, e, h)) in (r, (inr m, f))
  | inr e ↦ (x, (inl refl, e))
]

-- A boundary task of a target that has ended.
abbrev pub Ended : String → TaskRow → Type 0
Ended target_id r =
    (r.target_id ≡ target_id)
    × (r.kind ≡ "boundary-generate")
    × ((r.status ≡ "completed") ⊎ (r.status ≡ "failed"))

has_ended_iff :
    (target_id : String) (r : TaskRow) → (has_ended target_id r ≡ true) ↔ Ended target_id r
unfolding has_ended
has_ended_iff target_id r = (
  λ h.
      let rest : (str_eq r.status "completed" || str_eq r.status "failed") ≡ true =
        ground (arith, h) in
      (
        (eq_iff r.target_id target_id).0 (ground (arith, h)),
        (eq_iff r.kind "boundary-generate").0 (ground (arith, h)),
        elim (Bool-cases (str_eq r.status "completed")) [
          | inl e ↦ inl ((eq_iff r.status "completed").0 e)
          | inr e ↦ inr ((eq_iff r.status "failed").0 (ground (arith, e, rest)))
        ],
      ),
  λ (t, k, ended).
      let same_target = (eq_iff r.target_id target_id).1 t in
      let same_kind = (eq_iff r.kind "boundary-generate").1 k in
      elim ended [
        | inl e ↦
            let same_status = (eq_iff r.status "completed").1 e in
            ground (arith, same_target, same_kind, same_status)
        | inr e ↦
            let same_status = (eq_iff r.status "failed").1 e in
            ground (arith, same_target, same_kind, same_status)
      ],
)

-- The newest of the ended boundary tasks of a target, at most `limit` of them, newest first.
abbrev pub AreNewest : String → ℕ → Db → List TaskRow → Type 0
AreNewest target_id limit db rows =
    Sorted newer rows
    × All (λ r. In r db.tasks × Ended target_id r) rows
    × ((r : TaskRow)
        → In r db.tasks
        → Ended target_id r
        → In r rows ⊎ ((s : TaskRow) → In s rows → newer r s ≡ false))
    × (length rows ≡ min limit (Table.count (has_ended target_id) db.tasks))

newest_ended-AreNewest :
    (target_id : String) (limit : ℕ) (db : Db)
    → AreNewest target_id limit db (newest_ended target_id limit db)
unfolding newest_ended Table.count
newest_ended-AreNewest target_id limit db =
    let ended = filter (has_ended target_id) db.tasks in
    let sorted =
      order_by-Sorted newer
        (record { asym = λ a b h. ground arith; weak = λ a b c h k. ground arith }) ended in
    (
      take-Sorted newer limit (Table.order_by newer ended) sorted,
      All-of_In _ (take limit (Table.order_by newer ended)) (λ r m.
          let kept =
            filter-In (has_ended target_id) db.tasks r
              ((order_by-In newer r ended).0 (take-In limit (Table.order_by newer ended) r m)) in
          (kept.0, (has_ended_iff target_id r).0 kept.1)),
      λ r m e. take-least newer limit (Table.order_by newer ended) r sorted (
          (order_by-In newer r ended).1
            (In-filter (has_ended target_id) db.tasks r m ((has_ended_iff target_id r).1 e))),
      length-take limit (Table.order_by newer ended)
          ∙ ap (λ (n : ℕ). min limit n) (length-order_by newer ended),
    )

-- `recent_boundary_skip_streak` looks at the newest boundary tasks of the target that have ended,
-- newest first, as many as the limit or as there are. It returns them if they are as many as the
-- limit, which is not 0, and the model skipped each without being cut off by its length; it
-- returns nothing if the limit is 0, they are fewer, or one of them is no such skip.
pub recent_boundary_skip_streak_lem :
    (target_id : String) (limit : ℕ) (db : Db)
    → (rows : List TaskRow) × (AreNewest target_id limit db rows
        × (((recent_boundary_skip_streak target_id limit db ≡ rows)
              × (1 ≤ limit)
              × (length rows ≡ limit)
              × All (λ r. is_skip r ≡ true) rows)
            ⊎ ((recent_boundary_skip_streak target_id limit db ≡ [])
                × ((limit ≡ 0)
                    ⊎ ((length rows < limit)
                        ⊎ ((r : TaskRow) × (In r rows × (is_skip r ≡ false))))))))
unfolding recent_boundary_skip_streak
recent_boundary_skip_streak_lem target_id limit db =
    let rows = newest_ended target_id limit db in
    let newest = newest_ended-AreNewest target_id limit db in
    (
      rows,
      (
        newest,
        elim (Bool-cases (limit == 0)) [
          | inl e ↦ inr (ground (arith, e), inl (ground (arith, e)))
          | inr e ↦ elim (Bool-cases (all is_skip rows)) [
            | inr f ↦ inr (ground (arith, e, f), inr (inr (all-false rows f)))
            | inl f ↦ elim (Bool-cases (leb limit (length rows))) [
              | inr g ↦ inr (ground (arith, e, f, g), inr (inl (ground (arith, g))))
              | inl g ↦
                  let size = newest.3 in
                  inl (
                    ground (arith, e, f, g),
                    ground (arith, e),
                    ground (arith, g, size),
                    all-All rows f,
                  )
            ]
          ]
        ],
      ),
    )
