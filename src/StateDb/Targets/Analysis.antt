-- ===== src/StateDb/Targets/Analysis.antt =====
-- Targets under the operations of the runtime: what is analysed stays so, and the first activation is
-- written once.
use s2afl.Prelude.{
  ℕ, String, Option, none, some, List, [], ◌∷◌, ◌≡◌, ◌∙◌, ◌<◌, refl, arith, eq_iff, if◌then◌else◌,
  In, ◌↔◌, ◌==◌, filter, filter-In, In-filter,
}
use s2afl.StateDb.Schema.{Db, TargetRow}
use s2afl.StateDb.Targets.{
  TargetRecord, target_key, target_row, on_conflict, upsert_target, upsert_targets, activate_target,
  mark_target_analyzed, set_target_analysis_result, get_target_row, list_candidate_targets,
  ranks_before, is_candidate,
}
use s2afl.Table
use s2afl.Table.{IsUnique}
use s2afl.Table.Ordered.{Sorted, IsOrder, order_by-In, order_by-Sorted}
use s2afl.Table.Laws.{find-upsert, find-update}

ranks_before-IsOrder : IsOrder ranks_before
ranks_before-IsOrder = record { asym = λ a b h. ground arith; weak = λ a b c h k. ground arith }

-- The candidates of a kind are exactly the targets of that kind that are not analysed, in order of
-- rank, first activation and line.
pub list_candidate_targets_lem :
    (kind : String) (db : Db)
    → ((r : TargetRow)
        → In r (list_candidate_targets kind db)
          ↔ (In r db.targets × (r.kind ≡ kind) × (r.analyzed ≡ 0)))
      × Sorted ranks_before (list_candidate_targets kind db)
unfolding list_candidate_targets
list_candidate_targets_lem kind db = (
  λ r. (
    λ m.
        let kept =
          filter-In (is_candidate kind) db.targets r
            ((order_by-In ranks_before r (filter (is_candidate kind) db.targets)).0 m) in
        (kept.0, ground (arith, eq_iff r.kind kind), ground arith),
    λ (m, k, a).
        (order_by-In ranks_before r (filter (is_candidate kind) db.targets)).1
          (In-filter (is_candidate kind) db.targets r m (ground (arith, eq_iff r.kind kind))),
  ),
  order_by-Sorted ranks_before ranks_before-IsOrder (filter (is_candidate kind) db.targets),
)

-- What the threads do to the target table.
pub data Change : Type 0 where
  upsert : List TargetRecord → Change
  activate : String → ℕ → Change
  analyze : String → String → Change
  note_result : String → String → Change

pub apply : Change → Db → Db
apply (upsert targets) db = upsert_targets targets db
apply (activate target_id ts) db = activate_target target_id ts db
apply (analyze target_id result) db = mark_target_analyzed target_id result db
apply (note_result target_id result) db = set_target_analysis_result target_id result db

pub apply_all : List Change → Db → Db
apply_all [] db = db
apply_all (c ∷ changes) db = apply_all changes (apply c db)

-- How a row may change: its analysis is final, and so is its first activation.
abbrev Grows : TargetRow → TargetRow → Type 0
Grows old new =
    (old.analyzed ≡ 1 → new.analyzed ≡ 1)
    × (0 < old.first_activation_ts → new.first_activation_ts ≡ old.first_activation_ts)
    × (new.kind ≡ old.kind)
    × (new.relative_path ≡ old.relative_path)
    × (new.line ≡ old.line)

abbrev GrowsTo : TargetRow → Option TargetRow → Type 0
GrowsTo old none = ⊥
GrowsTo old (some new) = Grows old new

Grows-update :
    (k j : String) (f : TargetRow → TargetRow) (rows : List TargetRow) (old : TargetRow)
    → ((r : TargetRow) → target_key (f r) ≡ target_key r)
    → Grows old (f old)
    → Table.find target_key j rows ≡ some old
    → GrowsTo old (Table.find target_key j (Table.update target_key k f rows))
Grows-update k j f rows old keeps g h =
    rw (find-update target_key k j f rows keeps) (rw h (ground (arith, g)))

upsert-grows :
    (t : TargetRecord) (j : String) (db : Db) (old : TargetRow)
    → get_target_row j db ≡ some old
    → GrowsTo old (get_target_row j (upsert_target t db))
unfolding get_target_row upsert_target
upsert-grows t j db old h =
    rw (find-upsert target_key j on_conflict (target_row t) db.targets (λ a b. refl))
      (rw h (ground arith))

-- The row that a lookup found, and how it grew.
abbrev pub Later : String → TargetRow → Db → Type 0
Later j old db = (new : TargetRow) × (get_target_row j db ≡ some new) × Grows old new

Later-of :
    (j : String) (old : TargetRow) (db : Db) → GrowsTo old (get_target_row j db) → Later j old db
Later-of j old db g = pick (get_target_row j db) refl g
  where
    pick : (o : Option TargetRow) → get_target_row j db ≡ o → GrowsTo old o → Later j old db
    pick none e h = absurd h
    pick (some new) e h = (new, e, h)

Grows-trans : (a b c : TargetRow) → Grows a b → Grows b c → Grows a c
Grows-trans a b c g h =
    (λ e. h.0 (g.0 e), λ p. h.1 (omega (arith, g.1 p)) ∙ g.1 p, h.2 ∙ g.2, h.3 ∙ g.3, h.4 ∙ g.4)

upserts-grow :
    (targets : List TargetRecord) (j : String) (db : Db) (old : TargetRow)
    → get_target_row j db ≡ some old
    → Later j old (upsert_targets targets db)
unfolding upsert_targets
upserts-grow [] j db old h = (old, h, (λ e. e, λ p. refl, refl, refl, refl))
upserts-grow (t ∷ targets) j db old h =
    let one = Later-of j old (upsert_target t db) (upsert-grows t j db old h) in
    let rest = upserts-grow targets j (upsert_target t db) one.0 one.1 in
    (rest.0, rest.1, Grows-trans old one.0 rest.0 one.2 rest.2)

apply-grows :
    (c : Change) (j : String) (db : Db) (old : TargetRow)
    → get_target_row j db ≡ some old
    → Later j old (apply c db)
unfolding apply
apply-grows (upsert targets) j db old h = upserts-grow targets j db old h
apply-grows (activate target_id ts) j db old h = Later-of j old (activate_target target_id ts db) (
    unfold activate_target get_target_row in
    Grows-update target_id j
      (λ r. record r {
        first_activation_ts = if r.first_activation_ts == 0 then ts else r.first_activation_ts;
      })
      db.targets old (λ r. refl) (λ e. e, λ p. ground arith, refl, refl, refl) h)
apply-grows (analyze target_id result) j db old h =
    Later-of j old (mark_target_analyzed target_id result db) (
      unfold mark_target_analyzed get_target_row in
      Grows-update target_id j (λ r. record r { analyzed = 1; analysis_result = result }) db.targets
        old (λ r. refl) (λ e. refl, λ p. refl, refl, refl, refl) h)
apply-grows (note_result target_id result) j db old h =
    Later-of j old (set_target_analysis_result target_id result db) (
      unfold set_target_analysis_result get_target_row in
      Grows-update target_id j (λ r. record r { analysis_result = result }) db.targets old
        (λ r. refl) (λ e. e, λ p. refl, refl, refl, refl) h)

-- Over any sequence of target operations a target stays in the table with its kind and its place
-- in the source, once analysed it stays analysed, and once activated it keeps the time of its
-- first activation.
pub apply_all-grows :
    (changes : List Change) (j : String) (db : Db) (old : TargetRow)
    → get_target_row j db ≡ some old
    → Later j old (apply_all changes db)
unfolding apply_all
apply_all-grows [] j db old h = (old, h, (λ e. e, λ p. refl, refl, refl, refl))
apply_all-grows (c ∷ changes) j db old h =
    let one = apply-grows c j db old h in
    let rest = apply_all-grows changes j (apply c db) one.0 one.1 in
    (rest.0, rest.1, Grows-trans old one.0 rest.0 one.2 rest.2)
