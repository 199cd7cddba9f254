-- ===== src/Scheduler/Context.antt =====
-- `_find_seed_context_for_boundary`: the replayed message that a boundary task starts from.
use s2afl.Prelude.{
  ℕ, String, Bool, false, not, ◌&&◌, ◌||◌, Option, none, some, List, [], ◌∷◌, ◌≡◌, arith, str_eq,
  if◌then◌else◌, Bool-cases, Option-cases, inl, inr, ◌∙◌, any, join, codes, starts_with, map,
}
use mathlib.Core.List.{reverse}
use s2afl.Scheduler.Results.{MessageDelta, CoverageReplayResult}

-- x in list
abbrev contains : String → List String → Bool
contains x l = any (λ y. str_eq x y) l

-- The tuple that the method returns; the seed id is None where there is no context.
pub record Context : Type 0 where
  pub seed_id : Option String
  pub step_index : ℕ
  pub preview : String
  pub kind : String

abbrev pub context_of : String → CoverageReplayResult → MessageDelta → Context
context_of kind r d = record {
  seed_id = some r.seed_id;
  step_index = d.step_index;
  preview = d.message_preview;
  kind = kind;
}

abbrev pub no_context : String → Context
no_context kind = record { seed_id = none; step_index = 0; preview = ""; kind = kind }

-- What the loop looks for: the target, the key of its covered branch side, and the prefixes and keys
-- of its line, each with the path and with the file's name alone, once if these are one.
pub record Wanted : Type 0 where
  pub target_id : String
  pub covered_branch_key : Option String
  pub prefixes : List String
  pub line_keys : List String

-- A context whose seed id Python takes for true.
abbrev pub is_set : Option String → Bool
is_set none = false
is_set (some t) = not (str_eq t "")

abbrev Replayed : Type 0
Replayed = CoverageReplayResult × MessageDelta

-- covered_branch_key and covered_branch_key in delta.cumulative_branches
pub is_exact : Wanted → Replayed → Bool
is_exact w p = elim w.covered_branch_key [
  | none ↦ false
  | some k ↦ not (str_eq k "") && contains k p.1.cumulative_branches
]

pub covers_line : Wanted → Replayed → Bool
covers_line w p = any (λ k. contains k p.1.cumulative_lines) w.line_keys

pub hits_line : Wanted → Replayed → Bool
unfolding covers_line
hits_line w p = contains w.target_id p.1.hit_boundary_target_ids || covers_line w p

pub covers_prefix : Wanted → Replayed → Bool
covers_prefix w p =
    is_set w.covered_branch_key
    && any (λ t. any (λ b. starts_with (codes b) (codes t)) p.1.cumulative_branches) w.prefixes

-- What the method returns behind its loop.
fallback : Context → Context → Context → Context
fallback branch_prefix line_hit recent =
    if is_set branch_prefix.seed_id
    then branch_prefix
    else if is_set line_hit.seed_id
    then line_hit
    else recent

-- The loop, with its three fallbacks, over the messages in the order in which it reads them.
pub search : Wanted → List Replayed → Context → Context → Context → Context
unfolding is_exact hits_line covers_line covers_prefix fallback
search w [] branch_prefix line_hit recent = fallback branch_prefix line_hit recent
search w (p ∷ ps) branch_prefix line_hit recent =
    let rest =
      search w ps
        (if not (is_set branch_prefix.seed_id) && covers_prefix w p
          then context_of "branch-prefix" p.0 p.1
          else branch_prefix)
        (if not (is_set line_hit.seed_id) && covers_line w p
          then context_of "line-hit" p.0 p.1
          else line_hit)
        (context_of "recent-fallback" p.0 p.1) in
    if is_exact w p
    then context_of "branch-exact" p.0 p.1
    else if hits_line w p
    then context_of "line-hit" p.0 p.1
    else rest

-- for result in reversed(results): for delta in reversed(result.message_deltas)
pub newest_first : List CoverageReplayResult → List Replayed
newest_first results =
    join (map (λ r. map (λ d. (r, d)) (reverse r.message_deltas)) (reverse results))

-- _find_seed_context_for_boundary
unfoldable pub find_seed_context_for_boundary : Wanted → List CoverageReplayResult → Context
unfolding search newest_first
find_seed_context_for_boundary w results =
    search w (newest_first results) (no_context "branch-prefix") (no_context "line-hit")
      (no_context "recent-fallback")

first_match : (Replayed → Bool) → List Replayed → Option Replayed
first_match f [] = none
first_match f (p ∷ ps) = if f p then some p else first_match f ps

last_of : List Replayed → Option Replayed
last_of [] = none
last_of (p ∷ ps) = elim (last_of ps) [ none ↦ some p | some q ↦ some q ]

-- The context by its rank alone: the first message that covers the branch side or hits the line; else
-- the first that covers a branch of the line; else the last message.
pub ranked : Wanted → List Replayed → Context → Context → Context
ranked w ps branch_prefix recent = elim (first_match (λ p. is_exact w p || hits_line w p) ps) [
  | some p ↦
      if is_exact w p then context_of "branch-exact" p.0 p.1 else context_of "line-hit" p.0 p.1
  | none ↦
      if is_set branch_prefix.seed_id
      then branch_prefix
      else elim (first_match (λ p. covers_prefix w p && is_set (some p.0.seed_id)) ps) [
        | some p ↦ context_of "branch-prefix" p.0 p.1
        | none ↦ elim (last_of ps) [ some p ↦ context_of "recent-fallback" p.0 p.1 | none ↦ recent ]
      ]
]

no-line : (w : Wanted) (p : Replayed) → hits_line w p ≡ false → covers_line w p ≡ false
unfolding hits_line
no-line w p h = ground arith

-- The fallbacks behind a message that is not decisive.
ranked-skip :
    (w : Wanted) (p : Replayed) (ps : List Replayed) (bp recent : Context)
    → is_exact w p ≡ false
    → hits_line w p ≡ false
    → ranked w ps
        (if not (is_set bp.seed_id) && covers_prefix w p
          then context_of "branch-prefix" p.0 p.1
          else bp)
        (context_of "recent-fallback" p.0 p.1)
      ≡ ranked w (p ∷ ps) bp recent
unfolding ranked first_match last_of
ranked-skip w p ps bp recent e f =
    elim (Option-cases (first_match (λ p. is_exact w p || hits_line w p) ps)) [
      | inr (q, found) ↦ ground (arith, e, f, found)
      | inl found ↦ elim (Bool-cases (is_set bp.seed_id)) [
        | inl b ↦ ground (arith, e, f, found, b)
        | inr b ↦ elim (Bool-cases (covers_prefix w p)) [
          | inl g ↦ elim (Bool-cases (str_eq p.0.seed_id "")) [
            | inl k ↦ ground (arith, e, f, found, b, g, k)
            | inr k ↦ ground (arith, e, f, found, b, g, k)
          ]
          | inr g ↦ ground (arith, e, f, found, b, g)
        ]
      ]
    ]

search-ranked :
    (w : Wanted) (ps : List Replayed) (branch_prefix recent : Context)
    → search w ps branch_prefix (no_context "line-hit") recent ≡ ranked w ps branch_prefix recent
unfolding search fallback
search-ranked w [] bp recent = unfold ranked in unfold first_match in unfold last_of in ground arith
search-ranked w (p ∷ ps) bp recent = elim (Bool-cases (is_exact w p)) [
  | inl e ↦ unfold ranked in unfold first_match in ground (arith, e)
  | inr e ↦ elim (Bool-cases (hits_line w p)) [
    | inl f ↦ unfold ranked in unfold first_match in ground (arith, e, f)
    | inr f ↦
        rw (e, f, no-line w p f)
          (search-ranked w ps _ (context_of "recent-fallback" p.0 p.1)
            ∙ ranked-skip w p ps bp recent e f)
  ]
]

-- `_find_seed_context_for_boundary` returns the newest replayed message that covers the branch
-- side or else hits the target or its line; if there is none, the newest that covers some branch
-- of the line; if there is none of these either, the last message that its loop reads, which is
-- the oldest.
pub find_seed_context_for_boundary_lem :
    (w : Wanted) (results : List CoverageReplayResult)
    → find_seed_context_for_boundary w results
      ≡ ranked w (newest_first results) (no_context "branch-prefix") (no_context "recent-fallback")
unfolding find_seed_context_for_boundary
find_seed_context_for_boundary_lem w results =
    search-ranked w (newest_first results) (no_context "branch-prefix")
      (no_context "recent-fallback")
