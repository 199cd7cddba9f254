-- ===== src/Scheduler/Batch.antt =====
-- `_select_boundary_batch`: which candidates become the next batch of boundary tasks. `random.sample`
-- is an argument.
pub mod Selection
use Prim.Native.String
use text.Mathlib.Text.{is_lt}
use s2afl.Prelude.{
  ℕ, zero, suc, ◌-◌, String, Bool, true, false, not, ◌&&◌, ◌||◌, Option, none, some, List, [], ◌∷◌,
  ◌++◌, str_eq, if◌then◌else◌, ltb, leb, ◌==◌, any, filter, length, take,
}
use s2afl.Table.{order_by}

-- The entries of an item that the selection reads, of a target row the id alone.
pub record Candidate : Type 0 where
  pub target_id : String
  pub seed_id : String
  pub info_rank : ℕ
  pub activation_ts : ℕ
  pub context_kind : String
  pub boundary_lane : String
  pub frontier_score : ℕ
  pub evidence_score : ℕ
  pub tried : Bool
  pub touched : Bool

abbrev bool_eq : Bool → Bool → Bool
bool_eq true b = b
bool_eq false b = not b

-- item == other
abbrev pub same_item : Candidate → Candidate → Bool
same_item a b =
    str_eq a.target_id b.target_id
    && str_eq a.seed_id b.seed_id
    && a.info_rank == b.info_rank
    && a.activation_ts == b.activation_ts
    && str_eq a.context_kind b.context_kind
    && str_eq a.boundary_lane b.boundary_lane
    && a.frontier_score == b.frontier_score
    && a.evidence_score == b.evidence_score
    && bool_eq a.tried b.tried
    && bool_eq a.touched b.touched

-- _context_rank
abbrev context_rank : String → ℕ
context_rank kind =
    if str_eq kind "branch-exact"
    then 0
    else if str_eq kind "line-hit"
    then 1
    else if str_eq kind "branch-prefix"
    then 2
    else if str_eq kind "recent-fallback"
    then 3
    else 9

-- The order of two numbers, or a further test where they are equal.
abbrev then_by : ℕ → ℕ → Bool → Bool
then_by a b next = ltb a b || (a == b) && next

abbrev touched_rank : Candidate → ℕ
touched_rank a = if a.touched then 0 else 1

-- _candidate_sort_key(a) < _candidate_sort_key(b)
abbrev pub sorts_before : Candidate → Candidate → Bool
sorts_before a b = then_by (touched_rank a) (touched_rank b) (
    then_by a.info_rank b.info_rank (
      then_by (context_rank a.context_kind) (context_rank b.context_kind) (
        then_by b.evidence_score a.evidence_score (
          then_by b.frontier_score a.frontier_score (
            then_by a.activation_ts b.activation_ts
              (is_lt (String.compare a.target_id b.target_id)))))))

abbrev unselected : List Candidate → List Candidate → List Candidate
unselected selected items = filter (λ x. not (any (same_item x) selected)) items

module _ (sample : List Candidate → ℕ → List Candidate) where
  -- _sample_guess_candidates
  sample_guess_candidates : List Candidate → ℕ → List Candidate
  sample_guess_candidates pool count =
      if count == 0 || length pool == 0
      then []
      else if leb (length pool) count
      then order_by sorts_before pool
      else order_by sorts_before (sample pool count)

  -- One bucket of the loop, `sampled` or ordered.
  add_bucket : ℕ → Bool → List Candidate → List Candidate → List Candidate
  unfolding sample_guess_candidates
  add_bucket batch_size sampled bucket selected =
      let remaining = unselected selected bucket in
      let need = batch_size - length selected in
      if leb batch_size (length selected)
      then selected
      else if sampled
      then selected ++ sample_guess_candidates remaining need
      else selected ++ take need remaining

  bucket_of : Bool → String → List Candidate → List Candidate
  bucket_of touched lane pool =
      filter (λ x. bool_eq x.touched touched && str_eq x.boundary_lane lane) pool

  -- What is left of the batch, from the rest of the pool.
  fill_batch : ℕ → List Candidate → List Candidate → List Candidate
  fill_batch batch_size pool selected =
      if ltb (length selected) batch_size && ltb (length selected) (length pool)
      then selected
        ++ take (batch_size - length selected) (order_by sorts_before (unselected selected pool))
      else selected

  -- _select_boundary_candidates_from_pool
  pub select_boundary_candidates_from_pool : List Candidate → ℕ → List Candidate
  unfolding add_bucket bucket_of fill_batch
  select_boundary_candidates_from_pool pool batch_size =
      let touched_strict =
        add_bucket batch_size false (order_by sorts_before (bucket_of true "strict" pool)) [] in
      let touched_guess = add_bucket batch_size true (bucket_of true "guess" pool) touched_strict in
      let untouched_strict =
        add_bucket batch_size false (order_by sorts_before (bucket_of false "strict" pool))
          touched_guess in
      let untouched_guess =
        add_bucket batch_size true (bucket_of false "guess" pool) untouched_strict in
      fill_batch batch_size pool untouched_guess

  -- _select_boundary_batch, without the counts for the log.
  pub select_boundary_batch : List Candidate → ℕ → List Candidate
  unfolding select_boundary_candidates_from_pool
  select_boundary_batch candidates batch_size =
      let untried = filter (λ (x : Candidate). not x.tried) candidates in
      let retryable = filter (λ (x : Candidate). x.tried) candidates in
      if length untried == 0
      then select_boundary_candidates_from_pool retryable batch_size
      else select_boundary_candidates_from_pool untried batch_size
