-- ===== src/Scheduler/Batch/Selection.antt =====
-- What `_select_boundary_batch` promises: a batch is not empty, not too large, and of one pool.
use s2afl.Prelude.{
  ℕ, zero, suc, ◌+◌, ◌-◌, ◌≤◌, ◌<◌, String, Bool, true, false, not, ◌&&◌, ◌||◌, List, [], ◌∷◌, ◌++◌,
  ◌≡◌, ◌≢◌, refl, ap, inl, inr, arith, ltb, leb, ◌==◌, any, filter, length, take, length-append,
  length-take, In, All, All-append, All-In, All-of_In, In-filter, filter-In, Bool-cases,
}
use s2afl.Table.{order_by}
use s2afl.Table.Ordered.{order_by-In, length-order_by}
use s2afl.Scheduler.Batch.{
  Candidate, same_item, sorts_before, unselected, sample_guess_candidates, add_bucket, bucket_of,
  fill_batch, select_boundary_candidates_from_pool, select_boundary_batch,
}

-- random.sample(pool, count) for a count that the pool has: as many of its items.
pub record IsSample (sample : List Candidate → ℕ → List Candidate) : Type 0 where
  pub size : (pool : List Candidate) (n : ℕ) → n < length pool → length (sample pool n) ≡ n
  pub inside :
      (pool : List Candidate) (n : ℕ) → n < length pool → All (λ x. In x pool) (sample pool n)

All-take :
    (P : Candidate → Type 0) (n : ℕ) (items : List Candidate) → All P items → All P (take n items)
All-take P zero items h = tt
All-take P (suc n) [] h = tt
All-take P (suc n) (a ∷ items) (p, h) = (p, All-take P n items h)

All-filter :
    (P : Candidate → Type 0) (f : Candidate → Bool) (items : List Candidate)
    → All P items
    → All P (filter f items)
All-filter P f items h = All-of_In P _ (λ a m. All-In P items h (filter-In f items a m).0)

All-order_by :
    (P : Candidate → Type 0) (items : List Candidate)
    → All P items
    → All P (order_by sorts_before items)
All-order_by P items h =
    All-of_In P _ (λ a m. All-In P items h ((order_by-In sorts_before a items).0 m))

-- A selection of at most `n` items that all have a property.
abbrev pub Fits : (Candidate → Type 0) → ℕ → List Candidate → Type 0
Fits P n items = (length items ≤ n) × All P items

module _ (sample : List Candidate → ℕ → List Candidate) (law : IsSample sample)
    (P : Candidate → Type 0) where
  sample-Fits :
      (pool : List Candidate) (n : ℕ)
      → All P pool
      → Fits P n (sample_guess_candidates sample pool n)
  unfolding sample_guess_candidates
  sample-Fits pool n h = elim (Bool-cases (n == 0 || length pool == 0)) [
    | inl e ↦ rw e (ground arith, tt)
    | inr e ↦ elim (Bool-cases (leb (length pool) n)) [
      | inl f ↦
          rw (e, f) (rw (length-order_by sorts_before pool) (ground arith), All-order_by P pool h)
      | inr f ↦
          let less : n < length pool = ground arith in
          rw (e, f)
            (
              rw (length-order_by sorts_before (sample pool n), law.size pool n less)
                  (ground arith),
              All-order_by P (sample pool n)
                  (All-of_In P _ (λ a m. All-In P pool h (All-In _ _ (law.inside pool n less) m))),
            )
    ]
  ]

  append-Fits :
      (n : ℕ) (selected more : List Candidate)
      → Fits P n selected
      → Fits P (n - length selected) more
      → Fits P n (selected ++ more)
  append-Fits n selected more (k, h) (l, g) =
      (rw (length-append selected more) (omega (arith, k, l)), All-append P selected more h g)

  take-Fits : (n : ℕ) (items : List Candidate) → All P items → Fits P n (take n items)
  take-Fits n items h = (rw (length-take n items) (ground arith), All-take P n items h)

  add_bucket-Fits :
      (n : ℕ) (sampled : Bool) (bucket selected : List Candidate)
      → All P bucket
      → Fits P n selected
      → Fits P n (add_bucket sample n sampled bucket selected)
  unfolding add_bucket
  add_bucket-Fits n sampled bucket selected h fits = elim (Bool-cases (leb n (length selected))) [
    | inl e ↦ rw e fits
    | inr e ↦
        let remaining = All-filter P (λ x. not (any (same_item x) selected)) bucket h in
        elim (Bool-cases sampled) [
          | inl f ↦ rw (e, f) (append-Fits n selected _ fits (sample-Fits _ _ remaining))
          | inr f ↦ rw (e, f) (append-Fits n selected _ fits (take-Fits _ _ remaining))
        ]
  ]

  fill_batch-Fits :
      (n : ℕ) (pool selected : List Candidate)
      → All P pool
      → Fits P n selected
      → Fits P n (fill_batch sample n pool selected)
  unfolding fill_batch
  fill_batch-Fits n pool selected h fits =
      elim (Bool-cases (ltb (length selected) n && ltb (length selected) (length pool))) [
        | inl e ↦ rw e (
            append-Fits n selected _ fits (
              take-Fits _ _
                (All-order_by P _ (All-filter P (λ x. not (any (same_item x) selected)) pool h))))
        | inr e ↦ rw e fits
      ]

  bucket-All :
      (touched : Bool) (lane : String) (pool : List Candidate)
      → All P pool
      → All P (bucket_of sample touched lane pool)
  unfolding bucket_of
  bucket-All touched lane pool h = All-filter P _ pool h

  -- Five steps, each of which keeps to the bound.
  select-Fits :
      (pool : List Candidate) (n : ℕ)
      → All P pool
      → Fits P n (select_boundary_candidates_from_pool sample pool n)
  unfolding select_boundary_candidates_from_pool
  select-Fits pool n h =
      let bucket = λ (t : Bool) (lane : String). bucket-All t lane pool h in
      let strict = λ (t : Bool). All-order_by P _ (bucket t "strict") in
      fill_batch-Fits n pool _ h (
        add_bucket-Fits n true _ _ (bucket false "guess") (
          add_bucket-Fits n false _ _ (strict false) (
            add_bucket-Fits n true _ _ (bucket true "guess")
              (add_bucket-Fits n false _ [] (strict true) (omega arith, tt)))))

filter-true : (items : List Candidate) → unselected [] items ≡ items
filter-true [] = refl
filter-true (a ∷ items) = ap (λ (l : List Candidate). a ∷ l) (filter-true items)

length-split :
    (items : List Candidate)
    → length (filter (λ (x : Candidate). not x.tried) items)
        + length (filter (λ (x : Candidate). x.tried) items)
      ≡ length items
length-split [] = refl
length-split (a ∷ items) = ground (arith, length-split items)

empty-In : (items : List Candidate) (a : Candidate) → In a items → length items ≢ 0
empty-In [] a m h = absurd m
empty-In (b ∷ items) a m h = omega (arith, h)

module _ (sample : List Candidate → ℕ → List Candidate) where
  fill_batch-nonempty :
      (n : ℕ) (pool selected : List Candidate)
      → 1 ≤ n
      → 1 ≤ length pool
      → 1 ≤ length (fill_batch sample n pool selected)
  unfolding fill_batch
  fill_batch-nonempty n pool [] h k =
      let all = filter-true pool in
      let size = length-take (n - 0) (order_by sorts_before (unselected [] pool)) in
      let sorted = length-order_by sorts_before (unselected [] pool) in
      let count = ap (λ (l : List Candidate). length l) all in
      let test : (ltb 0 n && ltb 0 (length pool)) ≡ true = ground (arith, h, k) in
      rw test (omega (arith, size, sorted, count, h, k))
  fill_batch-nonempty n pool (a ∷ selected) h k =
      elim (Bool-cases
        (ltb (length (a ∷ selected)) n && ltb (length (a ∷ selected)) (length pool))) [
          | inl e ↦ rw e (omega arith)
          | inr e ↦ rw e (omega arith)
        ]

  select-nonempty :
      (pool : List Candidate) (n : ℕ)
      → 1 ≤ n
      → 1 ≤ length pool
      → 1 ≤ length (select_boundary_candidates_from_pool sample pool n)
  unfolding select_boundary_candidates_from_pool
  select-nonempty pool n h k = fill_batch-nonempty n pool _ h k

  -- A batch that is selected from at least one candidate has at least one item and no more than
  -- the batch size, if that is at least one; its items are candidates, and they are tried ones
  -- only if every candidate is. `random.sample` is a function that takes so many items of the
  -- pool.
  pub select_boundary_batch_lem :
      (candidates : List Candidate) (n : ℕ)
      → IsSample sample
      → 1 ≤ n
      → 1 ≤ length candidates
      → (1 ≤ length (select_boundary_batch sample candidates n))
        × (length (select_boundary_batch sample candidates n) ≤ n)
        × All
            (λ x.
              In x candidates
              × ((y : Candidate) → In y candidates → x.tried ≡ true → y.tried ≡ true))
            (select_boundary_batch sample candidates n)
  unfolding select_boundary_batch
  select_boundary_batch_lem candidates n law h k =
      let untried = filter (λ (x : Candidate). not x.tried) candidates in
      let retryable = filter (λ (x : Candidate). x.tried) candidates in
      let P = λ (x : Candidate).
        In x candidates × ((y : Candidate) → In y candidates → x.tried ≡ true → y.tried ≡ true) in
      let split = length-split candidates in
      elim (Bool-cases (length untried == 0)) [
        | inl e ↦
            let size : 1 ≤ length retryable = ground (arith, e, split, k) in
            let fits = select-Fits sample law P retryable n (
              All-of_In P retryable (λ a m. (
                (filter-In (λ (x : Candidate). x.tried) candidates a m).0,
                λ y i t. elim (Bool-cases y.tried) [
                  | inl g ↦ g
                  | inr g ↦ absurd (
                      empty-In untried y
                        (In-filter (λ (x : Candidate). not x.tried) candidates y i (rw g refl))
                        (ground (arith, e)))
                ],
              ))) in
            rw e (select-nonempty retryable n h size, fits.0, fits.1)
        | inr e ↦
            let size : 1 ≤ length untried = ground (arith, e) in
            let fits = select-Fits sample law P untried n (
              All-of_In P untried (λ a m.
                let found = filter-In (λ (x : Candidate). not x.tried) candidates a m in
                (found.0, λ y i t. absurd (let f = found.1 in ground (arith, t, f))))) in
            rw e (select-nonempty untried n h size, fits.0, fits.1)
      ]
