-- ===== src/Executor/Values.antt =====
-- The values of a plan: their lengths and bounds.
use native.Mathlib.Omega.{div_fact, mod_fact}
use s2afl.Prelude.{
  ℕ, zero, suc, ◌+◌, ◌*◌, ◌/◌, ◌≤◌, false, ◌||◌, Option, none, some, List, [], ◌∷◌, ◌++◌, Text, ◌≡◌,
  refl, ◌∙◌, inl, inr, arith, ◌==◌, length, length-append, length-take, length-replicate, take, any,
  all, ℤ, pos, negsuc, clamp, Bool-cases,
}
use s2afl.Text.{is_space}
use s2afl.Executor.{
  stretch_value, stretch_pattern, is_control, repeat, int_to_nat, min_to_nat, repeat_counts,
  sequence_repeat_counts,
}

length-repeat : (k : ℕ) (p : Text) → length (repeat k p) ≡ k * length p
length-repeat zero p = omega arith
length-repeat (suc k) p = omega (arith, length-append p (repeat k p), length-repeat k p)

repeat-enough : (n k : ℕ) → n ≤ (n / suc k + 2) * suc k
repeat-enough n k = omega (arith, div_fact n k, mod_fact n k)

stretch_pattern-nonempty : (s : Text) → (k : ℕ) × (length (stretch_pattern s) ≡ suc k)
unfolding stretch_pattern
stretch_pattern-nonempty [] = (0, refl)
stretch_pattern-nonempty (c ∷ s) = elim (Bool-cases (all is_space (c ∷ s))) [
  | inl e ↦ (0, rw e refl)
  | inr e ↦ (length s, rw e refl)
]

-- The length that `_stretch_value` is asked for.
abbrev pub asked_length : ℤ → Option ℕ → ℕ
asked_length size none = int_to_nat size
asked_length size (some m) = min_to_nat size m

take-repeat :
    (n : ℕ) (p : Text) (k : ℕ)
    → length p ≡ suc k
    → length (take n (repeat (n / length p + 2) p)) ≡ n
take-repeat n p k e =
    let enough = repeat-enough n k in
    length-take n (repeat (n / length p + 2) p)
    ∙ (rw (length-repeat (n / length p + 2) p, e) (omega (arith, enough)))

-- `_stretch_value` returns a text of the length that it is asked for, cut at `max_length`, of any
-- original, the empty one and those with line ends included.
pub length-stretch_value :
    (original : Text) (size : ℤ) (max_length : Option ℕ)
    → length (stretch_value original size max_length) ≡ asked_length size max_length
unfolding stretch_value
length-stretch_value original size max_length =
    let n = asked_length size max_length in
    let (k, e) = stretch_pattern-nonempty original in
    elim (Bool-cases (n == 0)) [
      | inl z ↦ rw z (ground (arith, z))
      | inr z ↦ elim (Bool-cases (any is_control original)) [
        | inl f ↦ rw (z, f) (length-replicate n b'A')
        | inr f ↦ rw (z, f) (take-repeat n (stretch_pattern original) k e)
      ]
    ]

-- Within the range, and not there yet.
abbrev pub IsCounts : List ℕ → Type 0
IsCounts [] = Unit
IsCounts (n ∷ counts) = (2 ≤ n) × (n ≤ 32) × (any (λ k. n == k) counts ≡ false) × IsCounts counts

any-append :
    (n : ℕ) (xs ys : List ℕ)
    → any (λ k. n == k) (xs ++ ys) ≡ (any (λ k. n == k) xs || any (λ k. n == k) ys)
any-append n [] ys = refl
any-append n (x ∷ xs) ys = ground (arith, any-append n xs ys)

IsCounts-append :
    (n : ℕ) (counts : List ℕ)
    → 2 ≤ n
    → n ≤ 32
    → any (λ k. n == k) counts ≡ false
    → IsCounts counts
    → IsCounts (counts ++ n ∷ [])
IsCounts-append n [] l u f h = (l, u, refl, tt)
IsCounts-append n (m ∷ counts) l u f (a, b, c, h) = (
  a,
  b,
  rw (any-append m counts (n ∷ [])) (ground (arith, c, f)),
  IsCounts-append n counts l u (ground (arith, f)) h,
)

clamp-range : (i : ℤ) → (2 ≤ clamp 2 32 i) × (clamp 2 32 i ≤ 32)
clamp-range (pos n) = (omega arith, omega arith)
clamp-range (negsuc n) = (omega arith, omega arith)

repeat_counts-IsCounts :
    (values : List (Option ℤ)) (counts : List ℕ)
    → IsCounts counts
    → IsCounts (repeat_counts values counts)
      × (length (repeat_counts values counts) ≤ length counts + length values)
unfolding repeat_counts
repeat_counts-IsCounts [] counts h = (h, omega arith)
repeat_counts-IsCounts (none ∷ values) counts h =
    let (a, b) = repeat_counts-IsCounts values counts h in (a, omega (arith, b))
repeat_counts-IsCounts (some i ∷ values) counts h =
    let range = clamp-range i in
    elim (Bool-cases (any (λ k. clamp 2 32 i == k) counts)) [
      | inl e ↦ let (a, b) = repeat_counts-IsCounts values counts h in rw e (a, omega (arith, b))
      | inr e ↦
          let (a, b) =
            repeat_counts-IsCounts values (counts ++ clamp 2 32 i ∷ [])
              (IsCounts-append (clamp 2 32 i) counts range.0 range.1 e h) in
          let size = length-append counts (clamp 2 32 i ∷ []) in rw e (a, omega (arith, b, size))
    ]

-- The default for no counts.
at_most :
    (counts : List ℕ)
    → IsCounts counts
    → length counts ≤ 4
    → (let l : List ℕ = elim counts [ [] ↦ 2 ∷ 4 ∷ 8 ∷ [] | n ∷ ns ↦ n ∷ ns ] in
        IsCounts l × (1 ≤ length l) × (length l ≤ 4))
at_most [] h l = (
  (
    omega arith,
    omega arith,
    refl,
    (omega arith, omega arith, refl, (omega arith, omega arith, refl, tt)),
  ),
  omega arith,
  omega arith,
)
at_most (n ∷ ns) h l = (h, omega arith, l)

-- `_sequence_repeat_counts` returns between one and four counts, each from 2 to 32 and no two of
-- them equal, whatever the values of the plan are.
pub sequence_repeat_counts_lem :
    (values : List (Option ℤ))
    → IsCounts (sequence_repeat_counts values)
      × (1 ≤ length (sequence_repeat_counts values))
      × (length (sequence_repeat_counts values) ≤ 4)
unfolding sequence_repeat_counts
sequence_repeat_counts_lem values =
    let found = repeat_counts-IsCounts (take 4 values) [] tt in
    let size = length-take 4 values in
    at_most (repeat_counts (take 4 values) []) found.0 (let b = found.1 in omega (arith, b, size))
