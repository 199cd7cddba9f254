-- ===== src/Table/Limit.antt =====
-- LIMIT behind ORDER BY: the first rows of a sort are in order, and no row that is left out sorts
-- before one of them.
use mathlib.Core.Path.{subst}
use s2afl.Prelude.{
  ℕ, zero, suc, Bool, false, List, [], ◌∷◌, ◌≡◌, sym, ◌⊎◌, inl, inr, In, All-In, All-of_In, take,
}
use s2afl.Table.Ordered.{Sorted}

pub take-In : {A : Type 0} (n : ℕ) (rows : List A) (r : A) → In r (take n rows) → In r rows
take-In zero rows r m = absurd m
take-In (suc n) [] r m = absurd m
take-In (suc n) (x ∷ rows) r (inl e) = inl e
take-In (suc n) (x ∷ rows) r (inr m) = inr (take-In n rows r m)

module _ {Row : Type 0} (before : Row → Row → Bool) where
  pub take-Sorted : (n : ℕ) (rows : List Row) → Sorted before rows → Sorted before (take n rows)
  take-Sorted zero rows s = tt
  take-Sorted (suc n) [] s = tt
  take-Sorted (suc n) (x ∷ rows) s = (
    All-of_In _ (take n rows)
        (λ r m. All-In (λ t. before t x ≡ false) rows s.0 (take-In n rows r m)),
    take-Sorted n rows s.1,
  )

  -- A row is among the first, or sorts before none of them.
  pub take-least :
      (n : ℕ) (rows : List Row) (r : Row)
      → Sorted before rows
      → In r rows
      → In r (take n rows) ⊎ ((s : Row) → In s (take n rows) → before r s ≡ false)
  take-least zero rows r sorted m = inr (λ s k. absurd k)
  take-least (suc n) [] r sorted m = absurd m
  take-least (suc n) (x ∷ rows) r sorted (inl e) = inl (inl e)
  take-least (suc n) (x ∷ rows) r sorted (inr m) = elim (take-least n rows r sorted.1 m) [
    | inl i ↦ inl (inr i)
    | inr f ↦ inr (λ s k. elim k [
      | inl e ↦
          subst (λ (t : Row). before r t ≡ false) (sym e)
            (All-In (λ t. before t x ≡ false) rows sorted.0 m)
      | inr i ↦ f s i
    ])
  ]
