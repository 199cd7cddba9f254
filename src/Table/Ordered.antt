-- ===== src/Table/Ordered.antt =====
-- ORDER BY and LIMIT 1: the sort permutes the rows and is in order, and LIMIT 1 takes a row that no
-- other row sorts before.
use s2afl.Prelude.{
  ℕ, suc, length, ap, ◌∙◌, Bool, true, false, Option, none, some, List, [], ◌∷◌, ◌≡◌, refl, ◌↔◌,
  inl, inr, In, if◌then◌else◌, arith, Bool-cases, All, All-In, All-of_In,
}
use s2afl.Table.{place, order_by, first_by}
use mathlib.Core.Path.{subst}
use mathlib.Core.Option.{some-injective}
use mathlib.Core.List.{Perm}
use mathlib.Core.List.Perm

module _ {Row : Type 0} (before : Row → Row → Bool) where
  place-perm : (r : Row) (rows : List Row) → Perm (place before r rows) (r ∷ rows)
  unfolding place
  place-perm r [] = Perm.refl (r ∷ [])
  place-perm r (s ∷ rows) = elim (Bool-cases (before s r)) [
    | inl e ↦ rw e (Perm.trans (Perm.cons s (place-perm r rows)) (Perm.swap r s rows))
    | inr e ↦ rw e (Perm.refl (r ∷ s ∷ rows))
  ]

  -- ORDER BY neither drops nor repeats a row.
  pub order_by-perm : (rows : List Row) → Perm (order_by before rows) rows
  unfolding order_by
  order_by-perm [] = Perm.refl []
  order_by-perm (r ∷ rows) =
      Perm.trans (place-perm r (order_by before rows)) (Perm.cons r (order_by-perm rows))

  -- Every row stands behind those that sort before it.
  abbrev pub Sorted : List Row → Type 0
  Sorted [] = Unit
  Sorted (r ∷ rows) = All (λ s. before s r ≡ false) rows × Sorted rows

  pub first_by-In : (rows : List Row) (r : Row) → first_by before rows ≡ some r → In r rows
  unfolding first_by
  first_by-In [] r h = cc
  first_by-In (x ∷ rows) r h = pick (first_by before rows) (first_by-In rows) h
    where
      pick :
          (o : Option Row)
          → ((s : Row) → o ≡ some s → In s rows)
          → elim o [ none ↦ some x | some s ↦ if before s x then some s else some x ] ≡ some r
          → In r (x ∷ rows)
      pick none ih e = inl (ground arith)
      pick (some s) ih e = elim (Bool-cases (before s x)) [
        | inl t ↦ inr (ih r (ground arith))
        | inr f ↦ inl (ground arith)
      ]

  pub first_by-none : (rows : List Row) → first_by before rows ≡ none → rows ≡ []
  unfolding first_by
  first_by-none [] h = refl
  first_by-none (x ∷ rows) h = ground arith

-- A strict weak order, as the comparison of two tuples of columns is.
pub record IsOrder {Row : Type 0} (before : Row → Row → Bool) : Type 0 where
  pub asym : (a b : Row) → before a b ≡ true → before b a ≡ false
  pub weak : (a b c : Row) → before a b ≡ false → before b c ≡ false → before a c ≡ false

module _ {Row : Type 0} (before : Row → Row → Bool) (o : IsOrder before) where
  irrefl : (a : Row) → before a a ≡ false
  irrefl a = elim (Bool-cases (before a a)) [ inl e ↦ o.asym a a e | inr e ↦ e ]

  first_step :
      (x r : Row) (rows : List Row) (found : Option Row)
      → (found ≡ none → rows ≡ [])
      → ((s : Row) → found ≡ some s → All (λ t. before t s ≡ false) rows)
      → elim found [ none ↦ some x | some s ↦ if before s x then some s else some x ] ≡ some r
      → All (λ t. before t r ≡ false) (x ∷ rows)
  first_step x r rows none empty ih h =
      let e : x ≡ r = some-injective _ _ h in
      subst (λ q. All (λ t. before t q ≡ false) (x ∷ rows)) e (rw (empty refl) (irrefl x, tt))
  first_step x r rows (some s) empty ih h = elim (Bool-cases (before s x)) [
    | inl e ↦
        let same : s ≡ r = some-injective _ _ (rw e at h) in
        subst (λ q. All (λ t. before t q ≡ false) (x ∷ rows)) same (o.asym s x e, ih s refl)
    | inr e ↦
        let same : x ≡ r = some-injective _ _ (rw e at h) in
        subst (λ q. All (λ t. before t q ≡ false) (x ∷ rows)) same
          (irrefl x, All-of_In _ rows λ t m. o.weak t s x (All-In _ rows (ih s refl) m) e)
  ]

  -- No row sorts strictly before the one that LIMIT 1 returns.
  pub first_by-least :
      (rows : List Row) (r : Row)
      → first_by before rows ≡ some r
      → All (λ t. before t r ≡ false) rows
  unfolding first_by
  first_by-least [] r h = tt
  first_by-least (x ∷ rows) r h =
      first_step x r rows (first_by before rows) (first_by-none before rows) (first_by-least rows) h

  place-All :
      (b r : Row) (rows : List Row)
      → before r b ≡ false
      → All (λ s. before s b ≡ false) rows
      → All (λ s. before s b ≡ false) (place before r rows)
  unfolding place
  place-All b r [] h a = (h, tt)
  place-All b r (s ∷ rows) h a = elim (Bool-cases (before s r)) [
    | inl e ↦ rw e (a.0, place-All b r rows h a.1)
    | inr e ↦ rw e (h, a)
  ]

  place-Sorted :
      (r : Row) (rows : List Row) → Sorted before rows → Sorted before (place before r rows)
  unfolding place
  place-Sorted r [] s = (tt, tt)
  place-Sorted r (x ∷ rows) s = elim (Bool-cases (before x r)) [
    | inl e ↦ rw e (place-All x r rows (o.asym x r e) s.0, place-Sorted r rows s.1)
    | inr e ↦ rw e ((e, All-of_In _ rows λ t m. o.weak t x r (All-In _ rows s.0 m) e), s)
  ]

  -- ORDER BY puts every row behind those that sort before it.
  pub order_by-Sorted : (rows : List Row) → Sorted before (order_by before rows)
  unfolding order_by
  order_by-Sorted [] = tt
  order_by-Sorted (r ∷ rows) = place-Sorted r (order_by before rows) (order_by-Sorted rows)

module _ {Row : Type 0} (before : Row → Row → Bool) where
  past :
      (a r s : Row) (rows rest : List Row)
      → (In a (r ∷ rows) → In a rest)
      → In a (r ∷ s ∷ rows)
      → In a (s ∷ rest)
  past a r s rows rest f (inl e) = inr (f (inl e))
  past a r s rows rest f (inr (inl e)) = inl e
  past a r s rows rest f (inr (inr i)) = inr (f (inr i))

  back :
      (a r s : Row) (rows rest : List Row)
      → (In a rest → In a (r ∷ rows))
      → In a (s ∷ rest)
      → In a (r ∷ s ∷ rows)
  back a r s rows rest f (inl e) = inr (inl e)
  back a r s rows rest f (inr i) = elim (f i) [ inl e ↦ inl e | inr k ↦ inr (inr k) ]

  place-In : (a r : Row) (rows : List Row) → In a (place before r rows) ↔ In a (r ∷ rows)
  unfolding place
  place-In a r [] = (λ m. m, λ m. m)
  place-In a r (s ∷ rows) = elim (Bool-cases (before s r)) [
    | inl e ↦ rw e (
      back a r s rows (place before r rows) (place-In a r rows).0,
      past a r s rows (place before r rows) (place-In a r rows).1,
    )
    | inr e ↦ rw e (λ m. m, λ m. m)
  ]

  -- ORDER BY returns the rows that are there.
  pub order_by-In : (a : Row) (rows : List Row) → In a (order_by before rows) ↔ In a rows
  unfolding order_by
  order_by-In a [] = (λ m. m, λ m. m)
  order_by-In a (r ∷ rows) = (
    λ m. elim ((place-In a r (order_by before rows)).0 m) [
      | inl e ↦ inl e
      | inr i ↦ inr ((order_by-In a rows).0 i)
    ],
    λ m.
        (place-In a r (order_by before rows)).1
          (elim m [ inl e ↦ inl e | inr i ↦ inr ((order_by-In a rows).1 i) ]),
  )

  length-place : (a : Row) (rows : List Row) → length (place before a rows) ≡ suc (length rows)
  unfolding place
  length-place a [] = refl
  length-place a (b ∷ rows) = ground (arith, length-place a rows)

  pub length-order_by : (rows : List Row) → length (order_by before rows) ≡ length rows
  unfolding order_by
  length-order_by [] = refl
  length-order_by (a ∷ rows) =
      length-place a (order_by before rows) ∙ ap (λ (n : ℕ). suc n) (length-order_by rows)
