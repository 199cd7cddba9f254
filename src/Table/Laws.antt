-- ===== src/Table/Laws.antt =====
-- What a lookup finds after each statement, and that primary keys stay unique.
use s2afl.Prelude.{
  String, Bool, true, false, none, some, List, [], ◌∷◌, ◌++◌, ◌≡◌, refl, inl, inr, In, str_eq,
  str_eq_refl, eq_iff, if◌then◌else◌, arith, Bool-cases,
}
use s2afl.Table.{find, update, has_key, insert, upsert, IsUnique}
use mathlib.Core.Path.{subst}
use mathlib.Core.Option
use mathlib.Core.Option.{some-injective}

module _ {Row : Type 0} (key : Row → String) where
  pub find-update :
      (k j : String) (f : Row → Row) (rows : List Row)
      → ((r : Row) → key (f r) ≡ key r)
      → find key j (update key k f rows)
        ≡ (if str_eq k j then Option.map f (find key j rows) else find key j rows)
  unfolding find update
  find-update k j f [] keeps = ground arith
  find-update k j f (r ∷ rows) keeps = ground (
    arith,
    eq_iff (key r) k,
    eq_iff (key r) j,
    eq_iff k j,
    eq_iff (key (f r)) j,
    keeps r,
    find-update k j f rows keeps,
  )

  pub has_key-append :
      (j : String) (rows others : List Row)
      → has_key key j (rows ++ others) ≡ (if has_key key j rows then true else has_key key j others)
  unfolding has_key
  has_key-append j [] others = refl
  has_key-append j (r ∷ rows) others = ground (arith, has_key-append j rows others)

  pub has_key-update :
      (k j : String) (f : Row → Row) (rows : List Row)
      → ((r : Row) → key (f r) ≡ key r)
      → has_key key j (update key k f rows) ≡ has_key key j rows
  unfolding has_key update
  has_key-update k j f [] keeps = refl
  has_key-update k j f (r ∷ rows) keeps = ground (arith, keeps r, has_key-update k j f rows keeps)

  pub find-append :
      (j : String) (rows others : List Row)
      → find key j (rows ++ others)
        ≡ elim (find key j rows) [ none ↦ find key j others | some r ↦ some r ]
  unfolding find
  find-append j [] others = refl
  find-append j (r ∷ rows) others = ground (arith, find-append j rows others)

  -- A lookup that misses is a key that is not taken.
  pub find-none_iff :
      (j : String) (rows : List Row) → find key j rows ≡ none → has_key key j rows ≡ false
  unfolding find has_key
  find-none_iff j [] h = refl
  find-none_iff j (r ∷ rows) h = ground (arith, find-none_iff j rows)

  pub has_key-false :
      (j : String) (rows : List Row) → has_key key j rows ≡ false → find key j rows ≡ none
  unfolding find has_key
  has_key-false j [] h = refl
  has_key-false j (r ∷ rows) h = ground (arith, has_key-false j rows)

  pub find-key : (j : String) (rows : List Row) (r : Row) → find key j rows ≡ some r → key r ≡ j
  unfolding find
  find-key j [] r h = cc
  find-key j (s ∷ rows) r h = ground (arith, eq_iff (key s) j, find-key j rows r)

  pub find-In : (j : String) (rows : List Row) (r : Row) → find key j rows ≡ some r → In r rows
  unfolding find
  find-In j [] r h = cc
  find-In j (s ∷ rows) r h = elim (Bool-cases (str_eq (key s) j)) [
    | inl e ↦ inl (ground arith)
    | inr e ↦ inr (find-In j rows r (ground arith))
  ]

  pub In-has_key : (r : Row) (rows : List Row) → In r rows → has_key key (key r) rows ≡ true
  unfolding has_key
  In-has_key r [] m = absurd m
  In-has_key r (s ∷ rows) (inl e) = ground (arith, str_eq_refl (key s))
  In-has_key r (s ∷ rows) (inr m) = ground (arith, In-has_key r rows m)

  -- With unique keys, a row is found under its key.
  pub find_of_In :
      (r : Row) (rows : List Row) → IsUnique key rows → In r rows → find key (key r) rows ≡ some r
  unfolding find
  find_of_In r [] u m = absurd m
  find_of_In r (s ∷ rows) u (inl e) = ground (arith, str_eq_refl (key s))
  find_of_In r (s ∷ rows) u (inr m) =
      ground (arith, eq_iff (key s) (key r), In-has_key r rows m, find_of_In r rows u.1 m)

  pub find-insert :
      (j : String) (r : Row) (rows t : List Row)
      → insert key r rows ≡ some t
      → find key j t ≡ (if str_eq (key r) j then some r else find key j rows)
  unfolding insert find
  find-insert j r rows t h =
      ground (arith, find-append j rows (r ∷ []), has_key-false (key r) rows, eq_iff (key r) j)

  pub find-upsert :
      (j : String) (merge : Row → Row → Row) (r : Row) (rows : List Row)
      → ((old new : Row) → key (merge old new) ≡ key old)
      → find key j (upsert key merge r rows) ≡ (
          if str_eq (key r) j
          then elim (find key j rows) [ none ↦ some r | some old ↦ some (merge old r) ]
          else find key j rows)
  unfolding find upsert
  find-upsert j merge r [] keeps = ground arith
  find-upsert j merge r (s ∷ rows) keeps = ground (
    arith,
    keeps s r,
    eq_iff (key s) j,
    eq_iff (key r) j,
    eq_iff (key s) (key r),
    find-upsert j merge r rows keeps,
  )

  pub update-IsUnique :
      (k : String) (f : Row → Row) (rows : List Row)
      → ((r : Row) → key (f r) ≡ key r)
      → IsUnique key rows
      → IsUnique key (update key k f rows)
  unfolding update
  update-IsUnique k f [] keeps u = tt
  update-IsUnique k f (r ∷ rows) keeps u = (
    ground (arith, keeps r, has_key-update k (key r) f rows keeps),
    update-IsUnique k f rows keeps u.1,
  )

  pub append-IsUnique :
      (r : Row) (rows : List Row)
      → has_key key (key r) rows ≡ false
      → IsUnique key rows
      → IsUnique key (rows ++ r ∷ [])
  unfolding has_key
  append-IsUnique r [] free u = (refl, tt)
  append-IsUnique r (s ∷ rows) free u = (
    ground (
      arith,
      has_key-append (key s) rows (r ∷ []),
      eq_iff (key r) (key s),
      eq_iff (key s) (key r),
    ),
    append-IsUnique r rows (ground arith) u.1,
  )

  insert_step-IsUnique :
      (r : Row) (rows t : List Row) (taken : Bool)
      → has_key key (key r) rows ≡ taken
      → (if taken then none else some (rows ++ r ∷ [])) ≡ some t
      → IsUnique key rows
      → IsUnique key t
  insert_step-IsUnique r rows t true e h u = cc
  insert_step-IsUnique r rows t false e h u =
      subst (IsUnique key) (some-injective _ _ h) (append-IsUnique r rows e u)

  pub insert-IsUnique :
      (r : Row) (rows t : List Row)
      → insert key r rows ≡ some t
      → IsUnique key rows
      → IsUnique key t
  unfolding insert
  insert-IsUnique r rows t = insert_step-IsUnique r rows t (has_key key (key r) rows) refl
