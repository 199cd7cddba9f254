-- ===== src/Table.antt =====
-- sqlite3 tables as python/S2AFL/runtime/state_db.py uses them: rows in the order of insertion, one
-- text column that is the PRIMARY KEY, and the statements that the methods run. ORDER BY is a stable
-- sort, so that rows that compare equal stay in the order of insertion.
pub mod Laws
pub mod Limit
pub mod Ordered
use s2afl.Prelude.{
  ℕ, String, Bool, true, false, not, Option, none, some, List, [], ◌∷◌, ◌++◌, length, filter,
  str_eq, if◌then◌else◌, ◌≡◌,
}

module _ {Row : Type 0} (key : Row → String) where
  -- SELECT * FROM t WHERE key=? (fetchone)
  unfoldable pub find : String → List Row → Option Row
  find k [] = none
  find k (r ∷ rows) = if str_eq (key r) k then some r else find k rows

  -- UPDATE t SET … WHERE key=?
  unfoldable pub update : String → (Row → Row) → List Row → List Row
  update k f [] = []
  update k f (r ∷ rows) = (if str_eq (key r) k then f r else r) ∷ update k f rows

  unfoldable pub has_key : String → List Row → Bool
  has_key k [] = false
  has_key k (r ∷ rows) = if str_eq (key r) k then true else has_key k rows

  -- INSERT INTO t VALUES(…): `none` is sqlite3.IntegrityError, raised when the key is taken.
  unfoldable pub insert : Row → List Row → Option (List Row)
  unfolding has_key
  insert r rows = if has_key (key r) rows then none else some (rows ++ r ∷ [])

  -- INSERT … ON CONFLICT(key) DO UPDATE SET …, where `merge old excluded` is the updated row.
  unfoldable pub upsert : (Row → Row → Row) → Row → List Row → List Row
  upsert merge r [] = r ∷ []
  upsert merge r (old ∷ rows) =
      if str_eq (key old) (key r) then merge old r ∷ rows else old ∷ upsert merge r rows

  -- No two rows have one key.
  abbrev pub IsUnique : List Row → Type 0
  IsUnique [] = Unit
  IsUnique (r ∷ rows) = (has_key (key r) rows ≡ false) × IsUnique rows

module _ {Row : Type 0} where
  -- SELECT COUNT(*) FROM t WHERE p
  unfoldable pub count : (Row → Bool) → List Row → ℕ
  count p rows = length (filter p rows)

  -- SELECT 1 FROM t WHERE p LIMIT 1, and whether there is a row.
  unfoldable pub exists : (Row → Bool) → List Row → Bool
  exists p [] = false
  exists p (r ∷ rows) = if p r then true else exists p rows

module _ {Row : Type 0} (before : Row → Row → Bool) where
  place : Row → List Row → List Row
  place r [] = r ∷ []
  place r (s ∷ rows) = let rest = place r rows in if before s r then s ∷ rest else r ∷ s ∷ rows

  -- ORDER BY, where `before a b` holds if `a` sorts strictly before `b`.
  unfoldable pub order_by : List Row → List Row
  unfolding place
  order_by [] = []
  order_by (r ∷ rows) = place r (order_by rows)

  -- ORDER BY … LIMIT 1
  unfoldable pub first_by : List Row → Option Row
  first_by [] = none
  first_by (r ∷ rows) = elim (first_by rows) [
    | none ↦ some r
    | some s ↦ if before s r then some s else some r
  ]
