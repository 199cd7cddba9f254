-- ===== src/Dict.antt =====
-- Python's `dict` with text keys, in the order of insertion, and the JSON values that the program
-- writes with json.dumps and reads back with json.loads.
use s2afl.Prelude.{
  ℕ, String, Bool, Option, none, some, List, [], ◌∷◌, ◌≡◌, refl, arith, str_eq, eq_iff,
  if◌then◌else◌,
}

abbrev pub Dict {ℓ} : Type ℓ → Type ℓ
Dict V = List (String × V)

-- The program stores no negative number.
mutual
  pub data Json : Type 0 where
    null : Json
    bool : Bool → Json
    num : ℕ → Json
    str : String → Json
    arr : Items → Json
    obj : Fields → Json

  pub data Items : Type 0 where
    nil : Items
    cons : Json → Items → Items

  pub data Fields : Type 0 where
    end : Fields
    field : String → Json → Fields → Fields

module _ {ℓ} {V : Type ℓ} where
  -- d.get(k)
  unfoldable pub get : String → Dict V → Option V
  get k [] = none
  get k ((j, v) ∷ d) = if str_eq j k then some v else get k d

  -- d[k] = v: a key that is there keeps its place.
  unfoldable pub put : String → V → Dict V → Dict V
  put k v [] = (k, v) ∷ []
  put k v ((j, w) ∷ d) = if str_eq j k then (k, v) ∷ d else (j, w) ∷ put k v d

  -- d.update(e)
  unfoldable pub merge : Dict V → Dict V → Dict V
  unfolding put
  merge d [] = d
  merge d ((k, v) ∷ e) = merge (put k v d) e

  -- Keys of a dict are distinct.
  abbrev pub IsDict : Dict V → Type ℓ
  IsDict [] = Unit
  IsDict ((k, v) ∷ d) = (get k d ≡ none) × IsDict d

  pub get-put :
      (k j : String) (v : V) (d : Dict V)
      → get j (put k v d) ≡ (if str_eq k j then some v else get j d)
  unfolding get put
  get-put k j v [] = refl
  get-put k j v ((i, w) ∷ d) = ground (arith, eq_iff k j, eq_iff i k, eq_iff i j, get-put k j v d)

  -- After `update` a key has the value of the second dict, and its own where that has none.
  pub get-merge :
      (j : String) (d e : Dict V)
      → IsDict e
      → get j (merge d e) ≡ elim (get j e) [ none ↦ get j d | some v ↦ some v ]
  unfolding get merge
  get-merge j d [] u = refl
  get-merge j d ((k, v) ∷ e) u =
      ground (arith, eq_iff k j, get-put k j v d, get-merge j (put k v d) e u.1, u.0)
