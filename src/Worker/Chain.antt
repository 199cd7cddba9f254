-- ===== src/Worker/Chain.antt =====
-- `_has_required_prefix_chain`.
use s2afl.Prelude.{
  Bool, true, false, Option, none, some, List, [], ◌∷◌, map, Text, text_eq, if◌then◌else◌, ◌≡◌,
  refl, ◌↔◌, text_eq_sound, text_eq_refl, Bool-cases, Option-cases, inl, inr, arith,
}
use s2afl.Text.{upper}

-- seen[position + 1:], behind the first place of the item; StopIteration is `none`.
after_first : Text → List Text → Option (List Text)
unfolding text_eq
after_first item [] = none
after_first item (s ∷ seen) = if text_eq s item then some seen else after_first item seen

chain_loop : List Text → List Text → Bool
unfolding after_first
chain_loop [] seen = true
chain_loop (item ∷ chain) seen = elim (after_first item seen) [
  | none ↦ false
  | some rest ↦ chain_loop chain rest
]

-- _has_required_prefix_chain
unfoldable pub has_required_prefix_chain : List Text → List Text → Bool
unfolding chain_loop upper
has_required_prefix_chain required methods = chain_loop (map upper required) (map upper methods)

-- The first list is the second with items left out.
pub data Subsequence : List Text → List Text → Type 0 where
  nothing : Subsequence [] []
  skip : (s : Text) (xs ys : List Text) → Subsequence xs ys → Subsequence xs (s ∷ ys)
  keep : (s : Text) (xs ys : List Text) → Subsequence xs ys → Subsequence (s ∷ xs) (s ∷ ys)

Subsequence-tail : (x : Text) (xs ys : List Text) → Subsequence (x ∷ xs) ys → Subsequence xs ys
Subsequence-tail x xs [] h = elim h [ ]
Subsequence-tail x xs (s ∷ ys) (skip _ _ _ h) = skip s xs ys (Subsequence-tail x xs ys h)
Subsequence-tail x xs (s ∷ ys) (keep _ _ _ h) = skip s xs ys h

Subsequence-empty : (ys : List Text) → Subsequence [] ys
Subsequence-empty [] = nothing
Subsequence-empty (y ∷ ys) = skip y [] ys (Subsequence-empty ys)

after_first_sound :
    (x : Text) (xs ys rest : List Text)
    → after_first x ys ≡ some rest
    → Subsequence xs rest
    → Subsequence (x ∷ xs) ys
unfolding after_first
after_first_sound x xs [] rest h r = cc
after_first_sound x xs (y ∷ ys) rest h r = elim (Bool-cases (text_eq y x)) [
  | inl e ↦
      let same : rest ≡ ys = ground arith in
      rw (← text_eq_sound y x e) (keep y xs ys (rw (← same) r))
  | inr e ↦ skip y (x ∷ xs) ys (after_first_sound x xs ys rest (ground arith) r)
]

after_first_complete :
    (x : Text) (xs ys : List Text)
    → Subsequence (x ∷ xs) ys
    → (rest : List Text) × ((after_first x ys ≡ some rest) × Subsequence xs rest)
unfolding after_first
after_first_complete x xs [] h = elim h [ ]
after_first_complete x xs (s ∷ ys) (skip _ _ _ h) = elim (Bool-cases (text_eq s x)) [
  | inl e ↦ rw e (ys, (refl, Subsequence-tail x xs ys h))
  | inr e ↦ rw e (after_first_complete x xs ys h)
]
after_first_complete x xs (s ∷ ys) (keep _ _ _ h) = rw (text_eq_refl x) (ys, (refl, h))

chain_loop_sound : (xs ys : List Text) → chain_loop xs ys ≡ true → Subsequence xs ys
unfolding chain_loop
chain_loop_sound [] ys h = Subsequence-empty ys
chain_loop_sound (x ∷ xs) ys h = elim (Option-cases (after_first x ys)) [
  | inl e ↦ ground arith
  | inr found ↦
      after_first_sound x xs ys found.0 found.1
        (chain_loop_sound xs found.0 (ground (arith, found.1)))
]

chain_loop_complete : (xs ys : List Text) → Subsequence xs ys → chain_loop xs ys ≡ true
unfolding chain_loop
chain_loop_complete [] ys h = refl
chain_loop_complete (x ∷ xs) ys h =
    let found = after_first_complete x xs ys h in
    rw (chain_loop, (found.1).0) (chain_loop_complete xs found.0 (found.1).1)

-- `_has_required_prefix_chain` holds exactly when the required methods are a subsequence of the
-- methods, both in upper case.
pub has_required_prefix_chain_iff :
    (required methods : List Text)
    → (has_required_prefix_chain required methods ≡ true)
      ↔ Subsequence (map upper required) (map upper methods)
unfolding has_required_prefix_chain
has_required_prefix_chain_iff required methods = (
  chain_loop_sound (map upper required) (map upper methods),
  chain_loop_complete (map upper required) (map upper methods),
)
