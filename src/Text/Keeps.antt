-- ===== src/Text/Keeps.antt =====
-- What stripping and replacing keep of the characters of a text.
use s2afl.Prelude.{
  ℕ, Bool, [], ◌∷◌, ◌++◌, ◌≡◌, Text, starts_with, All, Bool-cases, inl, inr, arith, if◌then◌else◌,
  ◌==◌,
}
use s2afl.Text.{lstrip, rstrip, rstrip_add}
use s2afl.Text.Replace.{replace, replace_from, unix_lines}

module _ (P : ℕ → Type 0) where
  pub lstrip-All : (f : ℕ → Bool) (s : Text) → All P s → All P (lstrip f s)
  unfolding lstrip
  lstrip-All f [] h = tt
  lstrip-All f (c ∷ s) (hc, h) = elim (Bool-cases (f c)) [
    | inl e ↦ rw e (lstrip-All f s h)
    | inr e ↦ rw e (hc, h)
  ]

  rstrip_add-All : (f : ℕ → Bool) (c : ℕ) (r : Text) → P c → All P r → All P (rstrip_add f c r)
  unfolding rstrip_add
  rstrip_add-All f c [] hc h = elim (Bool-cases (f c)) [ inl e ↦ rw e tt | inr e ↦ rw e (hc, tt) ]
  rstrip_add-All f c (d ∷ r) hc h = (hc, h)

  pub rstrip-All : (f : ℕ → Bool) (s : Text) → All P s → All P (rstrip f s)
  unfolding rstrip
  rstrip-All f [] h = tt
  rstrip-All f (c ∷ s) (hc, h) = rstrip_add-All f c (rstrip f s) hc (rstrip-All f s h)

-- The replacement of one character.
pub replace-char :
    (a c : ℕ) (q s : Text)
    → replace (a ∷ []) q (c ∷ s)
      ≡ (if c == a then q ++ replace (a ∷ []) q s else c ∷ replace (a ∷ []) q s)
unfolding replace replace_from starts_with
replace-char a c q s = ground arith

replace-lacks :
    (a b : ℕ) (s : Text) → ((b ≡ a) → ⊥) → All (λ c. (c ≡ a) → ⊥) (replace (a ∷ []) (b ∷ []) s)
replace-lacks a b [] n = unfold replace in tt
replace-lacks a b (c ∷ s) n =
    let more = replace-lacks a b s n in
    elim (Bool-cases (c == a)) [
      | inl e ↦ rw (replace-char a c (b ∷ []) s, e) (n, more)
      | inr e ↦ rw (replace-char a c (b ∷ []) s, e) (ground (arith, e), more)
    ]

-- Behind `unix_lines` no carriage return is left.
pub unix_lines-lacks : (s : Text) → All (λ c. (c ≡ 13) → ⊥) (unix_lines s)
unfolding unix_lines
unix_lines-lacks s = replace-lacks 13 10 (replace (13 ∷ 10 ∷ []) (10 ∷ []) s) (λ e. cc e)
