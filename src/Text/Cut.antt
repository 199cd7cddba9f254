-- ===== src/Text/Cut.antt =====
-- What `find_cut` returns.
use s2afl.Prelude.{
  ℕ, ◌+◌, true, false, none, some, [], ◌∷◌, ◌++◌, ◌≡◌, refl, ap, Text, length, length-append, drop,
  starts_with, arith, Bool-cases, Option-cases, inl, inr,
}
use s2afl.Text.{find_cut, crlf}

starts_with-split : (s p : Text) → starts_with s p ≡ true → s ≡ p ++ drop (length p) s
unfolding starts_with
starts_with-split s [] h = refl
starts_with-split [] (b ∷ p) h = cc
starts_with-split (a ∷ s) (b ∷ p) h = ground (arith, starts_with-split s p)

pub starts_with-append : (p s : Text) → starts_with (p ++ s) p ≡ true
unfolding starts_with
starts_with-append [] s = refl
starts_with-append (a ∷ p) s = ground (arith, starts_with-append p s)

pub drop-append : (p s : Text) → drop (length p) (p ++ s) ≡ s
drop-append [] s = refl
drop-append (a ∷ p) s = drop-append p s

-- The text is the part before the pattern, the pattern and the part behind it.
pub find_cut-some : (p s a b : Text) → find_cut p s ≡ some (a, b) → s ≡ a ++ p ++ b
unfolding find_cut
find_cut-some [] [] a b h = ground arith
find_cut-some (x ∷ p) [] a b h = unfold starts_with in cc
find_cut-some p (c ∷ s) a b h = elim (Bool-cases (starts_with (c ∷ s) p)) [
  | inl e ↦ ground (arith, starts_with-split (c ∷ s) p)
  | inr e ↦ elim (Option-cases (find_cut p s)) [
    | inl f ↦ ground arith
    | inr found ↦ let f = found.1 in ground (arith, find_cut-some p s (found.0).0 (found.0).1)
  ]
]

-- The text is shorter behind the first pattern.
pub length-find_cut :
    (p s a b : Text) → find_cut p s ≡ some (a, b) → length s ≡ length a + length p + length b
length-find_cut p s a b h = omega (
  arith,
  ap (λ (t : Text). length t) (find_cut-some p s a b h),
  length-append (a ++ p) b,
  length-append a p,
)

-- No "\r\n" inside.
abbrev pub LacksCrlf : Text → Type 0
LacksCrlf s = find_cut crlf s ≡ none

LacksCrlf-tail : (c : ℕ) (s : Text) → LacksCrlf (c ∷ s) → LacksCrlf s
unfolding find_cut
LacksCrlf-tail c s h = ground arith

-- Behind a text with no line end, the first line end is the one that follows.
pub find_cut-line :
    (line rest : Text) → LacksCrlf line → find_cut crlf (line ++ crlf ++ rest) ≡ some (line, rest)
unfolding find_cut starts_with
find_cut-line [] rest h = refl
find_cut-line (c ∷ []) rest h = ground (arith, find_cut-line [] rest refl)
find_cut-line (c ∷ d ∷ line) rest h =
    ground (arith, find_cut-line (d ∷ line) rest (LacksCrlf-tail c (d ∷ line) h))

pub lacks-cons :
    (c d : ℕ) (t a b : Text)
    → find_cut crlf (d ∷ t) ≡ some (a, b)
    → starts_with (c ∷ d ∷ t) crlf ≡ false
    → LacksCrlf a
    → LacksCrlf (c ∷ a)
unfolding find_cut starts_with
lacks-cons c d t [] b h n l = ground arith
lacks-cons c d t (e ∷ a) b h n l =
    let split = find_cut-some crlf (d ∷ t) (e ∷ a) b h in
    let same : d ≡ e = cc split in ground arith

-- The part before the first pattern holds no line end.
pub find_cut-lacks : (s a b : Text) → find_cut crlf s ≡ some (a, b) → LacksCrlf a
unfolding find_cut starts_with
find_cut-lacks [] a b h = cc
find_cut-lacks (c ∷ []) a b h = ground arith
find_cut-lacks (c ∷ d ∷ t) a b h = elim (Bool-cases (starts_with (c ∷ d ∷ t) crlf)) [
  | inl e ↦ ground arith
  | inr e ↦ elim (Option-cases (find_cut crlf (d ∷ t))) [
    | inl f ↦ ground arith
    | inr found ↦
        let f = found.1 in
        let l =
          lacks-cons c d t (found.0).0 (found.0).1 f e
            (find_cut-lacks (d ∷ t) (found.0).0 (found.0).1 f) in
        let same : a ≡ c ∷ (found.0).0 = ground arith in rw same l
  ]
]
