-- ===== src/Text/Replace.antt =====
-- Python's `replace`, `split` and `join` of texts by a pattern that is not empty.
use s2afl.Prelude.{
  ℕ, zero, suc, ◌-◌, Bool, true, false, List, [], ◌∷◌, ◌++◌, none, some, Text, length, starts_with,
  is_some, ◌&&◌, ◌==◌, if◌then◌else◌,
}
use s2afl.Text.{find_cut, is_line_end}

unfoldable pub replace_from : Text → Text → ℕ → Text → Text
unfolding starts_with
replace_from p q skip [] = []
replace_from p q (suc skip) (c ∷ s) = replace_from p q skip s
replace_from p q zero (c ∷ s) = elim (starts_with (c ∷ s) p) [
  | true ↦ q ++ replace_from p q (length p - 1) s
  | false ↦ c ∷ replace_from p q zero s
]

-- s.replace(p, q)
unfoldable pub replace : Text → Text → Text → Text
unfolding replace_from
replace p q s = replace_from p q 0 s

split_loop : ℕ → Text → Text → List Text
unfolding find_cut
split_loop zero p s = s ∷ []
split_loop (suc fuel) p s = elim (find_cut p s) [
  | none ↦ s ∷ []
  | some (part, rest) ↦ part ∷ split_loop fuel p rest
]

-- s.split(p): each part but the last takes a pattern off the text.
unfoldable pub split : Text → Text → List Text
unfolding split_loop
split p s = split_loop (length s) p s

-- p.join(parts)
unfoldable pub join_with : Text → List Text → Text
join_with p [] = []
join_with p (s ∷ []) = s
join_with p (s ∷ t ∷ parts) = s ++ p ++ join_with p (t ∷ parts)

-- p in s
unfoldable pub contains : Text → Text → Bool
unfolding find_cut
contains s p = is_some (find_cut p s)

-- The longest prefix in a class of characters, and the rest.
unfoldable pub span : (ℕ → Bool) → Text → Text × Text
span f [] = ([], [])
span f (c ∷ s) =
    let rest = span f s in elim (f c) [ true ↦ (c ∷ rest.0, rest.1) | false ↦ ([], c ∷ s) ]

-- s.replace("\r\n", "\n").replace("\r", "\n")
unfoldable pub unix_lines : Text → Text
unfolding replace
unix_lines s = replace (13 ∷ []) (10 ∷ []) (replace (13 ∷ 10 ∷ []) (10 ∷ []) s)

add_to_first : ℕ → List Text → List Text
add_to_first c [] = (c ∷ []) ∷ []
add_to_first c (s ∷ lines) = (c ∷ s) ∷ lines

-- s.splitlines()
unfoldable pub splitlines : Text → List Text
unfolding add_to_first is_line_end starts_with
splitlines [] = []
splitlines (c ∷ s) =
    let rest = splitlines s in
    if c == 13 && starts_with s (10 ∷ [])
    then rest
    else if is_line_end c
    then [] ∷ rest
    else add_to_first c rest
