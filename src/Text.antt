-- ===== src/Text.antt =====
-- The operations of Python's `str` and `bytes` that the program uses, on lists of code points. Case is
-- that of latin-1, in which seed files are decoded: further letters are left as they are.
pub mod Cut
pub mod Replace
pub mod Keeps
use s2afl.Prelude.{
  ℕ, zero, suc, ◌+◌, ◌-◌, Bool, true, false, not, ◌&&◌, ◌||◌, Option, none, some, List, [], ◌∷◌,
  ◌++◌, map, Text, codes, ltb, leb, ◌==◌, if◌then◌else◌, length, drop, starts_with, all, any,
  text_eq,
}
use mathlib.Core.List.{flat_map, reverse}
use mathlib.Core.Option

abbrev pub crlf : Text
crlf = 13 ∷ 10 ∷ []

abbrev pub crlf_crlf : Text
crlf_crlf = 13 ∷ 10 ∷ 13 ∷ 10 ∷ []

-- The whitespace of `bytes`.
unfoldable pub is_byte_space : ℕ → Bool
is_byte_space c = leb 9 c && leb c 13 || c == 32

-- The whitespace of `str`.
unfoldable pub is_space : ℕ → Bool
is_space c =
    leb 9 c && leb c 13
    || leb 28 c && leb c 32
    || c == 0x85
    || c == 0xa0
    || c == 0x1680
    || leb 0x2000 c && leb c 0x200a
    || c == 0x2028
    || c == 0x2029
    || c == 0x202f
    || c == 0x205f
    || c == 0x3000

-- not data.strip()
unfoldable pub is_blank : Text → Bool
unfolding is_byte_space
is_blank s = all is_byte_space s

-- s.lstrip(), for a class of characters.
unfoldable pub lstrip : (ℕ → Bool) → Text → Text
lstrip p [] = []
lstrip p (c ∷ s) = let rest = lstrip p s in if p c then rest else c ∷ s

rstrip_add : (ℕ → Bool) → ℕ → Text → Text
rstrip_add p c [] = if p c then [] else c ∷ []
rstrip_add p c (d ∷ r) = c ∷ d ∷ r

-- s.rstrip()
unfoldable pub rstrip : (ℕ → Bool) → Text → Text
unfolding rstrip_add
rstrip p [] = []
rstrip p (c ∷ s) = rstrip_add p c (rstrip p s)

-- s.strip()
unfoldable pub strip : Text → Text
unfolding lstrip rstrip is_space
strip s = rstrip is_space (lstrip is_space s)

-- text.encode("latin-1", errors="replace")
unfoldable pub encode : Text → Text
encode s = map (λ c. if ltb c 256 then c else b'?') s

unfoldable pub upper_char : ℕ → Text
upper_char c =
    if leb b'a' c && leb c b'z'
    then (c - 32) ∷ []
    else if c == 0xdf
    then b'S' ∷ b'S' ∷ []
    else if c == 0xff
    then 0x178 ∷ []
    else if c == 0xb5
    then 0x39c ∷ []
    else if leb 0xe0 c && leb c 0xfe && not (c == 0xf7)
    then (c - 32) ∷ []
    else c ∷ []

-- s.upper()
unfoldable pub upper : Text → Text
unfolding upper_char
upper [] = []
upper (c ∷ s) = upper_char c ++ upper s

unfoldable pub lower_char : ℕ → ℕ
lower_char c =
    if leb b'A' c && leb c b'Z'
    then c + 32
    else if leb 0xc0 c && leb c 0xde && not (c == 0xd7)
    then c + 32
    else c

-- s.lower()
unfoldable pub lower : Text → Text
unfolding lower_char
lower s = map lower_char s

unfoldable pub is_line_end : ℕ → Bool
is_line_end c =
    leb 10 c && leb c 13 || leb 28 c && leb c 30 || c == 0x85 || c == 0x2028 || c == 0x2029

-- (s.splitlines() or [""])[0]: the text before the first line boundary.
unfoldable pub first_line : Text → Text
unfolding is_line_end
first_line [] = []
first_line (c ∷ s) = if is_line_end c then [] else c ∷ first_line s

-- The first word of `split()`, of a text that does not begin with whitespace.
unfoldable pub first_word : Text → Text
unfolding is_space
first_word [] = []
first_word (c ∷ s) = if is_space c then [] else c ∷ first_word s

-- Where `p` is found first: the text before it and the text behind it.
unfoldable pub find_cut : Text → Text → Option (Text × Text)
unfolding starts_with
find_cut p [] = if starts_with [] p then some ([], []) else none
find_cut p (c ∷ s) =
    if starts_with (c ∷ s) p
    then some ([], drop (length p) (c ∷ s))
    else Option.map (λ (t : Text × Text). (c ∷ t.0, t.1)) (find_cut p s)

-- s.endswith(p)
unfoldable pub ends_with : Text → Text → Bool
unfolding text_eq
ends_with s p =
    if ltb (length s) (length p) then false else text_eq (drop (length s - length p) s) p

-- t in s, for one text of a tuple or set.
unfoldable pub member : Text → List Text → Bool
unfolding text_eq
member s l = any (λ t. text_eq s t) l
