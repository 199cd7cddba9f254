-- ===== src/Seed/Lines.antt =====
-- `_split_crlf_messages`: nothing but blank bytes at the end is lost, and what is split off in front
-- does not depend on what follows.
pub mod Prefix
use s2afl.Prelude.{
  ℕ, zero, suc, ◌+◌, ◌<◌, true, none, some, List, [], ◌∷◌, ◌++◌, ◌≡◌, refl, sym, ap, ◌∙◌, Text,
  if◌then◌else◌, length, join, arith, Bool-cases, Option-cases, inl, inr, append_assoc, append-nil,
  All, ltb, starts_with,
}
use s2afl.Text.{crlf, find_cut, is_blank, encode}
use s2afl.Text.Cut.{LacksCrlf, find_cut-some, length-find_cut, find_cut-line}
use s2afl.Seed.{crlf_loop, emit, split_crlf_messages}

-- One round.
crlf_loop-none :
    (f c : ℕ) (s : Text)
    → find_cut crlf (c ∷ s) ≡ none
    → crlf_loop (suc f) (c ∷ s) ≡ emit (c ∷ s) []
unfolding crlf_loop
crlf_loop-none f c s e = ground (arith, e)

crlf_loop-some :
    (f c : ℕ) (s a b : Text)
    → find_cut crlf (c ∷ s) ≡ some (a, b)
    → crlf_loop (suc f) (c ∷ s) ≡ (a ++ crlf) ∷ crlf_loop f b
unfolding crlf_loop
crlf_loop-some f c s a b e = ground (arith, e)

-- The fuel does not matter, if there is enough.
crlf_loop-fuel : (f g : ℕ) (s : Text) → length s < f → length s < g → crlf_loop f s ≡ crlf_loop g s
crlf_loop-fuel zero g s h k = absurd (omega arith)
crlf_loop-fuel (suc f) zero s h k = absurd (omega arith)
crlf_loop-fuel (suc f) (suc g) [] h k = unfold crlf_loop in refl
crlf_loop-fuel (suc f) (suc g) (c ∷ s) h k = elim (Option-cases (find_cut crlf (c ∷ s))) [
  | inl e ↦ crlf_loop-none f c s e ∙ sym (crlf_loop-none g c s e)
  | inr ((a, b), e) ↦
      let size = length-find_cut crlf (c ∷ s) a b e in
      crlf_loop-some f c s a b e
      ∙ ap (λ (l : List Text). (a ++ crlf) ∷ l)
          (crlf_loop-fuel f g b (omega (arith, size)) (omega (arith, size)))
      ∙ sym (crlf_loop-some g c s a b e)
]

-- The split of bytes, with just enough fuel.
lines : Text → List Text
lines s = crlf_loop (suc (length s)) s

lines-cut : (s a b : Text) → find_cut crlf s ≡ some (a, b) → lines s ≡ (a ++ crlf) ∷ lines b
unfolding lines
lines-cut [] a b h = unfold find_cut in unfold starts_with in cc
lines-cut (c ∷ s) a b h =
    let size = length-find_cut crlf (c ∷ s) a b h in
    crlf_loop-some (suc (length s)) c s a b h
    ∙ ap (λ (l : List Text). (a ++ crlf) ∷ l)
        (crlf_loop-fuel (suc (length s)) (suc (length b)) b (omega (arith, size)) (omega arith))

-- A message that ends at its only line end.
abbrev pub IsLine : Text → Type 0
IsLine m = (line : Text) × (m ≡ line ++ crlf) × LacksCrlf line

lines-message : (m rest : Text) → IsLine m → lines (m ++ rest) ≡ m ∷ lines rest
lines-message m rest (line, e, l) =
    rw e (lines-cut (line ++ crlf ++ rest) line rest (find_cut-line line rest l))

lines-join :
    (ms : List Text) (rest : Text) → All IsLine ms → lines (join ms ++ rest) ≡ ms ++ lines rest
lines-join [] rest h = refl
lines-join (m ∷ ms) rest (hm, hs) =
    rw (append_assoc m (join ms) rest)
      (lines-message m (join ms ++ rest) hm ∙ ap (λ (l : List Text). m ∷ l) (lines-join ms rest hs))

-- Nothing is lost but a blank end.
crlf_loop-all :
    (f : ℕ) (s : Text)
    → length s < f
    → (tail : Text) × ((join (crlf_loop f s) ++ tail ≡ s) × (is_blank tail ≡ true))
crlf_loop-all zero s h = absurd (omega arith)
crlf_loop-all (suc f) [] h = ([], (unfold crlf_loop in unfold is_blank in (refl, refl)))
crlf_loop-all (suc f) (c ∷ s) h = elim (Option-cases (find_cut crlf (c ∷ s))) [
  | inl e ↦ elim (Bool-cases (is_blank (c ∷ s))) [
    | inl b ↦
        let all : crlf_loop (suc f) (c ∷ s) ≡ [] =
          crlf_loop-none f c s e ∙ (unfold emit in ground arith) in
        (c ∷ s, (rw all refl, b))
    | inr b ↦
        let all : crlf_loop (suc f) (c ∷ s) ≡ (c ∷ s) ∷ [] =
          crlf_loop-none f c s e ∙ (unfold emit in ground arith) in
        ([], (rw all (append-nil (c ∷ s ++ []) ∙ append-nil (c ∷ s)), (unfold is_blank in refl)))
  ]
  | inr ((a, b), e) ↦
      let size = length-find_cut crlf (c ∷ s) a b e in
      let (tail, (whole, blank)) = crlf_loop-all f b (omega (arith, size)) in
      (
        tail,
        (
          rw (crlf_loop-some f c s a b e) (
              append_assoc (a ++ crlf) (join (crlf_loop f b)) tail
              ∙ ap (λ (t : Text). a ++ crlf ++ t) whole
              ∙ sym (find_cut-some crlf (c ∷ s) a b e)),
          blank,
        ),
      )
]

pub length-encode : (s : Text) → length (encode s) ≡ length s
unfolding encode
length-encode [] = refl
length-encode (c ∷ s) = ap (λ (n : ℕ). suc n) (length-encode s)

encode-append : (s t : Text) → encode (s ++ t) ≡ encode s ++ encode t
unfolding encode
encode-append [] t = refl
encode-append (c ∷ s) t = ap (λ (l : Text). (if ltb c 256 then c else b'?') ∷ l) (encode-append s t)

split-lines : (raw_text : Text) → split_crlf_messages raw_text ≡ lines (encode raw_text)
unfolding split_crlf_messages lines
split-lines raw_text =
    let size = length-encode raw_text in
    crlf_loop-fuel (length raw_text + 1) (suc (length (encode raw_text))) (encode raw_text)
      (omega (arith, size)) (omega arith)

-- The messages of `_split_crlf_messages`, one behind the other, are the bytes of the seed up to a
-- tail of whitespace.
pub split_crlf_messages-whole :
    (raw_text : Text)
    → (tail : Text) × ((join (split_crlf_messages raw_text) ++ tail ≡ encode raw_text)
        × (is_blank tail ≡ true))
unfolding lines
split_crlf_messages-whole raw_text =
    rw (split-lines raw_text)
      (crlf_loop-all (suc (length (encode raw_text))) (encode raw_text) (omega arith))

-- Text behind a seed of whole lines does not change how `_split_crlf_messages` splits the lines,
-- and is split as it would be alone.
pub split_crlf_messages-append :
    (messages : List Text) (seed more : Text)
    → All IsLine messages
    → encode seed ≡ join messages
    → split_crlf_messages (seed ++ more) ≡ messages ++ split_crlf_messages more
split_crlf_messages-append messages seed more h e =
    split-lines (seed ++ more)
    ∙ ap (λ (t : Text). lines t) (encode-append seed more ∙ ap (λ (t : Text). t ++ encode more) e)
    ∙ lines-join messages (encode more) h
    ∙ ap (λ (l : List Text). messages ++ l) (sym (split-lines more))
