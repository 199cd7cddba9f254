-- ===== src/Seed/Lines/Prefix.antt =====
-- `_split_crlf_messages` on the first messages of a seed.
use s2afl.Prelude.{
  ℕ, zero, suc, ◌+◌, ◌<◌, List, [], ◌∷◌, ◌++◌, ◌≡◌, refl, sym, ap, ◌∙◌, Text, length, join, arith,
  Bool-cases, Option-cases, inl, inr, append-nil, All, join-append,
}
use s2afl.Text.{crlf, find_cut, is_blank, encode}
use s2afl.Text.Cut.{find_cut-lacks}
use s2afl.Policy.{ProtocolMutationPolicy, line_command}
use s2afl.Seed.{crlf_loop, emit, split_crlf_messages, by_style, split_by_policy}
use s2afl.Seed.Lines.{
  IsLine, crlf_loop-none, crlf_loop-some, split_crlf_messages-append, split_crlf_messages-whole,
}

append-cons_not_nil : (xs : List Text) (y : Text) (ys : List Text) → (xs ++ y ∷ ys) ≡ [] → ⊥
append-cons_not_nil [] y ys h = cc
append-cons_not_nil (x ∷ xs) y ys h = cc

emit-single :
    (s x : Text) (xs : List Text) (y : Text) (ys : List Text) → emit s [] ≡ x ∷ xs ++ y ∷ ys → ⊥
unfolding emit
emit-single s x xs y ys h = elim (Bool-cases (is_blank s)) [
  | inl e ↦ absurd (ground arith)
  | inr e ↦ append-cons_not_nil xs y ys (ground arith)
]

-- Every message but the last is a line.
crlf_loop-Lines :
    (f : ℕ) (s : Text) (xs : List Text) (y : Text) (ys : List Text)
    → crlf_loop f s ≡ xs ++ y ∷ ys
    → All IsLine xs
crlf_loop-Lines f s [] y ys h = tt
crlf_loop-Lines zero s (x ∷ xs) y ys h = unfold crlf_loop in absurd (cc h)
crlf_loop-Lines (suc f) [] (x ∷ xs) y ys h = unfold crlf_loop in absurd (cc h)
crlf_loop-Lines (suc f) (c ∷ s) (x ∷ xs) y ys h = elim (Option-cases (find_cut crlf (c ∷ s))) [
  | inl e ↦ absurd (emit-single (c ∷ s) x xs y ys (sym (crlf_loop-none f c s e) ∙ h))
  | inr ((a, b), e) ↦
      let parts = sym (crlf_loop-some f c s a b e) ∙ h in
      let first : a ++ crlf ≡ x = cc parts in
      let rest : crlf_loop f b ≡ xs ++ y ∷ ys = cc parts in
      ((a, sym first, find_cut-lacks (c ∷ s) a b e), crlf_loop-Lines f b xs y ys rest)
]

split_crlf_messages-Lines :
    (raw_text : Text) (xs : List Text) (y : Text) (ys : List Text)
    → split_crlf_messages raw_text ≡ xs ++ y ∷ ys
    → All IsLine xs
unfolding split_crlf_messages
split_crlf_messages-Lines raw_text xs y ys h =
    crlf_loop-Lines (length raw_text + 1) (encode raw_text) xs y ys h

abbrev IsBytes : Text → Type 0
IsBytes s = All (λ c. c < 256) s

encode-IsBytes : (s : Text) → IsBytes (encode s)
unfolding encode
encode-IsBytes [] = tt
encode-IsBytes (c ∷ s) = (ground arith, encode-IsBytes s)

IsBytes-left : (s t : Text) → IsBytes (s ++ t) → IsBytes s
IsBytes-left [] t h = tt
IsBytes-left (c ∷ s) t h = (h.0, IsBytes-left s t h.1)

encode-bytes : (s : Text) → IsBytes s → encode s ≡ s
unfolding encode
encode-bytes [] h = refl
encode-bytes (c ∷ s) h = ground (arith, encode-bytes s h.1, h.0)

split_crlf_messages-nil : split_crlf_messages [] ≡ []
unfolding split_crlf_messages crlf_loop encode
split_crlf_messages-nil = refl

-- The first messages of a seed, one behind the other, are split into these messages again, unless
-- they are all.
pub split_crlf_messages-prefix :
    (raw_text : Text) (xs : List Text) (y : Text) (ys : List Text)
    → split_crlf_messages raw_text ≡ xs ++ y ∷ ys
    → split_crlf_messages (join xs) ≡ xs
split_crlf_messages-prefix raw_text xs y ys h =
    let (tail, (whole, blank)) = split_crlf_messages-whole raw_text in
    let messages : IsBytes (join (xs ++ y ∷ ys)) =
      IsBytes-left (join (xs ++ y ∷ ys)) tail (rw (← h, whole) (encode-IsBytes raw_text)) in
    let bytes : IsBytes (join xs) =
      IsBytes-left (join xs) (join (y ∷ ys)) (rw (← join-append xs (y ∷ ys)) messages) in
    let found =
      split_crlf_messages-append xs (join xs) [] (split_crlf_messages-Lines raw_text xs y ys h)
        (encode-bytes (join xs) bytes) in
    ap (λ (t : Text). split_crlf_messages t) (sym (append-nil (join xs)))
    ∙ found
    ∙ ap (λ (l : List Text). xs ++ l) split_crlf_messages-nil
    ∙ append-nil xs

pub split_by_policy-lines :
    (policy : ProtocolMutationPolicy) (raw_text : Text)
    → policy.message_style ≡ line_command
    → split_by_policy policy raw_text ≡ split_crlf_messages raw_text
unfolding split_by_policy by_style
split_by_policy-lines policy raw_text h = rw (by_style, h) refl
