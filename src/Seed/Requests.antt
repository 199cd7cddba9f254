-- ===== src/Seed/Requests.antt =====
-- `_split_request_style_messages`: the bytes of a seed are cut into pieces, and the messages are the
-- pieces that are not blank.
use s2afl.Prelude.{
  ℕ, zero, suc, ◌+◌, ◌<◌, not, none, some, List, [], ◌∷◌, ◌++◌, ◌≡◌, refl, sym, ap, ◌∙◌, Text,
  length, length-drop, take, drop, take-append-drop, join, arith, Option-cases, inl, inr,
  append_assoc, append-nil, filter,
}
use s2afl.Text.{crlf_crlf, find_cut, is_blank, encode}
use s2afl.Text.Cut.{find_cut-some, length-find_cut}
use s2afl.Seed.{request_loop, emit, request_content_length, split_request_style_messages}
use s2afl.Seed.Lines.{length-encode}

-- The pieces of a text, and of them those that are messages.
abbrev pub Pieces : Text → List Text → Type 0
Pieces s messages =
    (pieces : List Text) × ((join pieces ≡ s) × (messages ≡ filter (λ t. not (is_blank t)) pieces))

emit-filter :
    (t : Text) (pieces : List Text)
    → emit t (filter (λ t. not (is_blank t)) pieces) ≡ filter (λ t. not (is_blank t)) (t ∷ pieces)
unfolding emit
emit-filter t pieces = ground arith

request_loop-none :
    (f c : ℕ) (s : Text)
    → find_cut crlf_crlf (c ∷ s) ≡ none
    → request_loop (suc f) (c ∷ s) ≡ emit (c ∷ s) []
unfolding request_loop
request_loop-none f c s e = ground (arith, e)

request_loop-some :
    (f c : ℕ) (s header rest : Text)
    → find_cut crlf_crlf (c ∷ s) ≡ some (header, rest)
    → (let n = request_content_length header in
        request_loop (suc f) (c ∷ s)
        ≡ emit (header ++ crlf_crlf ++ take n rest) (request_loop f (drop n rest)))
unfolding request_loop
request_loop-some f c s header rest e = ground (arith, e)

request_loop-Pieces : (f : ℕ) (s : Text) → length s < f → Pieces s (request_loop f s)
request_loop-Pieces zero s h = absurd (omega arith)
request_loop-Pieces (suc f) [] h = ([], (refl, (unfold request_loop in refl)))
request_loop-Pieces (suc f) (c ∷ s) h = elim (Option-cases (find_cut crlf_crlf (c ∷ s))) [
  | inl e ↦ ((c ∷ s) ∷ [], (append-nil (c ∷ s), request_loop-none f c s e ∙ emit-filter (c ∷ s) []))
  | inr ((header, rest), e) ↦
      let n = request_content_length header in
      let size = length-find_cut crlf_crlf (c ∷ s) header rest e in
      let left = length-drop n rest in
      let (pieces, (whole, messages)) =
        request_loop-Pieces f (drop n rest) (omega (arith, size, left)) in
      let chunk = header ++ crlf_crlf ++ take n rest in
      (
        chunk ∷ pieces,
        (
          ap (λ (t : Text). chunk ++ t) whole
              ∙ append_assoc (header ++ crlf_crlf) (take n rest) (drop n rest)
              ∙ ap (λ (t : Text). header ++ crlf_crlf ++ t) (take-append-drop n rest)
              ∙ sym (find_cut-some crlf_crlf (c ∷ s) header rest e),
          request_loop-some f c s header rest e
              ∙ ap (λ (l : List Text). emit chunk l) messages
              ∙ emit-filter chunk pieces,
        ),
      )
]

-- `_split_request_style_messages` cuts the bytes of the seed into pieces that make up the whole,
-- and returns those of them that are not blank, in order.
pub split_request_style_messages-Pieces :
    (raw_text : Text) → Pieces (encode raw_text) (split_request_style_messages raw_text)
unfolding split_request_style_messages
split_request_style_messages-Pieces raw_text =
    let size = length-encode raw_text in
    request_loop-Pieces (length raw_text + 1) (encode raw_text) (omega (arith, size))
