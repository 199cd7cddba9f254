-- ===== src/Worker/Limits/Oversize.antt =====
-- What `_oversize_message_lines` lets through.
use s2afl.Prelude.{
  ℕ, zero, suc, ◌+◌, ◌≤◌, ◌<◌, Bool, true, false, ◌||◌, none, some, List, [], ◌∷◌, ◌≡◌, refl, inl,
  inr, Text, text_eq, text_eq_sound, leb, ◌==◌, length, get_elem?, Bool-cases, arith,
}
use s2afl.Text.{crlf}
use s2afl.Text.Replace.{split}
use s2afl.Worker.Limits.{allowed_growth, excuses, lines_fit, messages_fit, oversize_message_lines}

-- A line within the limit, or beside a line of the original that is over it: equal to it, or, in the
-- message that the plan changes, longer by no more than the growth allowed.
pub data Fits (max_line_length : ℕ) (is_target : Bool) (originals : List Text) (j : ℕ) (line : Text)
    : Type 0 where
  short : length line ≤ max_line_length → Fits max_line_length is_target originals j line
  same :
      is_target ≡ false
      → get_elem? originals j ≡ some line
      → Fits max_line_length is_target originals j line
  grown :
      (original : Text)
      → is_target ≡ true
      → get_elem? originals j ≡ some original
      → max_line_length < length original
      → length line ≤ length original + allowed_growth max_line_length
      → Fits max_line_length is_target originals j line

module _ (m : ℕ) (t : Bool) where
  first-Fits :
      (originals : List Text) (original line : Text)
      → (leb (length line) m || excuses m t original line) ≡ true
      → Fits m t (original ∷ originals) 0 line
  unfolding excuses
  first-Fits originals original line h = elim (Bool-cases (leb (length line) m)) [
    | inl e ↦ short (ground (arith, e))
    | inr e ↦ elim (Bool-cases t) [
      | inl target ↦ grown original target refl (ground (arith, e)) (ground (arith, e, target))
      | inr other ↦
          let e2 : text_eq line original ≡ true = ground (arith, e, other) in
          same other (rw (text_eq_sound line original e2) refl)
    ]
  ]

  Fits-behind :
      (originals : List Text) (original : Text) (j : ℕ) (line : Text)
      → Fits m t originals j line
      → Fits m t (original ∷ originals) (suc j) line
  Fits-behind originals original j line (short h) = short h
  Fits-behind originals original j line (same o e) = same o e
  Fits-behind originals original j line (grown p t e l g) = grown p t e l g

  Fits-none : (j : ℕ) (line : Text) → Fits m t [] j line → length line ≤ m
  Fits-none j line (short h) = h
  Fits-none j line (same o e) = absurd (cc e)
  Fits-none j line (grown p t e l g) = absurd (cc e)

  lines_fit_sound :
      (originals lines : List Text) (j : ℕ) (line : Text)
      → lines_fit m t originals lines ≡ true
      → get_elem? lines j ≡ some line
      → Fits m t originals j line
  unfolding lines_fit
  lines_fit_sound originals [] j line h e = absurd (cc e)
  lines_fit_sound [] (l ∷ lines) zero line h e = short (ground arith)
  lines_fit_sound [] (l ∷ lines) (suc j) line h e =
      short (Fits-none j line (lines_fit_sound [] lines j line (ground arith) e))
  lines_fit_sound (o ∷ originals) (l ∷ lines) zero line h e =
      let same_line : l ≡ line = cc e in rw (← same_line) (first-Fits originals o l (ground arith))
  lines_fit_sound (o ∷ originals) (l ∷ lines) (suc j) line h e =
      Fits-behind originals o j line (lines_fit_sound originals lines j line (ground arith) e)

-- original_messages[i].split("\r\n"), and no line behind the end.
abbrev pub lines_at : List Text → ℕ → List Text
lines_at originals i = elim (get_elem? originals i) [ none ↦ [] | some o ↦ split crlf o ]

module _ (m target k : ℕ) where
  messages_fit_sound :
      (index : ℕ) (originals messages : List Text) (i : ℕ) (message : Text) (j : ℕ) (line : Text)
      → k ≡ index + i
      → messages_fit m target index originals messages ≡ true
      → get_elem? messages i ≡ some message
      → get_elem? (split crlf message) j ≡ some line
      → Fits m (k == target) (lines_at originals i) j line
  unfolding messages_fit
  messages_fit_sound index originals [] i message j line n h e l = absurd (cc e)
  messages_fit_sound index [] (x ∷ messages) zero message j line n h e l =
      let here : k ≡ index = omega (arith, n) in
      let same_message : message ≡ x = cc e in
      rw here (
        lines_fit_sound m (index == target) [] (split crlf x) j line (ground arith)
          (rw (← same_message) l))
  messages_fit_sound index [] (x ∷ messages) (suc i) message j line n h e l =
      messages_fit_sound (suc index) [] messages i message j line (omega (arith, n)) (ground arith)
        e l
  messages_fit_sound index (o ∷ originals) (x ∷ messages) zero message j line n h e l =
      let here : k ≡ index = omega (arith, n) in
      let same_message : message ≡ x = cc e in
      rw here (
        lines_fit_sound m (index == target) (split crlf o) (split crlf x) j line (ground arith)
          (rw (← same_message) l))
  messages_fit_sound index (o ∷ originals) (x ∷ messages) (suc i) message j line n h e l =
      messages_fit_sound (suc index) originals messages i message j line (omega (arith, n))
        (ground arith) e l

-- If `_oversize_message_lines` is false, each line of each message is within the limit, or stands
-- beside a line of the original: equal to it, or, in the message that the plan changes and beside
-- a line over the limit, longer by no more than the growth allowed.
pub oversize_message_lines_sound :
    (messages : List Text) (max_line_length : ℕ) (original_messages : List Text)
    (target_message_index i : ℕ) (message : Text) (j : ℕ) (line : Text)
    → oversize_message_lines messages max_line_length original_messages target_message_index ≡ false
    → get_elem? messages i ≡ some message
    → get_elem? (split crlf message) j ≡ some line
    → Fits max_line_length (i == target_message_index) (lines_at original_messages i) j line
unfolding oversize_message_lines
oversize_message_lines_sound messages max original target i message j line h e l =
    messages_fit_sound max target i 0 original messages i message j line (omega arith)
      (ground arith) e l
