-- ===== src/Worker/Limits.antt =====
-- The lengths of lines: `_oversize_message_lines`, `_target_looks_size_sensitive` and
-- `_generic_repetition_seed`.
pub mod Oversize
use s2afl.Prelude.{
  ℕ, zero, suc, ◌+◌, ◌-◌, ◌*◌, ◌/◌, Bool, true, false, not, ◌&&◌, ◌||◌, Option, none, some, List,
  [], ◌∷◌, ◌++◌, map, String, Text, codes, text_eq, ltb, leb, ◌==◌, if◌then◌else◌, length, take,
  drop, any, all, min, max,
}
use s2afl.Text.{crlf, lower, strip}
use s2afl.Text.Replace.{split, join_with, contains, span, splitlines}

-- max(64, min(256, max_line_length // 4))
abbrev pub allowed_growth : ℕ → ℕ
allowed_growth max_line_length = max 64 (min 256 (max_line_length / 4))

-- Whether the loop goes on behind a line that is too long: the line of the original is too.
unfoldable pub excuses : ℕ → Bool → Text → Text → Bool
unfolding text_eq
excuses max_line_length is_target original_line line =
    ltb max_line_length (length original_line)
    && (if is_target
        then leb (length line) (length original_line + allowed_growth max_line_length)
        else text_eq line original_line)

-- The lines of a message, beside those of the original.
unfoldable pub lines_fit : ℕ → Bool → List Text → List Text → Bool
unfolding excuses
lines_fit max_line_length is_target originals [] = true
lines_fit max_line_length is_target [] (line ∷ lines) =
    leb (length line) max_line_length && lines_fit max_line_length is_target [] lines
lines_fit max_line_length is_target (original ∷ originals) (line ∷ lines) =
    (leb (length line) max_line_length || excuses max_line_length is_target original line)
    && lines_fit max_line_length is_target originals lines

unfoldable pub messages_fit : ℕ → ℕ → ℕ → List Text → List Text → Bool
unfolding lines_fit split
messages_fit max_line_length target_message_index index originals [] = true
messages_fit max_line_length target_message_index index [] (message ∷ messages) =
    lines_fit max_line_length (index == target_message_index) [] (split crlf message)
    && messages_fit max_line_length target_message_index (suc index) [] messages
messages_fit max_line_length target_message_index index (original ∷ originals)
      (message ∷ messages) =
    lines_fit max_line_length (index == target_message_index) (split crlf original)
      (split crlf message)
    && messages_fit max_line_length target_message_index (suc index) originals messages

-- _oversize_message_lines; an empty line fits any limit.
unfoldable pub oversize_message_lines : List Text → ℕ → List Text → ℕ → Bool
unfolding messages_fit
oversize_message_lines messages max_line_length original_messages target_message_index =
    not (messages_fit max_line_length target_message_index 0 original_messages messages)

abbrev size_keywords : List String
size_keywords =
    "length" ∷ "len" ∷ "size" ∷ "content-length" ∷ "buffer" ∷ "buf" ∷ "overflow" ∷ "memcpy"
    ∷ "memmove" ∷ "strcpy" ∷ "strncpy" ∷ "strcat" ∷ "snprintf" ∷ "sprintf" ∷ "malloc" ∷ "realloc"
    ∷ "alloca" ∷ "read" ∷ "recv" ∷ "write" ∷ "copy" ∷ "format" ∷ "printf" ∷ []

-- What is read of the target's row and of the context; a missing value is empty.
pub record SizeHints : Type 0 where
  pub code : Text
  pub function_name : Text
  pub relative_path : Text
  pub source_excerpt : Text

-- _target_looks_size_sensitive
unfoldable pub target_looks_size_sensitive : SizeHints → Bool
unfolding lower join_with contains
target_looks_size_sensitive h =
    let all_text =
      lower (
        join_with (32 ∷ []) (h.code ∷ h.function_name ∷ h.relative_path ∷ h.source_excerpt ∷ [])) in
    any (contains all_text) (map codes size_keywords)

-- (.)\1{255,} at one place of a line.
run_at : Text → Bool
unfolding span
run_at [] = false
run_at (c ∷ s) = leb 255 (length (span (λ d. d == c) s).0)

-- (.{k})\1{11,} at one place.
period_at : ℕ → Text → Bool
unfolding text_eq
period_at k s = leb (12 * k) (length s) && text_eq (take (11 * k) (drop k s)) (take (11 * k) s)

-- From `k` up to k + n - 1.
any_period : ℕ → ℕ → Text → Bool
unfolding period_at
any_period zero k s = false
any_period (suc n) k s = period_at k s || any_period n (suc k) s

-- re.search
anywhere : (Text → Bool) → Text → Bool
anywhere test [] = test []
anywhere test (c ∷ s) = test (c ∷ s) || anywhere test s

repeats : Text → Bool
unfolding anywhere run_at any_period
repeats line = leb 256 (length line) && (anywhere run_at line || anywhere (any_period 30 3) line)

-- _generic_repetition_seed; `ops` are the names of the plan's operators.
unfoldable pub generic_repetition_seed : Text → List Text → SizeHints → Bool
unfolding target_looks_size_sensitive repeats splitlines lower strip text_eq
generic_repetition_seed normalized ops hints =
    if target_looks_size_sensitive hints
    then false
    else if not (all (λ op. text_eq (lower (strip op)) (codes "set_length")) ops)
    then false
    else any repeats (splitlines normalized)
