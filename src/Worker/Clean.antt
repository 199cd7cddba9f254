-- ===== src/Worker/Clean.antt =====
-- `_message_structurally_clean` and the search for the start of a message.
use s2afl.Prelude.{
  ℕ, Bool, true, false, not, ◌&&◌, ◌||◌, Option, none, some, List, [], ◌∷◌, Text, ltb, leb, ◌==◌,
  if◌then◌else◌, length, drop, any, all, starts_with,
}
use s2afl.Text.{is_space, lstrip, strip, first_line, find_cut}
use s2afl.Text.Replace.{split, span, unix_lines}
use s2afl.Table.{order_by}
use s2afl.Seed.{message_method}
use s2afl.Policy.{Style, request_style, line_command}
use s2afl.Knowledge.{Templates, template_for_method}
use s2afl.Executor.Requests.{split_words}
use mathlib.Core.Option

is_letter : ℕ → Bool
is_letter c = leb b'A' c && leb c b'Z' || leb b'a' c && leb c b'z'

is_alnum : ℕ → Bool
unfolding is_letter
is_alnum c = is_letter c || leb b'0' c && leb c b'9'

-- [A-Za-z0-9_-]
is_method_char : ℕ → Bool
unfolding is_alnum
is_method_char c = is_alnum c || c == b'_' || c == b'-'

-- (?=\s|$)
ends_word : Text → Bool
unfolding is_space
ends_word [] = true
ends_word (c ∷ s) = is_space c

-- re.search: the text before the first place where the test holds, and the text from there. The test
-- is given the character before.
search_from : (Option ℕ → Text → Bool) → Option ℕ → Text → Option (Text × Text)
search_from test previous [] = if test previous [] then some ([], []) else none
search_from test previous (c ∷ s) =
    if test previous (c ∷ s)
    then some ([], c ∷ s)
    else Option.map (λ (t : Text × Text). (c ∷ t.0, t.1)) (search_from test (some c) s)

-- prefix and re.search(r"[A-Za-z0-9]", prefix)
abbrev spoils : Text → Bool
spoils before = any is_alnum before

is_method_at : Text → Option ℕ → Text → Bool
unfolding is_method_char ends_word starts_with
is_method_at method previous s =
    not (elim previous [ none ↦ false | some c ↦ is_method_char c ])
    && starts_with s method
    && ends_word (drop (length method) s)

longer : Text × Text → Text × Text → Bool
longer a b = ltb (length b.0) (length a.0)

first_known : Templates → Text → Text
unfolding search_from is_method_at is_alnum lstrip is_space
first_known [] raw = []
first_known ((method, template) ∷ templates) raw =
    let rest = first_known templates raw in
    elim (search_from (is_method_at method) none raw) [
      | none ↦ rest
      | some (before, start) ↦ if spoils before then rest else lstrip is_space start
    ]

-- _trim_to_known_method: the longest methods first.
trim_to_known_method : Templates → Text → Text
unfolding first_known order_by longer
trim_to_known_method templates [] = []
trim_to_known_method templates (c ∷ s) = first_known (order_by longer templates) (c ∷ s)

-- [A-Za-z][A-Za-z0-9_-]{1,31} up to the end of a word.
is_generic_at : Option ℕ → Text → Bool
unfolding is_letter is_method_char ends_word span
is_generic_at previous [] = false
is_generic_at previous (c ∷ s) =
    let name = span is_method_char s in
    is_letter c && leb 1 (length name.0) && leb (length name.0) 31 && ends_word name.1

-- _trim_to_generic_start
trim_to_generic_start : Text → Text
unfolding search_from is_generic_at is_alnum lstrip is_space
trim_to_generic_start raw = elim (search_from is_generic_at none raw) [
  | none ↦ []
  | some (before, start) ↦ if spoils before then [] else lstrip is_space start
]

-- _message_start_candidate
unfoldable pub message_start_candidate : Templates → Text → Text
unfolding trim_to_known_method trim_to_generic_start strip
message_start_candidate templates line =
    let stripped = strip line in
    let known = trim_to_known_method templates stripped in
    if length stripped == 0
    then []
    else if length known == 0
    then trim_to_generic_start stripped
    else known

-- _message_looks_sendable; it is called with a text that is not empty.
unfoldable pub message_looks_sendable : Templates → Text → Bool
unfolding message_start_candidate strip first_line
message_looks_sendable templates line =
    let first = strip (first_line line) in
    if length first == 0 then false else not (length (message_start_candidate templates first) == 0)

-- _contains_control_bytes
unfoldable pub contains_control_bytes : Text → Bool
contains_control_bytes text =
    any (λ c. not (c == 9 || c == 10 || c == 13) && (ltb c 32 || c == 127)) text

-- The reason that comes with `False`.
pub data Flaw : Type 0 where
  empty_message_start : Flaw
  malformed_message_start : Flaw
  unknown_protocol_method : Text → Flaw
  method_has_control_bytes : Flaw
  start_line_has_control_bytes : Flaw
  short_request_line : Flaw
  malformed_header_line : Flaw
  header_name_has_control_bytes : Flaw
  header_name_invalid : Flaw

-- [A-Za-z][A-Za-z0-9-]{0,63}
is_header_name : Text → Bool
unfolding is_letter is_alnum
is_header_name [] = false
is_header_name (c ∷ s) = is_letter c && leb (length s) 63 && all (λ d. is_alnum d || d == b'-') s

header_flaw : List Text → Option Flaw
unfolding find_cut contains_control_bytes is_header_name
header_flaw [] = none
header_flaw ([] ∷ lines) = none
header_flaw ((c ∷ s) ∷ lines) = elim (find_cut (b':' ∷ []) (c ∷ s)) [
  | none ↦ some malformed_header_line
  | some (name, value) ↦
      let rest = header_flaw lines in
      if contains_control_bytes name
      then some header_name_has_control_bytes
      else if not (is_header_name name)
      then some header_name_invalid
      else rest
]

-- self.knowledge.templates and not self.knowledge.template_for_method(method): an empty template
-- counts as none.
unfoldable pub is_known : Templates → Text → Bool
unfolding template_for_method
is_known templates method = elim (template_for_method method templates) [
  | none ↦ false
  | some template ↦ not (length template == 0)
]

line_flaw : Templates → Style → Text → Text → List Text → Option Flaw
unfolding message_looks_sendable message_method is_known contains_control_bytes header_flaw
    split_words
line_flaw templates style message first rest =
    if length first == 0
    then some empty_message_start
    else if not (message_looks_sendable templates message)
    then some malformed_message_start
    else if not (length templates == 0) && not (is_known templates (message_method message))
    then some (unknown_protocol_method (message_method message))
    else if contains_control_bytes (message_method message)
    then some method_has_control_bytes
    else if contains_control_bytes first
    then some start_line_has_control_bytes
    else elim style [
      | line_command ↦ none
      | request_style ↦
          if ltb (length (split_words first)) 3 then some short_request_line else header_flaw rest
    ]

-- _message_structurally_clean: `none` where it returns `True, ""`.
unfoldable pub message_flaw : Templates → Style → Text → Option Flaw
unfolding line_flaw split unix_lines strip
message_flaw templates style message = elim (split (10 ∷ []) (unix_lines message)) [
  | [] ↦ some empty_message_start
  | line ∷ rest ↦ line_flaw templates style message (strip line) rest
]
