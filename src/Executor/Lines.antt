-- ===== src/Executor/Lines.antt =====
-- Line-command messages: `_parse_line_command_message(s)`, `_map_line_command_message_index`,
-- `_render_line_command_messages` and `_compose_line_command_seed`. Texts are latin-1.
pub mod Regions
use s2afl.Prelude.{
  ℕ, zero, suc, ◌+◌, ◌-◌, Bool, true, false, not, ◌&&◌, ◌||◌, Option, none, some, List, [], ◌∷◌,
  ◌++◌, Text, codes, text_eq, starts_with, if◌then◌else◌, length, drop, take, join, map, any, ltb,
  leb, ◌==◌, min, ℤ, pos, negsuc,
}
use s2afl.Text.{
  crlf, is_space, rstrip, strip, upper, find_cut, first_line, first_word, ends_with, member,
}
use s2afl.Seed.{message_method}

pub record LineCommandMessage : Type 0 where
  pub raw : Text
  pub method : Text
  pub argument : Text
  pub body : Text
  pub raw_start : ℕ
  pub raw_end : ℕ

-- What the parser reads of the policy: the methods with a body and the markers of its end, in upper
-- case, and the terminator.
pub record BodyRules : Type 0 where
  pub body_methods : List Text
  pub end_markers : List Text
  pub terminator : Text

-- (raw.splitlines() or [""])[0].strip()
abbrev pub heading : Text → Text
heading raw = strip (first_line raw)

-- raw.split("\r\n")[0]
before_crlf : Text → Text
unfolding find_cut
before_crlf raw = elim (find_cut crlf raw) [ none ↦ raw | some (line, rest) ↦ line ]

-- raw[len(first_line):] without its leading line end and its terminator.
body_of : BodyRules → Text → Text
unfolding starts_with ends_with
body_of rules tail =
    let body = if starts_with tail crlf then drop 2 tail else tail in
    if not (length rules.terminator == 0) && ends_with body rules.terminator
    then take (length body - length rules.terminator) body
    else body

message : Text → Text → Text → Text → LineCommandMessage
message raw method argument body = record {
  raw = raw;
  method = method;
  argument = argument;
  body = body;
  raw_start = 0;
  raw_end = 1;
}

-- _parse_line_command_message
unfoldable pub parse_line_command_message : BodyRules → Text → LineCommandMessage
unfolding before_crlf body_of message member upper strip find_cut message_method
parse_line_command_message rules raw =
    let line = strip (before_crlf raw) in
    let method = strip (message_method line) in
    if length line == 0
    then message raw [] [] []
    else if member (upper method) rules.body_methods
    then message raw method [] (body_of rules (drop (length line) raw))
    else elim (find_cut (b' ' ∷ []) line) [
      | some (cmd, argument) ↦ message raw (strip cmd) argument []
      | none ↦ message raw (strip line) [] []
    ]

-- The regions of a body and how many raw messages it takes: up to the end marker, which counts.
body_regions : BodyRules → List Text → List Text × ℕ
unfolding member upper strip first_line
body_regions rules [] = ([], 0)
body_regions rules (region ∷ rest) =
    let more = body_regions rules rest in
    if member (upper (heading region)) rules.end_markers
    then ([], 1)
    else (region ∷ more.0, suc more.1)

-- The loop of `_parse_line_command_messages` from `index` on, where `rest` is raw_messages[index:].
parse_loop : BodyRules → ℕ → ℕ → List Text → List LineCommandMessage
unfolding body_regions parse_line_command_message member upper strip first_line message_method
parse_loop rules zero index rest = []
parse_loop rules (suc fuel) index [] = []
parse_loop rules (suc fuel) index (raw ∷ rest) =
    let skip = parse_loop rules fuel (suc index) rest in
    let method = strip (message_method (heading raw)) in
    let regions = body_regions rules rest in
    let end_index = suc index + regions.1 in
    let behind = parse_loop rules fuel end_index (drop regions.1 rest) in
    let parsed = parse_line_command_message rules raw in
    if length (heading raw) == 0
    then skip
    else if member (upper method) rules.body_methods && not (length rules.end_markers == 0)
    then record {
      raw = join (raw ∷ take regions.1 rest);
      method = method;
      argument = [];
      body = join regions.0;
      raw_start = index;
      raw_end = end_index;
    }
      ∷ behind
    else if length parsed.method == 0
    then skip
    else record parsed { raw_start = index; raw_end = suc index } ∷ skip

-- _parse_line_command_messages; each round reads a raw message or more.
unfoldable pub parse_line_command_messages : BodyRules → List Text → List LineCommandMessage
unfolding parse_loop
parse_line_command_messages rules raw_messages =
    parse_loop rules (suc (length raw_messages)) 0 raw_messages

-- The first message for which a test holds, counted from `index`.
index_of : (LineCommandMessage → Bool) → ℕ → List LineCommandMessage → Option ℕ
index_of f index [] = none
index_of f index (m ∷ messages) = if f m then some index else index_of f (suc index) messages

abbrev at_least_zero : ℤ → ℕ
at_least_zero (pos n) = n
at_least_zero (negsuc n) = 0

abbrev has_raw : ℕ → LineCommandMessage → Bool
has_raw n m = leb m.raw_start n && ltb n m.raw_end

-- _map_line_command_message_index
unfoldable pub map_line_command_message_index : List LineCommandMessage → ℤ → ℕ
unfolding index_of
map_line_command_message_index messages raw_index =
    let bounded = at_least_zero raw_index in
    elim (index_of (has_raw bounded) 0 messages) [
      | some i ↦ i
      | none ↦ elim (index_of (λ m. ltb bounded m.raw_start) 0 messages) [
        | some i ↦ i - 1
        | none ↦ length messages - 1
      ]
    ]

is_line_char : ℕ → Bool
is_line_char c = c == 13 || c == 10

render_one : BodyRules → LineCommandMessage → Text
unfolding member upper ends_with rstrip is_line_char
render_one rules m =
    let body =
      if not (length rules.terminator == 0) && not (ends_with m.body rules.terminator)
      then rstrip is_line_char m.body ++ rules.terminator
      else m.body in
    let line = if length m.argument == 0 then m.method else m.method ++ b' ' ∷ m.argument in
    if member (upper m.method) rules.body_methods then m.method ++ crlf ++ body else line ++ crlf

-- _render_line_command_messages
unfoldable pub render_line_command_messages : BodyRules → List LineCommandMessage → Text
unfolding render_one
render_line_command_messages rules messages = join (map (render_one rules) messages)

-- _compose_line_command_seed
unfoldable pub compose_line_command_seed :
    BodyRules → List Text → List LineCommandMessage → ℕ → Text
unfolding render_line_command_messages
compose_line_command_seed rules raw_messages mutated preserve_prefix =
    let n = min preserve_prefix (min (length raw_messages) (length mutated)) in
    join (take n raw_messages) ++ render_line_command_messages rules (drop n mutated)
