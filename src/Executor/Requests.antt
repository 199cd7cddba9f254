-- ===== src/Executor/Requests.antt =====
-- Request messages: `_parse_request_message`,
-- `_current_request_value` and `_set_request_value`. Texts are latin-1, as seeds are read.
pub mod Fields
use s2afl.Prelude.{
  ℕ, zero, suc, ◌-◌, Bool, true, false, not, ◌&&◌, ◌||◌, Option, none, some, List, [], ◌∷◌, ◌++◌,
  Text, codes, text_eq, if◌then◌else◌, length, drop, join, map, ltb, ◌==◌,
}
use s2afl.Text.{crlf, crlf_crlf, is_space, lstrip, rstrip, strip, lower, find_cut, first_word}

pub record RequestMessage : Type 0 where
  pub raw : Text
  pub start_line : Text
  pub headers : List (Text × Text)
  pub body : Text

-- raw.split("\r\n"): `fuel` bounds the number of lines.
split_lines : ℕ → Text → List Text
unfolding find_cut
split_lines zero s = s ∷ []
split_lines (suc fuel) s = elim (find_cut crlf s) [
  | none ↦ s ∷ []
  | some (line, rest) ↦ line ∷ split_lines fuel rest
]

-- The headers of the lines that have a colon.
parse_headers : List Text → List (Text × Text)
unfolding find_cut strip lstrip
parse_headers [] = []
parse_headers (line ∷ lines) = elim (find_cut (b':' ∷ []) line) [
  | none ↦ parse_headers lines
  | some (name, value) ↦ (strip name, lstrip is_space value) ∷ parse_headers lines
]

is_crlf_char : ℕ → Bool
is_crlf_char c = c == 13 || c == 10

message_of : Text → Text → Text → RequestMessage
unfolding split_lines parse_headers
message_of raw header_blob body = elim (split_lines (length header_blob) header_blob) [
  | [] ↦ record { raw = raw; start_line = []; headers = []; body = body }
  | start_line ∷ lines ↦ record {
    raw = raw;
    start_line = start_line;
    headers = parse_headers lines;
    body = body;
  }
]

-- _parse_request_message
unfoldable pub parse_request_message : Text → RequestMessage
unfolding message_of find_cut is_crlf_char
parse_request_message raw = elim (find_cut crlf_crlf raw) [
  | none ↦ message_of raw (rstrip is_crlf_char raw) []
  | some (header_blob, body) ↦ message_of raw header_blob body
]

pub data Kind : Type 0 where
  request_uri : Kind
  start_line : Kind
  method : Kind
  body : Kind
  header : Text → Kind

-- text.split()
split_add : ℕ → Bool → List Text → List Text
split_add c true words = (c ∷ []) ∷ words
split_add c false [] = (c ∷ []) ∷ []
split_add c false (w ∷ words) = (c ∷ w) ∷ words

starts_blank : Text → Bool
starts_blank [] = true
starts_blank (c ∷ s) = is_space c

unfoldable pub split_words : Text → List Text
unfolding split_add starts_blank is_space
split_words [] = []
split_words (c ∷ s) =
    let words = split_words s in if is_space c then words else split_add c (starts_blank s) words

-- The value of the first header of a name, in any case.
find_header : Text → List (Text × Text) → Text
unfolding lower text_eq
find_header name [] = []
find_header name ((n, v) ∷ headers) =
    if text_eq (lower n) (lower name) then v else find_header name headers

-- The headers with a name replaced, and whether there was one.
replace_header : Text → Text → List (Text × Text) → List (Text × Text)
unfolding lower text_eq
replace_header name value [] = []
replace_header name value ((n, v) ∷ headers) =
    (if text_eq (lower n) (lower name) then (n, value) else (n, v))
    ∷ replace_header name value headers

delete_header : Text → List (Text × Text) → List (Text × Text)
unfolding lower text_eq
delete_header name [] = []
delete_header name ((n, v) ∷ headers) =
    let rest = delete_header name headers in
    if text_eq (lower n) (lower name) then rest else (n, v) ∷ rest

has_header : Text → List (Text × Text) → Bool
unfolding lower text_eq
has_header name [] = false
has_header name ((n, v) ∷ headers) = text_eq (lower n) (lower name) || has_header name headers

abbrev pub delete_marker : Text
delete_marker = codes "__DELETE_FIELD__"

set_header : Text → Text → List (Text × Text) → List (Text × Text)
unfolding replace_header delete_header has_header text_eq
set_header name value headers =
    if text_eq value delete_marker
    then delete_header name headers
    else if has_header name headers
    then replace_header name value headers
    else headers ++ (name, value) ∷ []

first_of : List Text → Text
first_of [] = []
first_of (w ∷ words) = w

second_of : List Text → Text
second_of [] = []
second_of (w ∷ []) = []
second_of (w ∷ v ∷ words) = v

-- _current_request_value
unfoldable pub current_request_value : RequestMessage → Kind → Text
unfolding split_words first_of second_of find_header
current_request_value m request_uri = second_of (split_words m.start_line)
current_request_value m start_line = m.start_line
current_request_value m method = first_of (split_words m.start_line)
current_request_value m body = m.body
current_request_value m (header name) = find_header name m.headers

abbrev join_words : List Text → Text
join_words [] = []
join_words (w ∷ []) = w
join_words (w ∷ v ∷ words) = w ++ b' ' ∷ join_words (v ∷ words)

set_uri : List Text → Text → Text → Text
set_uri (m ∷ u ∷ v ∷ words) line value =
    join_words (m ∷ (if length value == 0 then u else value) ∷ v ∷ words)
set_uri _ line value = line

set_method : Text → Text → Text
unfolding find_cut
set_method line [] = line
set_method line (c ∷ value) = elim (find_cut (b' ' ∷ []) line) [
  | none ↦ c ∷ value
  | some (m, rest) ↦ (c ∷ value) ++ b' ' ∷ rest
]

-- _set_request_value
unfoldable pub set_request_value : RequestMessage → Kind → Text → RequestMessage
unfolding split_words set_uri set_method set_header strip
set_request_value m request_uri value = record m {
  start_line = set_uri (split_words m.start_line) m.start_line value;
}
set_request_value m start_line value = record m { start_line = value }
set_request_value m method value = record m { start_line = set_method m.start_line (strip value) }
set_request_value m body value = record m { body = value }
set_request_value m (header name) value = record m { headers = set_header name value m.headers }
