-- ===== src/Seed.antt =====
-- python/S2AFL/runtime/seed_utils.py: seeds as texts, split into messages by the rules of AFLNet.
-- `hashlib.sha1`, the reading of files and the search for fenced blocks are not modelled.
pub mod Lines
mod Tests
pub mod Requests
use s2afl.Prelude.{
  ℕ, zero, suc, ◌+◌, ◌-◌, ◌*◌, Bool, true, false, not, ◌&&◌, ◌||◌, Option, none, some, List, [],
  ◌∷◌, ◌++◌, map, Text, codes, ltb, leb, ◌==◌, if◌then◌else◌, length, take, drop, join, any,
  starts_with, min,
}
use s2afl.Policy.{ProtocolMutationPolicy, Style, request_style, line_command, get_protocol_policy}
use s2afl.Text.{
  crlf, crlf_crlf, is_blank, is_byte_space, is_space, encode, lower, strip, first_line, first_word,
  find_cut, ends_with,
}

abbrev is_digit : ℕ → Bool
is_digit c = leb b'0' c && leb c b'9'

-- [A-Za-z0-9_], for `\b`.
abbrev is_word : ℕ → Bool
is_word c = is_digit c || leb b'A' c && leb c b'Z' || leb b'a' c && leb c b'z' || c == b'_'

-- (\d+)\b: the digits, which no word character may follow, and their value. `int` raises ValueError
-- on more than 4300 digits, and the function returns 0 then.
read_digits : ℕ → ℕ → Text → Option ℕ
read_digits seen n [] = if seen == 0 then none else some (if ltb 4300 seen then 0 else n)
read_digits seen n (c ∷ s) =
    let more = read_digits (seen + 1) (n * 10 + (c - b'0')) s in
    if is_digit c
    then more
    else if seen == 0
    then none
    else if is_word c
    then none
    else some (if ltb 4300 seen then 0 else n)

-- \s*(\d+)\b
read_value : Text → Option ℕ
unfolding read_digits is_byte_space
read_value [] = none
read_value (c ∷ s) =
    let rest = read_value s in if is_byte_space c then rest else read_digits 0 0 (c ∷ s)

-- Content-Length:\s*(\d+)\b with IGNORECASE, at one place.
match_header : Text → Option ℕ
unfolding read_value lower starts_with
match_header s =
    if starts_with (lower s) (codes "content-length:") then read_value (drop 15 s) else none

-- The first match behind a "\r\n".
search_header : Text → Option ℕ
unfolding match_header starts_with
search_header [] = none
search_header (c ∷ s) =
    let rest = search_header s in
    if starts_with (c ∷ s) crlf
    then elim (match_header (drop 2 (c ∷ s))) [ some n ↦ some n | none ↦ rest ]
    else rest

-- _request_content_length; the group is digits, so that the value is not negative.
pub request_content_length : Text → ℕ
unfolding search_header
request_content_length header_blob = elim (match_header header_blob) [
  | some n ↦ n
  | none ↦ elim (search_header header_blob) [ some n ↦ n | none ↦ 0 ]
]

-- The chunk, unless `chunk.strip()` is empty.
emit : Text → List Text → List Text
unfolding is_blank
emit chunk rest = if is_blank chunk then rest else chunk ∷ rest

-- The loop of `_split_request_style_messages` on `data[cursor:]`. Each round takes four bytes or more.
request_loop : ℕ → Text → List Text
unfolding emit find_cut
request_loop zero bytes = []
request_loop (suc fuel) [] = []
request_loop (suc fuel) (c ∷ s) = elim (find_cut crlf_crlf (c ∷ s)) [
  | none ↦ emit (c ∷ s) []
  | some (header, rest) ↦
      let body_length = request_content_length header in
      emit (header ++ crlf_crlf ++ take body_length rest)
        (request_loop fuel (drop body_length rest))
]

unfoldable pub split_request_style_messages : Text → List Text
unfolding request_loop encode
split_request_style_messages raw_text = request_loop (length raw_text + 1) (encode raw_text)

-- The loop of `_split_crlf_messages` on `data[cursor:]`.
crlf_loop : ℕ → Text → List Text
unfolding emit find_cut
crlf_loop zero bytes = []
crlf_loop (suc fuel) [] = []
crlf_loop (suc fuel) (c ∷ s) = elim (find_cut crlf (c ∷ s)) [
  | none ↦ emit (c ∷ s) []
  | some (line, rest) ↦ (line ++ crlf) ∷ crlf_loop fuel rest
]

unfoldable pub split_crlf_messages : Text → List Text
unfolding crlf_loop encode
split_crlf_messages raw_text = crlf_loop (length raw_text + 1) (encode raw_text)

-- The loop of `_split_method_boundary_messages`: `mem` is data[cur_start:byte_count] and the list the
-- unread bytes. At a boundary the chunk data[cur_start:cur_end + 1] is `mem`; with one byte unread
-- cur_end is size - 1, and the chunk runs to the end.
boundary_loop : List Text → Text → Text → List Text
unfolding emit ends_with starts_with
boundary_loop prefixes mem [] = []
boundary_loop prefixes mem (c ∷ s) =
    let mem' = mem ++ c ∷ [] in
    let next = boundary_loop prefixes [] s in
    let more = boundary_loop prefixes mem' s in
    if ends_with mem' crlf && any (starts_with s) prefixes
    then emit mem' next
    else if length s == 1
    then emit (mem' ++ s) []
    else more

nonempty : List Text → List Text
nonempty [] = []
nonempty ([] ∷ rest) = nonempty rest
nonempty ((c ∷ p) ∷ rest) = (c ∷ p) ∷ nonempty rest

-- Empty prefixes are left out.
unfoldable pub split_method_boundary_messages : Text → List Text → List Text
unfolding boundary_loop encode nonempty
split_method_boundary_messages raw_text method_prefixes =
    boundary_loop (map encode (nonempty method_prefixes)) [] (encode raw_text)

by_style : Style → List Text → Text → List Text
by_style line_command prefixes raw_text = split_crlf_messages raw_text
by_style request_style [] raw_text = split_request_style_messages raw_text
by_style request_style (p ∷ prefixes) raw_text =
    split_method_boundary_messages raw_text (p ∷ prefixes)

-- split_seed_messages under a policy; no policy has a third style, and the last loop of the source is
-- never reached.
unfoldable pub split_by_policy : ProtocolMutationPolicy → Text → List Text
unfolding by_style
split_by_policy policy raw_text =
    by_style policy.message_style policy.request_region_start_methods raw_text

unfoldable pub split_seed_messages : Text → Text → List Text
unfolding split_by_policy
split_seed_messages protocol raw_text = split_by_policy (get_protocol_policy protocol) raw_text

-- prefix_messages
unfoldable pub prefix_messages : List Text → ℕ → Text
prefix_messages messages step_index = join (take (step_index + 1) messages)

-- message_method
unfoldable pub message_method : Text → Text
unfolding first_line first_word strip
message_method message = first_word (strip (first_line message))
