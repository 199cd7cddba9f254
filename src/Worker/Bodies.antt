-- ===== src/Worker/Bodies.antt =====
-- Messages that belong to the body of one before: `_region_without_start_allowed` with its two cases,
-- and `_content_length_consistent`.
pub mod Opened
pub mod Declared
use s2afl.Prelude.{
  ℕ, zero, suc, ◌+◌, ◌-◌, ◌*◌, Bool, true, false, not, ◌&&◌, ◌||◌, Option, none, some, List, [],
  ◌∷◌, map, Text, codes, ltb, ◌==◌, if◌then◌else◌, length, take, drop, any, starts_with, get_elem?,
}
use s2afl.Text.{
  crlf, crlf_crlf, is_space, lstrip, strip, upper, lower, encode, first_line, find_cut, ends_with,
  member,
}
use s2afl.Text.Replace.{replace, contains, span}
use s2afl.Policy.{ProtocolMutationPolicy, Style, request_style, line_command}

-- upper in body_methods, for the first line of a message.
unfoldable pub opens_body : ProtocolMutationPolicy → Text → Bool
unfolding strip first_line upper member
opens_body policy message =
    member (upper (strip (first_line message))) (map upper policy.line_body_methods)

-- upper in end_markers
unfoldable pub ends_body : ProtocolMutationPolicy → Text → Bool
unfolding strip first_line upper member
ends_body policy message =
    member (upper (strip (first_line message)))
      (map (λ m. upper (strip m)) policy.line_body_end_markers)

-- in_body behind messages[:index].
unfoldable pub in_body_behind : ProtocolMutationPolicy → Bool → List Text → Bool
unfolding opens_body ends_body
in_body_behind policy in_body [] = in_body
in_body_behind policy in_body (prior ∷ messages) =
    in_body_behind policy
      (if opens_body policy prior
        then true
        else if in_body && ends_body policy prior
        then false
        else in_body)
      messages

-- _line_body_region_allowed; the last test always holds. The source raises IndexError on an index
-- behind the end in an open body, with which it is never called.
unfoldable pub line_body_region_allowed : ProtocolMutationPolicy → List Text → ℕ → Bool
unfolding in_body_behind ends_body strip first_line
line_body_region_allowed policy messages index =
    if length policy.line_body_methods == 0 || length policy.line_body_end_markers == 0
    then false
    else if not (in_body_behind policy false (take index messages))
    then false
    else elim (get_elem? messages index) [
      | none ↦ false
      | some message ↦
          let first = strip (first_line message) in
          length first == 0 || ends_body policy message || not (length first == 0)
    ]

abbrev is_decimal : ℕ → Bool
is_decimal c = not (ltb c b'0') && ltb c (b'9' + 1)

number : ℕ → Text → ℕ
number n [] = n
number n (c ∷ s) = number (n * 10 + (c - b'0')) s

-- \s*$ with MULTILINE: a line end or nothing behind whitespace.
at_line_end : Text → Bool
unfolding is_space
at_line_end [] = true
at_line_end (c ∷ s) = c == 10 || is_space c && at_line_end s

-- Content-Length:\s*(\d+)\s*$ at the start of a line. `int` raises ValueError, the inner `none`, on
-- more than 4300 digits.
declared_at : Text → Option (Option ℕ)
unfolding span at_line_end number lower lstrip starts_with is_space
declared_at s =
    if starts_with (lower (take 15 s)) (codes "content-length:")
    then (let digits = span is_decimal (lstrip is_space (drop 15 s)) in
        if not (length digits.0 == 0) && at_line_end digits.1
        then some (if ltb 4300 (length digits.0) then none else some (number 0 digits.0))
        else none)
    else none

-- The first match; the flag says whether a line starts here.
declared_from : Bool → Text → Option (Option ℕ)
unfolding declared_at
declared_from at_start [] = none
declared_from at_start (c ∷ s) = elim (if at_start then declared_at (c ∷ s) else none) [
  | some n ↦ some n
  | none ↦ declared_from (c == 10) s
]

-- re.search(r"(?im)^Content-Length:\s*(\d+)\s*$", header_blob)
unfoldable pub declared_length : Text → Option (Option ℕ)
unfolding declared_from
declared_length header_blob = declared_from true header_blob

-- The lengths that a body may declare: as it stands, with short line ends, without the last line end.
unfoldable pub body_lengths : Text → List ℕ
unfolding encode replace ends_with
body_lengths region =
    length (encode region)
    ∷ length (encode (replace crlf (10 ∷ []) region))
    ∷ (if ends_with region crlf then length (encode (take (length region - 2) region)) ∷ [] else [])

abbrev pub among : ℕ → List ℕ → Bool
among n lengths = any (λ m. n == m) lengths

-- The tests on the message before and on the body.
follows : Text → Text → Bool
unfolding declared_length body_lengths contains find_cut
follows previous current = elim (find_cut crlf_crlf previous) [
  | none ↦ false
  | some (header_blob, inline_body) ↦
      if not (length inline_body == 0) then false else elim (declared_length header_blob) [
        | none ↦ false
        | some none ↦ false
        | some (some declared) ↦
            if declared == 0
            then false
            else if length current == 0 || contains current crlf_crlf
            then false
            else among declared (body_lengths current)
      ]
]

-- _request_body_region_allowed
unfoldable pub request_body_region_allowed : ProtocolMutationPolicy → List Text → ℕ → Bool
unfolding follows
request_body_region_allowed policy messages zero = false
request_body_region_allowed policy messages (suc index) = elim policy.message_style [
  | line_command ↦ false
  | request_style ↦ elim (get_elem? messages (suc index)) [
    | none ↦ false
    | some current ↦ elim (get_elem? messages index) [
      | none ↦ false
      | some previous ↦ follows previous current
    ]
  ]
]

-- _region_without_start_allowed
unfoldable pub region_without_start_allowed : ProtocolMutationPolicy → List Text → ℕ → Bool
unfolding line_body_region_allowed request_body_region_allowed
region_without_start_allowed policy messages index =
    line_body_region_allowed policy messages index
    || request_body_region_allowed policy messages index

-- header_blob and body.
unfoldable pub blob_and_body : Text → Text × Text
unfolding find_cut
blob_and_body message = elim (find_cut crlf_crlf message) [
  | none ↦ (message, [])
  | some parts ↦ parts
]

unfoldable pub body_region_matches : ProtocolMutationPolicy → List Text → ℕ → ℕ → Bool
unfolding request_body_region_allowed body_lengths
body_region_matches policy messages index declared =
    request_body_region_allowed policy messages (suc index)
    && elim (get_elem? messages (suc index)) [
      | none ↦ false
      | some region ↦ among declared (body_lengths region)
    ]

-- One round of the loop: whether it goes on. Where the region does not match, the length that is
-- compared is the first of the list, which is none of those declared.
unfoldable pub message_consistent : ProtocolMutationPolicy → List Text → ℕ → Text → Bool
unfolding declared_length blob_and_body body_region_matches encode
message_consistent policy messages index message =
    let parts = blob_and_body message in
    elim (declared_length parts.0) [
      | none ↦ true
      | some none ↦ false
      | some (some declared) ↦
          let actual = length (encode parts.1) in
          declared == actual || actual == 0 && body_region_matches policy messages index declared
    ]

unfoldable pub consistent_from : ProtocolMutationPolicy → List Text → ℕ → List Text → Bool
unfolding message_consistent
consistent_from policy messages index [] = true
consistent_from policy messages index (message ∷ rest) =
    message_consistent policy messages index message
    && consistent_from policy messages (suc index) rest

-- _content_length_consistent
unfoldable pub content_length_consistent : ProtocolMutationPolicy → List Text → Bool
unfolding consistent_from
content_length_consistent policy messages = consistent_from policy messages 0 messages
