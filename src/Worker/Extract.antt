-- ===== src/Worker/Extract.antt =====
-- How a seed is taken out of the model's answer: `_decode_literal_seed_escapes`,
-- `_seed_from_message_queue`, `_extract_seed_from_blob` and `_candidate_seed_from_response`, with
-- `parse_markdown_seed_block` of python/S2AFL/runtime/seed_utils.py. `loads` stands for `json.loads`, with
-- `none` where it raises; what it is given and returns are `str`s, here lists of code points.
use s2afl.Prelude.{
  ℕ, zero, suc, ◌+◌, ◌-◌, ◌*◌, String, Bool, true, false, not, ◌&&◌, Option, none, some, List, [],
  ◌∷◌, ◌++◌, map, Text, codes, leb, ◌==◌, if◌then◌else◌, length, take, drop, any, all, join,
  starts_with, ◌>>=◌, text_eq,
}
use s2afl.Text.{is_space, lstrip, rstrip, strip, lower, find_cut, member}
use s2afl.Text.Replace.{replace, contains}
use mathlib.Core.Option

-- A JSON value, as far as the worker looks at it.
mutual
  pub data Value : Type 0 where
    text : Text → Value
    list : Values → Value
    dict : Entries → Value
    falsy : Value
    truthy : Value

  pub data Values : Type 0 where
    nil : Values
    cons : Value → Values → Values

  pub data Entries : Type 0 where
    end : Entries
    entry : Text → Value → Entries → Entries

-- d.get(key); json.loads keeps the last of several entries, so that `Entries` have distinct keys.
lookup : Text → Entries → Option Value
unfolding text_eq
lookup key end = none
lookup key (entry name value entries) = if text_eq name key then some value else lookup key entries

hex_digit : ℕ → Option ℕ
hex_digit c =
    if leb b'0' c && leb c b'9'
    then some (c - b'0')
    else if leb b'A' c && leb c b'F'
    then some (c - 55)
    else if leb b'a' c && leb c b'f'
    then some (c - 87)
    else none

-- int(digits, 16) of the first n characters, if they are digits.
hex_value : ℕ → ℕ → Text → Option ℕ
unfolding hex_digit
hex_value zero acc s = some acc
hex_value (suc n) acc [] = none
hex_value (suc n) acc (c ∷ s) = elim (hex_digit c) [
  | none ↦ none
  | some d ↦ hex_value n (acc * 16 + d) s
]

-- re.sub of a marker and n hexadecimal digits by the character; the number counts the characters that
-- were read with a match.
decode_hex : Text → ℕ → ℕ → Text → Text
unfolding hex_value starts_with
decode_hex marker n skip [] = []
decode_hex marker n (suc skip) (c ∷ s) = decode_hex marker n skip s
decode_hex marker n zero (c ∷ s) =
    elim (if starts_with (c ∷ s) marker
      then hex_value n 0 (drop (length marker) (c ∷ s))
      else none) [
        | none ↦ c ∷ decode_hex marker n 0 s
        | some code ↦ code ∷ decode_hex marker n (length marker + n - 1) s
      ]

-- _decode_literal_seed_escapes
unfoldable pub decode_literal_seed_escapes : Text → Text
unfolding replace decode_hex contains
decode_literal_seed_escapes value =
    let lines = replace (codes "\\r\\n") (10 ∷ []) value in
    let feeds = replace (codes "\\n") (10 ∷ []) lines in
    let returns = replace (codes "\\r") (13 ∷ []) feeds in
    let tabs = replace (codes "\\t") (9 ∷ []) returns in
    if any (contains value) (map codes ("\\r" ∷ "\\n" ∷ "\\t" ∷ "\\x" ∷ "\\u" ∷ []))
    then decode_hex (codes "\\u") 4 0 (decode_hex (codes "\\x") 2 0 tabs)
    else value

-- A text that is not only whitespace.
filled : Value → Option Text
unfolding is_space
filled (text s) = if all is_space s then none else some s
filled _ = none

is_truthy : Value → Bool
is_truthy (text []) = false
is_truthy (list nil) = false
is_truthy (dict end) = false
is_truthy falsy = false
is_truthy _ = true

-- item.get(a) or item.get(b) or …: the last one, where none is true.
first_true : List String → Entries → Option Value
unfolding lookup is_truthy
first_true [] entries = none
first_true (k ∷ []) entries = lookup (codes k) entries
first_true (k ∷ j ∷ keys) entries =
    let rest = first_true (j ∷ keys) entries in
    elim (lookup (codes k) entries) [ none ↦ rest | some v ↦ if is_truthy v then some v else rest ]

raw_item : Value → Option Text
unfolding first_true filled
raw_item (dict entries) = first_true ("raw" ∷ "message" ∷ "data" ∷ "text" ∷ []) entries >>= filled
raw_item value = filled value

queue_parts : Values → List Text
unfolding raw_item decode_literal_seed_escapes
queue_parts nil = []
queue_parts (cons item items) = elim (raw_item item) [
  | none ↦ queue_parts items
  | some s ↦ decode_literal_seed_escapes s ∷ queue_parts items
]

-- _seed_from_message_queue
unfoldable pub seed_from_message_queue : Option Value → Option Text
unfolding queue_parts
seed_from_message_queue (some (list items)) = elim (queue_parts items) [
  | [] ↦ none
  | p ∷ parts ↦ some (join (p ∷ parts))
]
seed_from_message_queue _ = none

-- A text that is not empty.
abbrev nonempty_text : Option Text → Option Text
nonempty_text (some (c ∷ s)) = some (c ∷ s)
nonempty_text _ = none

or_else : Option Text → Option Text → Option Text
or_else (some s) other = some s
or_else none other = other

-- The first queue of the three keys.
queued : Entries → Option Text
unfolding seed_from_message_queue lookup or_else
queued entries =
    or_else (nonempty_text (seed_from_message_queue (lookup (codes "mutated_messages") entries))) (
      or_else (nonempty_text (seed_from_message_queue (lookup (codes "message_queue") entries)))
        (nonempty_text (seed_from_message_queue (lookup (codes "messages") entries))))

abbrev seed_keys : List Text
seed_keys = codes "mutated_seed" ∷ codes "seed" ∷ codes "raw_seed" ∷ []

-- The first of the seed keys with a text that is not only whitespace.
seed_value : List Text → Entries → Option Text
unfolding lookup filled or_else
seed_value [] entries = none
seed_value (key ∷ keys) entries = or_else (lookup key entries >>= filled) (seed_value keys entries)

-- ((?:\\.|[^"])*) with DOTALL: as many as there are of an escaped character or one that is no quote.
quoted : Text → Text
quoted [] = []
quoted (c ∷ []) = if c == b'"' then [] else c ∷ []
quoted (c ∷ d ∷ s) = elim (c == b'\\') [
  | true ↦ c ∷ d ∷ quoted s
  | false ↦ elim (c == b'"') [ true ↦ [] | false ↦ c ∷ quoted (d ∷ s) ]
]

-- "key"\s*:\s*" at one place: the text behind it.
partial_at : Text → Text → Option Text
unfolding lstrip is_space starts_with
partial_at key s =
    let name = b'"' ∷ key ++ b'"' ∷ [] in
    let colon = lstrip is_space (drop (length name) s) in
    let value = lstrip is_space (drop 1 colon) in
    if starts_with s name && starts_with colon (b':' ∷ []) && starts_with value (b'"' ∷ [])
    then some (drop 1 value)
    else none

-- re.search of it.
partial : Text → Text → Option Text
unfolding partial_at
partial key [] = none
partial key (c ∷ s) = elim (partial_at key (c ∷ s)) [ some rest ↦ some rest | none ↦ partial key s ]

partial_seed : List Text → Text → Option Text
unfolding partial quoted is_space
partial_seed [] s = none
partial_seed (key ∷ keys) s =
    let rest = partial_seed keys s in
    elim (partial key s) [
      | none ↦ rest
      | some found ↦ let group = quoted found in if all is_space group then rest else some group
    ]

abbrev fence : Text
fence = codes "```"

-- (?:raw|text|seed|json)? in any case.
drop_tag : Text → Text
unfolding lower member
drop_tag s =
    if member (lower (take 3 s)) (codes "raw" ∷ [])
    then drop 3 s
    else if member (lower (take 4 s)) (codes "text" ∷ codes "seed" ∷ codes "json" ∷ [])
    then drop 4 s
    else s

-- The text between two fences. Without a second one behind the first there is none further on.
fenced : Text → Option Text
unfolding drop_tag find_cut lstrip is_space
fenced s = find_cut fence s >>= λ (opened : Text × Text).
    Option.map (λ (closed : Text × Text). closed.0)
      (find_cut fence (lstrip is_space (drop_tag opened.1)))

abbrev is_feed : ℕ → Bool
is_feed c = c == 10

-- parse_markdown_seed_block
unfoldable pub parse_markdown_seed_block : Text → Option Text
unfolding fenced lstrip rstrip strip contains
parse_markdown_seed_block s = elim (fenced s) [
  | some body ↦ some (rstrip is_feed (lstrip is_feed body))
  | none ↦
      let stripped = strip s in
      if not (length stripped == 0) && contains stripped (10 ∷ []) then some stripped else none
]

module _ (loads : Text → Option Value) where
  from_parsed : Option Value → Option Text
  unfolding queued seed_value decode_literal_seed_escapes or_else
  from_parsed (some (dict entries)) =
      or_else (queued entries)
        (Option.map decode_literal_seed_escapes (seed_value seed_keys entries))
  from_parsed _ = none

  from_fence : Text → Option Text
  unfolding parse_markdown_seed_block starts_with decode_literal_seed_escapes
  from_fence s =
      if starts_with s fence
      then Option.map decode_literal_seed_escapes (nonempty_text (parse_markdown_seed_block s))
      else none

  -- _extract_seed_from_blob of a text.
  unfoldable pub extract_seed_from_blob : Text → Option Text
  unfolding from_parsed partial_seed from_fence strip or_else decode_literal_seed_escapes
  extract_seed_from_blob raw_text =
      let s = strip raw_text in
      if length s == 0
      then none
      else or_else (from_parsed (loads s)) (
          or_else (Option.map decode_literal_seed_escapes (partial_seed seed_keys s))
            (or_else (from_fence s) (some (decode_literal_seed_escapes raw_text))))

  -- _candidate_seed_from_response
  unfoldable pub candidate_seed_from_response : Entries → Text → Option Text
  unfolding queued seed_value extract_seed_from_blob parse_markdown_seed_block or_else
  candidate_seed_from_response payload response =
      or_else (queued payload) (elim (seed_value seed_keys payload) [
        | some value ↦ or_else (nonempty_text (extract_seed_from_blob value)) (some value)
        | none ↦ extract_seed_from_blob (elim (nonempty_text (parse_markdown_seed_block response)) [
          | some block ↦ block
          | none ↦ response
        ])
      ])
