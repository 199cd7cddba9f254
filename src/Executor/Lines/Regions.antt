-- ===== src/Executor/Lines/Regions.antt =====
-- The regions of `_parse_line_command_messages`, and the message that `_map_line_command_message_index`
-- finds for a raw index.
use mathlib.Core.Path.{subst}
use mathlib.Core.Option.{some-injective}
use s2afl.Prelude.{
  ℕ, zero, suc, ◌+◌, ◌-◌, ◌≤◌, ◌<◌, Bool, true, false, not, ◌&&◌, some, List, [], ◌∷◌, Text, ◌≡◌,
  refl, sym, ap, ◌∙◌, arith, inl, inr, length, drop, take, join, ltb, ◌==◌, ◌⊎◌, length-drop, ℤ,
  pos, Bool-cases, Option-cases, get_elem?, append-nil,
}
use s2afl.Text.{find_cut, upper, member, strip}
use s2afl.Seed.{message_method}
use s2afl.Executor.Lines.{
  LineCommandMessage, BodyRules, heading, before_crlf, message, body_regions, parse_loop,
  parse_line_command_message, parse_line_command_messages, index_of, has_raw, at_least_zero,
  map_line_command_message_index,
}

-- The test for a raw message that is the method of a body, under a policy that ends bodies.
abbrev pub opens : BodyRules → Text → Bool
opens rules raw =
    member (upper (strip (message_method (heading raw)))) rules.body_methods
    && not (length rules.end_markers == 0)

-- The raw messages of a body: all up to the first end marker, or all there are.
pub data Body (rules : BodyRules) : List Text → ℕ → Type 0 where
  open_end : Body rules [] 0
  marker :
      (raw : Text) (rest : List Text)
      → member (upper (heading raw)) rules.end_markers ≡ true
      → Body rules (raw ∷ rest) 1
  more :
      (raw : Text) (rest : List Text) (n : ℕ)
      → member (upper (heading raw)) rules.end_markers ≡ false
      → Body rules rest n
      → Body rules (raw ∷ rest) (suc n)

-- A raw message that starts no message: a blank line, or one without a body and without a method.
abbrev pub IsSkipped : BodyRules → Text → Type 0
IsSkipped rules raw =
    (length (heading raw) ≡ 0)
    ⊎ ((opens rules raw ≡ false) × (length (parse_line_command_message rules raw).method ≡ 0))

-- A raw message that starts one, and how many raw messages behind it belong to it.
abbrev pub Starts : BodyRules → Text → List Text → ℕ → Type 0
Starts rules raw rest n =
    (1 ≤ length (heading raw))
    × (((opens rules raw ≡ true) × Body rules rest n)
        ⊎ ((opens rules raw ≡ false)
            × (1 ≤ length (parse_line_command_message rules raw).method)
            × (n ≡ 0)))

-- Messages that cover all raw messages from an index on, in order and without overlap: each raw
-- message is skipped or starts a message, which is the run of it and its body.
pub data Regions (rules : BodyRules) : ℕ → List Text → List LineCommandMessage → Type 0 where
  done : (index : ℕ) → Regions rules index [] []
  skip :
      (index : ℕ) (raw : Text) (rest : List Text) (messages : List LineCommandMessage)
      → IsSkipped rules raw
      → Regions rules (suc index) rest messages
      → Regions rules index (raw ∷ rest) messages
  region :
      (index n : ℕ) (raw : Text) (rest : List Text) (m : LineCommandMessage)
      (messages : List LineCommandMessage)
      → Starts rules raw rest n
      → m.raw_start ≡ index
      → m.raw_end ≡ suc index + n
      → m.raw ≡ join (raw ∷ take n rest)
      → Regions rules (suc index + n) (drop n rest) messages
      → Regions rules index (raw ∷ rest) (m ∷ messages)

body_regions-Body :
    (rules : BodyRules) (rest : List Text) → Body rules rest (body_regions rules rest).1
unfolding body_regions
body_regions-Body rules [] = open_end
body_regions-Body rules (raw ∷ rest) =
    elim (Bool-cases (member (upper (heading raw)) rules.end_markers)) [
      | inl e ↦ rw e (marker raw rest e)
      | inr e ↦ rw e (more raw rest _ e (body_regions-Body rules rest))
    ]

raw-parse : (rules : BodyRules) (raw : Text) → (parse_line_command_message rules raw).raw ≡ raw
unfolding parse_line_command_message message
raw-parse rules raw =
    let line = strip (before_crlf raw) in
    elim (Bool-cases (length line == 0)) [
      | inl e ↦ rw e refl
      | inr e ↦
          elim (Bool-cases (member (upper (strip (message_method line))) rules.body_methods)) [
            | inl f ↦ rw (e, f) refl
            | inr f ↦ elim (Option-cases (find_cut (b' ' ∷ []) line)) [
              | inl g ↦ rw (e, f, g) refl
              | inr ((a, b), g) ↦ rw (e, f, g) refl
            ]
          ]
    ]

add-zero : (n : ℕ) → n ≡ n + 0
add-zero n = omega arith

parse_loop-Regions :
    (rules : BodyRules) (fuel index : ℕ) (rest : List Text)
    → length rest < fuel
    → Regions rules index rest (parse_loop rules fuel index rest)
unfolding parse_loop
parse_loop-Regions rules zero index rest enough = absurd (omega (arith, enough))
parse_loop-Regions rules (suc fuel) index [] enough = done index
parse_loop-Regions rules (suc fuel) index (raw ∷ rest) enough =
    let fewer : length rest < fuel = omega (arith, enough) in
    let behind = parse_loop-Regions rules fuel (suc index) rest fewer in
    let n = (body_regions rules rest).1 in
    let parsed = parse_line_command_message rules raw in
    elim (Bool-cases (length (heading raw) == 0)) [
      | inl e ↦ rw e (skip index raw rest _ (inl (ground (arith, e))) behind)
      | inr e ↦
          let some_heading : 1 ≤ length (heading raw) = ground (arith, e) in
          elim (Bool-cases (opens rules raw)) [
            | inl f ↦
                rw (e, f)
                  (region index n raw rest _ _ (some_heading, inl (f, body_regions-Body rules rest))
                    refl refl refl
                    (parse_loop-Regions rules fuel (suc index + n) (drop n rest)
                      (let size = length-drop n rest in omega (arith, size, fewer))))
            | inr f ↦ elim (Bool-cases (length parsed.method == 0)) [
              | inl g ↦ rw (e, f, g) (skip index raw rest _ (inr (f, ground (arith, g))) behind)
              | inr g ↦
                  rw (e, f, g)
                    (region index 0 raw rest _ _ (some_heading, inr (f, ground (arith, g), refl))
                      refl (omega arith) (raw-parse rules raw ∙ sym (append-nil raw))
                      (subst
                        (λ (k : ℕ). Regions rules k rest (parse_loop rules fuel (suc index) rest))
                        (add-zero (suc index)) behind))
            ]
          ]
    ]

from-start :
    (rules : BodyRules) (index : ℕ) (rest : List Text) (messages : List LineCommandMessage) (i : ℕ)
    (m : LineCommandMessage)
    → Regions rules index rest messages
    → get_elem? messages i ≡ some m
    → index ≤ m.raw_start
from-start rules index rest [] i m h e = cc
from-start rules index [] (k ∷ messages) i m h e = elim h [ ]
from-start rules index (raw ∷ rest) (k ∷ messages) i m (skip _ _ _ _ _ h) e =
    let later = from-start rules (suc index) rest (k ∷ messages) i m h e in omega (arith, later)
from-start rules index (raw ∷ rest) (k ∷ messages) zero m (region _ n _ _ _ _ _ start stop _ h) e =
    let at : k.raw_start ≡ m.raw_start =
      ap (λ (x : LineCommandMessage). x.raw_start) (some-injective _ _ e) in
    omega (arith, at, start)
from-start rules index (raw ∷ rest) (k ∷ messages) (suc i) m (region _ n _ _ _ _ _ start stop _ h)
      e =
    let later = from-start rules (suc index + n) (drop n rest) messages i m h e in
    omega (arith, later)

index_of-Regions :
    (rules : BodyRules) (n at index : ℕ) (rest : List Text) (messages : List LineCommandMessage)
    (i : ℕ) (m : LineCommandMessage)
    → Regions rules index rest messages
    → get_elem? messages i ≡ some m
    → m.raw_start ≤ n
    → n < m.raw_end
    → index_of (has_raw n) at messages ≡ some (at + i)
unfolding index_of
index_of-Regions rules n at index rest [] i m h e low high = cc
index_of-Regions rules n at index [] (k ∷ messages) i m h e low high = elim h [ ]
index_of-Regions rules n at index (raw ∷ rest) (k ∷ messages) i m (skip _ _ _ _ _ h) e low high =
    index_of-Regions rules n at (suc index) rest (k ∷ messages) i m h e low high
index_of-Regions rules n at index (raw ∷ rest) (k ∷ messages) zero m
      (region _ _ _ _ _ _ _ start stop _ h) e low high =
    let same : k ≡ m = some-injective _ _ e in
    let test : has_raw n k ≡ true =
      subst (λ (x : LineCommandMessage). has_raw n x ≡ true) (sym same)
        (ground (arith, low, high)) in
    rw test (ap (λ (x : ℕ). some x) (omega arith))
index_of-Regions rules n at index (raw ∷ rest) (k ∷ messages) (suc i) m
      (region _ j _ _ _ _ _ start stop _ h) e low high =
    let later = from-start rules (suc index + j) (drop j rest) messages i m h e in
    let test : has_raw n k ≡ false = ground (arith, later, stop, low) in
    rw test (
      index_of-Regions rules n (suc at) (suc index + j) (drop j rest) messages i m h e low high
      ∙ ap (λ (x : ℕ). some x) (omega arith))

-- `_parse_line_command_messages` reads every raw message, in order: one that is blank, or has no
-- body and no method, is skipped, and each other starts a message, which has its raw index and
-- text and, under a method with a body, those of all behind it up to the first end marker or the
-- end; and `_map_line_command_message_index` of a raw index inside the run of a message is the
-- place of that message.
pub parse_line_command_messages-Regions :
    (rules : BodyRules) (raw_messages : List Text)
    → Regions rules 0 raw_messages (parse_line_command_messages rules raw_messages)
      × ((i n : ℕ) (m : LineCommandMessage)
          → get_elem? (parse_line_command_messages rules raw_messages) i ≡ some m
          → m.raw_start ≤ n
          → n < m.raw_end
          → map_line_command_message_index (parse_line_command_messages rules raw_messages) (pos n)
            ≡ i)
unfolding parse_line_command_messages map_line_command_message_index
parse_line_command_messages-Regions rules raw_messages =
    let regions =
      parse_loop-Regions rules (suc (length raw_messages)) 0 raw_messages (omega arith) in
    (
      regions,
      λ i n m e low high.
          let found =
            index_of-Regions rules n 0 0 raw_messages
              (parse_line_command_messages rules raw_messages) i m regions e low high in
          ground (arith, found),
    )

index_of-bound :
    (f : LineCommandMessage → Bool) (at : ℕ) (messages : List LineCommandMessage) (i : ℕ)
    → index_of f at messages ≡ some i
    → i < at + length messages
unfolding index_of
index_of-bound f at [] i h = cc
index_of-bound f at (m ∷ messages) i h = elim (Bool-cases (f m)) [
  | inl e ↦ ground (arith, e)
  | inr e ↦
      let later = index_of-bound f (suc at) messages i (ground (arith, e)) in omega (arith, later)
]

-- `_map_line_command_message_index` is the place of a message for every raw index, a negative one
-- included, if there is a message at all.
pub map_line_command_message_index-bound :
    (messages : List LineCommandMessage) (raw_index : ℤ)
    → 1 ≤ length messages
    → map_line_command_message_index messages raw_index < length messages
unfolding map_line_command_message_index
map_line_command_message_index-bound messages raw_index h =
    let n = at_least_zero raw_index in
    elim (Option-cases (index_of (has_raw n) 0 messages)) [
      | inr (i, e) ↦
          let bound = index_of-bound (has_raw n) 0 messages i e in
          let found : map_line_command_message_index messages raw_index ≡ i = ground (arith, e) in
          rw found (omega (arith, bound))
      | inl e ↦ elim (Option-cases (index_of (λ m. ltb n m.raw_start) 0 messages)) [
        | inr (i, f) ↦
            let bound = index_of-bound (λ m. ltb n m.raw_start) 0 messages i f in
            let found : map_line_command_message_index messages raw_index ≡ i - 1 =
              ground (arith, e, f) in
            rw found (omega (arith, bound))
        | inl f ↦
            let found : map_line_command_message_index messages raw_index ≡ length messages - 1 =
              ground (arith, e, f) in
            rw found (omega (arith, h))
      ]
    ]
