-- ===== src/Worker/Sanitize/Ends.antt =====
-- The line ends of sanitised seeds.
use s2afl.Prelude.{
  ◌⊎◌, ◌≤◌, ℕ, suc, ◌+◌, ◌-◌, true, none, some, List, [], ◌∷◌, ◌++◌, ◌≡◌, refl, sym, ap, ◌∙◌, inl,
  inr, Text, length, join, All, Bool-cases, arith, text_eq, text_eq_sound, if◌then◌else◌, all, take,
  drop, take-append-drop, append_assoc, append-nil, ◌==◌,
}
use s2afl.Text.{crlf, crlf_crlf, is_space, lstrip, rstrip, ends_with}
use s2afl.Text.Replace.{replace, split, join_with, unix_lines}
use s2afl.Text.Keeps.{lstrip-All, rstrip-All, replace-char, unix_lines-lacks}
use s2afl.Policy.{ProtocolMutationPolicy}
use s2afl.Seed.{split_by_policy}
use s2afl.Knowledge.{Templates}
use s2afl.Worker.Bodies.{region_without_start_allowed}
use s2afl.Worker.Clean.{message_start_candidate}
use s2afl.Worker.Sanitize.{
  end_line, normalize_seed_text, keep_from, sanitize_lines, sanitize_message, sanitize_from,
  sanitize_seed_candidate, is_blank_char, is_line_char,
}

-- The text is empty or ends with "\r\n".
pub data EndsLine : Text → Type 0 where
  empty : EndsLine []
  ended : (s : Text) → EndsLine (s ++ crlf)

-- Each carriage return stands before a line feed, and each line feed behind a carriage return.
pub data HasLineEnds : Text → Type 0 where
  nothing : HasLineEnds []
  other : (c : ℕ) (s : Text) → ((c ≡ 13) → ⊥) → ((c ≡ 10) → ⊥) → HasLineEnds s → HasLineEnds (c ∷ s)
  line_end : (c d : ℕ) (s : Text) → c ≡ 13 → d ≡ 10 → HasLineEnds s → HasLineEnds (c ∷ d ∷ s)

HasLineEnds-crlf : (s : Text) → HasLineEnds s → HasLineEnds (s ++ crlf)
HasLineEnds-crlf [] nothing = line_end 13 10 [] refl refl nothing
HasLineEnds-crlf (c ∷ s) (other _ _ r n h) = other c (s ++ crlf) r n (HasLineEnds-crlf s h)
HasLineEnds-crlf (c ∷ d ∷ s) (line_end _ _ _ r n h) =
    line_end c d (s ++ crlf) r n (HasLineEnds-crlf s h)

HasLineEnds-replace :
    (s : Text) → All (λ c. (c ≡ 13) → ⊥) s → HasLineEnds (replace (10 ∷ []) crlf s)
HasLineEnds-replace [] h = unfold replace in nothing
HasLineEnds-replace (c ∷ s) (hc, h) =
    let more = HasLineEnds-replace s h in
    elim (Bool-cases (c == 10)) [
      | inl e ↦
          rw (replace-char 10 c crlf s, e)
            (line_end 13 10 (replace (10 ∷ []) crlf s) refl refl more)
      | inr e ↦
          rw (replace-char 10 c crlf s, e)
            (other c (replace (10 ∷ []) crlf s) hc (ground (arith, e)) more)
    ]

ends_with-split : (s p : Text) → ends_with s p ≡ true → (t : Text) × (s ≡ t ++ p)
unfolding ends_with
ends_with-split s p h =
    let n = length s - length p in
    let same : text_eq (drop n s) p ≡ true = ground arith in
    (
      take n s,
      sym (take-append-drop n s)
          ∙ ap (λ (t : Text). take n s ++ t) (text_eq_sound (drop n s) p same),
    )

EndsLine-of_test : (s : Text) → ends_with s crlf ≡ true → EndsLine s
EndsLine-of_test s h = let (t, e) = ends_with-split s crlf h in rw e (ended t)

end_line-EndsLine : (s : Text) → EndsLine (end_line s)
unfolding end_line
end_line-EndsLine [] = empty
end_line-EndsLine (c ∷ s) = elim (Bool-cases (ends_with (c ∷ s) crlf)) [
  | inl e ↦ rw e (EndsLine-of_test (c ∷ s) e)
  | inr e ↦ rw e (ended (c ∷ s))
]

end_line-HasLineEnds : (s : Text) → HasLineEnds s → HasLineEnds (end_line s)
unfolding end_line
end_line-HasLineEnds [] h = h
end_line-HasLineEnds (c ∷ s) h = elim (Bool-cases (ends_with (c ∷ s) crlf)) [
  | inl e ↦ rw e h
  | inr e ↦ rw e (HasLineEnds-crlf (c ∷ s) h)
]

normalize_seed_text-EndsLine : (candidate : Text) → EndsLine (normalize_seed_text candidate)
unfolding normalize_seed_text
normalize_seed_text-EndsLine candidate = end_line-EndsLine (
    replace (10 ∷ []) crlf
      (rstrip is_blank_char (lstrip is_blank_char (lstrip (λ c. c == 10) (unix_lines candidate)))))

normalize_seed_text-HasLineEnds : (candidate : Text) → HasLineEnds (normalize_seed_text candidate)
unfolding normalize_seed_text
normalize_seed_text-HasLineEnds candidate =
    let bare = lstrip (λ c. c == 10) (unix_lines candidate) in
    let short = rstrip is_blank_char (lstrip is_blank_char bare) in
    let lacks =
      lstrip-All (λ c. (c ≡ 13) → ⊥) (λ c. c == 10) (unix_lines candidate)
        (unix_lines-lacks candidate) in
    let short-lacks =
      rstrip-All (λ c. (c ≡ 13) → ⊥) is_blank_char (lstrip is_blank_char bare)
        (lstrip-All (λ c. (c ≡ 13) → ⊥) is_blank_char bare lacks) in
    end_line-HasLineEnds (replace (10 ∷ []) crlf short) (HasLineEnds-replace short short-lacks)

-- What `_normalize_seed_text` returns has no line end but "\r\n", and ends with one unless it is
-- empty.
pub normalize_seed_text_lem :
    (candidate : Text)
    → EndsLine (normalize_seed_text candidate) × HasLineEnds (normalize_seed_text candidate)
normalize_seed_text_lem candidate =
    (normalize_seed_text-EndsLine candidate, normalize_seed_text-HasLineEnds candidate)

EndsLine-append : (s t : Text) → EndsLine s → EndsLine t → EndsLine (s ++ t)
EndsLine-append s [] hs empty = rw (append-nil s) hs
EndsLine-append s _ hs (ended t) = rw (← append_assoc s t crlf) (ended (s ++ t))

EndsLine-join : (ms : List Text) → All EndsLine ms → EndsLine (join ms)
EndsLine-join [] h = empty
EndsLine-join (m ∷ ms) (hm, h) = EndsLine-append m (join ms) hm (EndsLine-join ms h)

twice : (s : Text) → EndsLine (s ++ crlf_crlf)
twice s =
    let e : (s ++ crlf) ++ crlf ≡ s ++ crlf_crlf = append_assoc s crlf crlf in
    rw (← e) (ended (s ++ crlf))

keep_from-EndsLine :
    (raw start_line : Text) (rest : List Text) → EndsLine (keep_from raw start_line rest)
unfolding keep_from
keep_from-EndsLine raw start_line rest =
    let cleaned = rstrip is_line_char (lstrip is_line_char (join_with crlf (start_line ∷ rest))) in
    elim (Bool-cases (length cleaned == 0)) [
      | inl e ↦ rw e empty
      | inr e ↦ elim (Bool-cases (ends_with raw crlf_crlf)) [
        | inl b ↦ rw (e, b) (twice cleaned)
        | inr b ↦ rw (e, b) (ended cleaned)
      ]
    ]

sanitize_lines-EndsLine :
    (templates : Templates) (raw : Text) (lines : List Text)
    → EndsLine (sanitize_lines templates raw lines)
unfolding sanitize_lines
sanitize_lines-EndsLine templates raw [] = empty
sanitize_lines-EndsLine templates raw (line ∷ rest) =
    elim (Bool-cases (length (message_start_candidate templates line) == 0)) [
      | inl e ↦ rw e (sanitize_lines-EndsLine templates raw rest)
      | inr e ↦ rw e (keep_from-EndsLine raw (message_start_candidate templates line) rest)
    ]

sanitize_message-EndsLine :
    (templates : Templates) (raw : Text) → EndsLine (sanitize_message templates raw)
unfolding sanitize_message
sanitize_message-EndsLine templates raw = elim (Bool-cases (all is_space raw)) [
  | inl e ↦ rw e empty
  | inr e ↦ rw e (sanitize_lines-EndsLine templates raw (split (10 ∷ []) (unix_lines raw)))
]

module _ (policy : ProtocolMutationPolicy) (templates : Templates) where
  region-EndsLine :
      (message : Text)
      → EndsLine (if ends_with message crlf then message else normalize_seed_text message)
  region-EndsLine message = elim (Bool-cases (ends_with message crlf)) [
    | inl e ↦ rw e (EndsLine-of_test message e)
    | inr e ↦ rw e (normalize_seed_text-EndsLine message)
  ]

  -- Each message ends its last line, and is kept or dropped.
  sanitize_from-Kept :
      (messages : List Text) (index : ℕ) (rest : List Text)
      → All EndsLine (sanitize_from policy templates messages index rest).0
        × (length (sanitize_from policy templates messages index rest).0
              + (sanitize_from policy templates messages index rest).1
            ≡ length rest)
  unfolding sanitize_from
  sanitize_from-Kept messages index [] = (tt, (omega arith))
  sanitize_from-Kept messages index (m ∷ rest) =
      let more = sanitize_from-Kept messages (suc index) rest in
      elim (Bool-cases (region_without_start_allowed policy messages index)) [
        | inl e ↦ rw e ((region-EndsLine m, more.0), (omega (arith, more.1)))
        | inr e ↦ elim (Bool-cases (length (sanitize_message templates m) == 0)) [
          | inl d ↦ rw (e, d) (more.0, (omega (arith, more.1)))
          | inr d ↦
              rw (e, d) ((sanitize_message-EndsLine templates m, more.0), (omega (arith, more.1)))
        ]
      ]

-- Of the messages of a candidate `_sanitize_seed_candidate` counts each as kept or dropped; and it
-- returns nothing and counts none as kept, or returns a seed that is empty or ends with "\r\n" and
-- counts one as kept or more.
pub sanitize_seed_candidate_lem :
    (policy : ProtocolMutationPolicy) (templates : Templates) (candidate : Text)
    → ((sanitize_seed_candidate policy templates candidate).1.message_count_after
          + (sanitize_seed_candidate policy templates candidate).1.dropped_messages
        ≡ (sanitize_seed_candidate policy templates candidate).1.message_count_before)
      × ((((sanitize_seed_candidate policy templates candidate).0 ≡ none)
            × ((sanitize_seed_candidate policy templates candidate).1.message_count_after ≡ 0))
          ⊎ ((seed : Text) × (((sanitize_seed_candidate policy templates candidate).0 ≡ some seed)
                × (EndsLine seed
                    × (1
                        ≤ (sanitize_seed_candidate policy templates
                            candidate).1.message_count_after)))))
unfolding sanitize_seed_candidate
sanitize_seed_candidate_lem policy templates candidate =
    let messages = split_by_policy policy (normalize_seed_text candidate) in
    let result = sanitize_from policy templates messages 0 messages in
    let kept = sanitize_from-Kept policy templates messages 0 messages in
    (
      kept.1,
      elim (Bool-cases (length result.0 == 0)) [
        | inl e ↦ inl (ground (arith, e), ground (arith, e))
        | inr e ↦
            inr (
              join result.0,
              (ground (arith, e), (EndsLine-join result.0 kept.0, ground (arith, e))),
            )
      ],
    )
