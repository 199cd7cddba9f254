-- ===== src/Executor/Requests/Fields.antt =====
-- `_set_request_value` and `_current_request_value` on headers.
use s2afl.Prelude.{
  Bool, true, false, List, [], ◌∷◌, ◌++◌, Text, text_eq, text_eq_sound, ◌≡◌, refl, sym, ap, ◌∙◌,
  arith, if◌then◌else◌, Bool-cases, inl, inr,
}
use s2afl.Text.{lower}
use s2afl.Executor.Requests.{
  RequestMessage, header, find_header, replace_header, delete_header, has_header, delete_marker,
  set_header, current_request_value, set_request_value,
}

abbrev pub same_name : Text → Text → Bool
same_name a b = text_eq (lower a) (lower b)

same_name-left : (a b c : Text) → same_name a b ≡ true → same_name a c ≡ same_name b c
same_name-left a b c h =
    ap (λ (t : Text). text_eq t (lower c)) (text_eq_sound (lower a) (lower b) h)

find-replace_hit :
    (name other value : Text) (headers : List (Text × Text))
    → same_name name other ≡ true
    → has_header name headers ≡ true
    → find_header other (replace_header name value headers) ≡ value
unfolding find_header replace_header has_header
find-replace_hit name other value [] h k = cc
find-replace_hit name other value ((n, v) ∷ headers) h k = elim (Bool-cases (same_name n name)) [
  | inl e ↦ let hit = same_name-left n name other e ∙ h in rw (e, hit) refl
  | inr e ↦
      let miss : same_name n other ≡ false =
        sym (ap (λ (t : Text). text_eq (lower n) t) (text_eq_sound (lower name) (lower other) h))
        ∙ e in
      rw (e, miss) (find-replace_hit name other value headers h (ground (arith, e, k)))
]

find-replace_miss :
    (name other value : Text) (headers : List (Text × Text))
    → same_name name other ≡ false
    → find_header other (replace_header name value headers) ≡ find_header other headers
unfolding find_header replace_header
find-replace_miss name other value [] h = refl
find-replace_miss name other value ((n, v) ∷ headers) h = elim (Bool-cases (same_name n name)) [
  | inl e ↦
      let miss = same_name-left n name other e ∙ h in
      rw (e, miss) (find-replace_miss name other value headers h)
  | inr e ↦ rw e (
      ap (λ (t : Text). if same_name n other then v else t)
        (find-replace_miss name other value headers h))
]

find-delete :
    (name other : Text) (headers : List (Text × Text))
    → find_header other (delete_header name headers)
      ≡ (if same_name name other then [] else find_header other headers)
unfolding find_header delete_header
find-delete name other [] = ground arith
find-delete name other ((n, v) ∷ headers) = elim (Bool-cases (same_name n name)) [
  | inl e ↦
      let same = same_name-left n name other e in
      rw (e, same) (ground (arith, find-delete name other headers))
  | inr e ↦ elim (Bool-cases (same_name name other)) [
    | inl h ↦
        let miss : same_name n other ≡ false =
          sym (ap (λ (t : Text). text_eq (lower n) t) (text_eq_sound (lower name) (lower other) h))
          ∙ e in
        let rest = find-delete name other headers in ground (arith, e, h, miss, rest)
    | inr h ↦ let rest = find-delete name other headers in ground (arith, e, h, rest)
  ]
]

find-append :
    (name other value : Text) (headers : List (Text × Text))
    → has_header name headers ≡ false
    → find_header other (headers ++ (name, value) ∷ [])
      ≡ (if same_name name other then value else find_header other headers)
unfolding find_header has_header
find-append name other value [] h = refl
find-append name other value ((n, v) ∷ headers) h = elim (Bool-cases (same_name name other)) [
  | inl k ↦
      let miss : same_name n other ≡ false =
        sym (ap (λ (t : Text). text_eq (lower n) t) (text_eq_sound (lower name) (lower other) k))
        ∙ ground (arith, h) in
      let rest = find-append name other value headers (ground (arith, h)) in
      ground (arith, k, miss, rest)
  | inr k ↦
      let rest = find-append name other value headers (ground (arith, h)) in ground (arith, k, rest)
]

-- A header that `_set_request_value` sets, read back by `_current_request_value`, has the value in
-- any case of its name, or none under "__DELETE_FIELD__", and every other header keeps its value.
pub set_request_value-header :
    (m : RequestMessage) (name other value : Text)
    → current_request_value (set_request_value m (header name) value) (header other) ≡ (
        if same_name name other
        then if text_eq value delete_marker then [] else value
        else current_request_value m (header other))
unfolding current_request_value set_request_value set_header
set_request_value-header m name other value = elim (Bool-cases (text_eq value delete_marker)) [
  | inl e ↦ rw e (find-delete name other m.headers)
  | inr e ↦ elim (Bool-cases (has_header name m.headers)) [
    | inl f ↦ elim (Bool-cases (same_name name other)) [
      | inl h ↦ rw (e, f, h) (find-replace_hit name other value m.headers h f)
      | inr h ↦ rw (e, f, h) (find-replace_miss name other value m.headers h)
    ]
    | inr f ↦ rw (e, f) (find-append name other value m.headers f)
  ]
]
