-- ===== src/Worker/Bodies/Declared.antt =====
-- What `_content_length_consistent` promises of each message.
use s2afl.Prelude.{
  ℕ, zero, suc, ◌+◌, true, List, [], ◌∷◌, Text, ◌≡◌, inl, inr, some, Bool-cases, Option-cases,
  arith, length, get_elem?, ◌==◌, ==_iff,
}
use s2afl.Text.{encode}
use s2afl.Policy.{ProtocolMutationPolicy}
use s2afl.Worker.Bodies.{
  declared_length, blob_and_body, body_lengths, among, body_region_matches, message_consistent,
  consistent_from, content_length_consistent,
}

-- The length that a message declares is that of its body, or the message has none and the next one
-- has a length that may be declared.
pub data HasLength (messages : List Text) (index : ℕ) (message : Text) (declared : ℕ) : Type 0 where
  own :
      declared ≡ length (encode (blob_and_body message).1)
      → HasLength messages index message declared
  next :
      length (encode (blob_and_body message).1) ≡ 0
      → (region : Text) → get_elem? messages (suc index) ≡ some region
      → among declared (body_lengths region) ≡ true
      → HasLength messages index message declared

module _ (policy : ProtocolMutationPolicy) (messages : List Text) where
  body_region_matches_sound :
      (index declared : ℕ)
      → body_region_matches policy messages index declared ≡ true
      → (region : Text) × ((get_elem? messages (suc index) ≡ some region)
          × (among declared (body_lengths region) ≡ true))
  unfolding body_region_matches
  body_region_matches_sound index declared h =
      elim (Option-cases (get_elem? messages (suc index))) [
        | inl e ↦ ground (arith, e)
        | inr found ↦ (found.0, (found.1, (ground (arith, found.1))))
      ]

  message_consistent_sound :
      (index : ℕ) (message : Text) (declared : ℕ)
      → message_consistent policy messages index message ≡ true
      → declared_length (blob_and_body message).0 ≡ some (some declared)
      → HasLength messages index message declared
  unfolding message_consistent
  message_consistent_sound index message declared h e =
      let actual = length (encode (blob_and_body message).1) in
      elim (Bool-cases (declared == actual)) [
        | inl same ↦ own ((==_iff declared actual).0 same)
        | inr differs ↦
            let empty : actual ≡ 0 = ground (arith, e, h, differs) in
            let matches : body_region_matches policy messages index declared ≡ true =
              ground (arith, e, h, differs) in
            let found = body_region_matches_sound index declared matches in
            next empty found.0 (found.1).0 (found.1).1
      ]

  consistent_from-at :
      (i index : ℕ) (rest : List Text) (message : Text)
      → consistent_from policy messages index rest ≡ true
      → get_elem? rest i ≡ some message
      → message_consistent policy messages (index + i) message ≡ true
  unfolding consistent_from
  consistent_from-at i index [] message h e = cc
  consistent_from-at zero index (m ∷ rest) message h e = ground (arith, e)
  consistent_from-at (suc i) index (m ∷ rest) message h e =
      let below = consistent_from-at i (suc index) rest message (ground arith) e in
      ground (arith, below)

-- If `_content_length_consistent` holds, each message that declares a length has a body of that
-- length, or an empty one behind which the next message has a length that may be declared.
pub content_length_consistent_sound :
    (policy : ProtocolMutationPolicy) (messages : List Text) (i : ℕ) (message : Text) (declared : ℕ)
    → content_length_consistent policy messages ≡ true
    → get_elem? messages i ≡ some message
    → declared_length (blob_and_body message).0 ≡ some (some declared)
    → HasLength messages i message declared
unfolding content_length_consistent
content_length_consistent_sound policy messages i message declared h at e =
    let below = consistent_from-at policy messages i 0 messages message h at in
    message_consistent_sound policy messages i message declared (ground (arith, below)) e
