-- ===== src/Worker/Sanitize.antt =====
-- `_normalize_seed_text`, `_sanitize_message` and `_sanitize_seed_candidate`.
pub mod Ends
use s2afl.Prelude.{
  ℕ, zero, suc, ◌+◌, Bool, true, false, not, ◌&&◌, ◌||◌, Option, none, some, List, [], ◌∷◌, ◌++◌,
  Text, ◌==◌, if◌then◌else◌, length, join, all,
}
use s2afl.Text.{crlf, crlf_crlf, is_space, lstrip, rstrip, ends_with}
use s2afl.Text.Replace.{replace, split, join_with, unix_lines}
use s2afl.Policy.{ProtocolMutationPolicy}
use s2afl.Seed.{split_by_policy}
use s2afl.Knowledge.{Templates}
use s2afl.Worker.Clean.{message_start_candidate}
use s2afl.Worker.Bodies.{region_without_start_allowed}

abbrev is_blank_char : ℕ → Bool
is_blank_char c = c == 32 || c == 9

-- if normalized and not normalized.endswith("\r\n"): normalized += "\r\n"
end_line : Text → Text
unfolding ends_with
end_line [] = []
end_line (c ∷ s) = if ends_with (c ∷ s) crlf then c ∷ s else (c ∷ s) ++ crlf

-- _normalize_seed_text
unfoldable pub normalize_seed_text : Text → Text
unfolding end_line replace lstrip rstrip unix_lines
normalize_seed_text candidate =
    let bare = lstrip (λ c. c == 10) (unix_lines candidate) in
    end_line (replace (10 ∷ []) crlf (rstrip is_blank_char (lstrip is_blank_char bare)))

abbrev is_line_char : ℕ → Bool
is_line_char c = c == 13 || c == 10

-- What is kept from the line that starts the message.
keep_from : Text → Text → List Text → Text
unfolding lstrip rstrip join_with ends_with
keep_from raw start_line rest =
    let cleaned = rstrip is_line_char (lstrip is_line_char (join_with crlf (start_line ∷ rest))) in
    if length cleaned == 0
    then []
    else if ends_with raw crlf_crlf
    then cleaned ++ crlf_crlf
    else cleaned ++ crlf

sanitize_lines : Templates → Text → List Text → Text
unfolding message_start_candidate keep_from
sanitize_lines templates raw [] = []
sanitize_lines templates raw (line ∷ rest) =
    let start_line = message_start_candidate templates line in
    let later = sanitize_lines templates raw rest in
    if length start_line == 0 then later else keep_from raw start_line rest

-- _sanitize_message
unfoldable pub sanitize_message : Templates → Text → Text
unfolding sanitize_lines split unix_lines is_space
sanitize_message templates raw =
    if all is_space raw then [] else sanitize_lines templates raw (split (10 ∷ []) (unix_lines raw))

-- The loop from `index` on: the messages kept, in order, and how many were dropped.
sanitize_from : ProtocolMutationPolicy → Templates → List Text → ℕ → List Text → List Text × ℕ
unfolding region_without_start_allowed normalize_seed_text sanitize_message ends_with
sanitize_from policy templates messages index [] = ([], 0)
sanitize_from policy templates messages index (message ∷ rest) =
    let more = sanitize_from policy templates messages (suc index) rest in
    let cleaned = sanitize_message templates message in
    if region_without_start_allowed policy messages index
    then (
      (if ends_with message crlf then message else normalize_seed_text message) ∷ more.0,
      more.1,
    )
    else if length cleaned == 0
    then (more.0, suc more.1)
    else (cleaned ∷ more.0, more.1)

pub record SanitizeMeta : Type 0 where
  pub message_count_before : ℕ
  pub message_count_after : ℕ
  pub dropped_messages : ℕ

-- _sanitize_seed_candidate; `_render_messages` is `join`.
unfoldable pub sanitize_seed_candidate :
    ProtocolMutationPolicy → Templates → Text → Option Text × SanitizeMeta
unfolding sanitize_from normalize_seed_text split_by_policy
sanitize_seed_candidate policy templates candidate =
    let messages = split_by_policy policy (normalize_seed_text candidate) in
    let kept = sanitize_from policy templates messages 0 messages in
    (
      if length messages == 0 || length kept.0 == 0 then none else some (join kept.0),
      record {
        message_count_before = length messages;
        message_count_after = length kept.0;
        dropped_messages = kept.1;
      },
    )
