-- ===== src/Examples/Worker.antt =====
-- The theorems on the mutation worker, applied, and runs of its code.
use s2afl.Prelude.{
  Option, ◌+◌, ◌≤◌, ◌⊎◌, true, false, none, some, List, [], ◌∷◌, ◌≡◌, ◌↔◌, refl, arith, Text, codes,
  map, take, pos,
}
use s2afl.Text.{upper}
use s2afl.Policy.{ftp, smtp, rtsp}
use s2afl.Seed.{split_by_policy, split_crlf_messages}
use s2afl.Worker.Chain.{has_required_prefix_chain, has_required_prefix_chain_iff, Subsequence}
use s2afl.Worker.Bodies.{line_body_region_allowed, content_length_consistent}
use s2afl.Worker.Bodies.Opened.{HasOpened, line_body_region_allowed_iff}
use s2afl.Worker.Bodies.Declared.{HasLength, content_length_consistent_sound}
use s2afl.Worker.Quality.{context_seed_quality, clean_context_prefix, ok}
use s2afl.Worker.Quality.Prefix.{clean_context_prefix-ok}
use s2afl.Worker.Sanitize.{normalize_seed_text, sanitize_seed_candidate, SanitizeMeta}
use s2afl.Worker.Sanitize.Ends.{
  EndsLine, HasLineEnds, normalize_seed_text_lem, sanitize_seed_candidate_lem,
}
use s2afl.Worker.Limits.{SizeHints, oversize_message_lines}
use s2afl.Worker.Limits.Oversize.{Fits, lines_at, oversize_message_lines_sound}
use s2afl.Worker.Validate.{Task, PlanPayload, validate_candidate_seed}
use s2afl.Worker.Validate.Accepted.{IsAccepted, validate_candidate_seed-IsAccepted}

abbrev chain : List Text
chain = codes "USER" ∷ codes "PASS" ∷ []

abbrev login : List Text
login = codes "user" ∷ codes "NOOP" ∷ codes "PASS" ∷ []

has_required_prefix_chain_iff_example :
    (has_required_prefix_chain chain login ≡ true) ↔ Subsequence (map upper chain) (map upper login)
has_required_prefix_chain_iff_example = has_required_prefix_chain_iff chain login

abbrev mail : List Text
mail = codes "DATA\r\n" ∷ codes "hi\r\n" ∷ []

line_body_region_allowed_iff_example :
    (line_body_region_allowed smtp mail 1 ≡ true) ↔ HasOpened smtp (take 1 mail)
unfolding smtp
line_body_region_allowed_iff_example =
    line_body_region_allowed_iff smtp mail 1 (ground arith, ground arith) (omega arith)

abbrev announce : Text
announce = codes "ANNOUNCE a RTSP/1.0\r\nContent-Length: 2\r\n\r\nhi"

content_length_consistent_sound_example : HasLength (announce ∷ []) 0 announce 2
unfolding content_length_consistent
content_length_consistent_sound_example =
    content_length_consistent_sound rtsp (announce ∷ []) 0 announce 2 refl refl refl

abbrev spoilt : Text
spoilt = codes "USER a\r\n***\r\n"

clean_context_prefix-ok_example : context_seed_quality ftp [] (codes "USER a\r\n") ≡ ok 1
unfolding clean_context_prefix ftp split_crlf_messages
clean_context_prefix-ok_example =
    clean_context_prefix-ok ftp [] spoilt (codes "USER a\r\n") refl refl

normalize_seed_text_lem_example :
    EndsLine (normalize_seed_text (codes "a\rb")) × HasLineEnds (normalize_seed_text (codes "a\rb"))
normalize_seed_text_lem_example = normalize_seed_text_lem (codes "a\rb")

abbrev sanitized : Option Text × SanitizeMeta
sanitized = sanitize_seed_candidate ftp [] spoilt

sanitize_seed_candidate_lem_example :
    (sanitized.1.message_count_after + sanitized.1.dropped_messages
      ≡ sanitized.1.message_count_before)
    × (((sanitized.0 ≡ none) × (sanitized.1.message_count_after ≡ 0))
        ⊎ ((seed : Text) × ((sanitized.0 ≡ some seed)
              × (EndsLine seed × (1 ≤ sanitized.1.message_count_after)))))
sanitize_seed_candidate_lem_example = sanitize_seed_candidate_lem ftp [] spoilt

oversize_message_lines_sound_example :
    Fits 3 true (lines_at (codes "abcd\r\n" ∷ []) 0) 0 (codes "abcde")
unfolding oversize_message_lines
oversize_message_lines_sound_example =
    oversize_message_lines_sound (codes "abcde\r\n" ∷ []) 3 (codes "abcd\r\n" ∷ []) 0 0
      (codes "abcde\r\n") 0 (codes "abcde") refl refl refl

abbrev hints : SizeHints
hints = record { code = []; function_name = []; relative_path = []; source_excerpt = [] }

abbrev plan : PlanPayload
plan = record {
  allow_single_message = false;
  preserve_prefix_messages = pos 1;
  max_line_length = 0;
  target_message_index = 1;
  operators = [];
}

abbrev task : Task
task = record {
  policy = ftp;
  templates = [];
  loads = λ s. none;
  plan = plan;
  hints = hints;
  original_seed = some (codes "USER a\r\nPASS b\r\n");
}

abbrev changed_seed : Text
changed_seed = codes "USER a\r\nPASS c\r\n"

validate_candidate_seed-IsAccepted_example :
    IsAccepted task changed_seed (split_by_policy ftp changed_seed)
unfolding validate_candidate_seed ftp split_crlf_messages
validate_candidate_seed-IsAccepted_example =
    validate_candidate_seed-IsAccepted task (some (codes "USER a\nPASS c")) changed_seed refl
