-- ===== src/Examples/Runtime.antt =====
-- The theorems on seeds and the mutation executor, applied, and runs of the code.
use s2afl.Prelude.{
  ℕ, ◌≤◌, ◌<◌, true, none, some, [], ◌∷◌, ◌++◌, ◌≡◌, ◌↔◌, refl, arith, In, if◌then◌else◌, length,
  join, get_elem?, Text, codes, starts_with, text_eq, pos, negsuc,
}
use s2afl.Text.{encode, is_blank, find_cut}
use s2afl.Policy.{get_protocol_policy}
use s2afl.Seed.{
  split_crlf_messages, split_request_style_messages, split_method_boundary_messages,
  split_seed_messages,
}
use s2afl.Seed.Lines.{split_crlf_messages-append, split_crlf_messages-whole}
use s2afl.Seed.Requests.{Pieces, split_request_style_messages-Pieces}
use s2afl.Executor.{stretch_value, sequence_repeat_counts}
use s2afl.Executor.Values.{length-stretch_value, IsCounts, sequence_repeat_counts_lem}
use s2afl.Executor.Requests.{header, body, delete_marker, current_request_value, set_request_value}
use s2afl.Executor.Requests.Fields.{same_name, set_request_value-header}
use s2afl.Executor.Lines.{
  parse_line_command_messages, map_line_command_message_index, compose_line_command_seed,
  LineCommandMessage,
}
use s2afl.Executor.Lines.Regions.{
  Regions, parse_line_command_messages-Regions, map_line_command_message_index-bound,
}
use s2afl.Executor.Prefix.{
  filter_success_prefix_candidates, KeepsPrefix, filter_success_prefix_candidates_iff,
}
use s2afl.Examples.Data.{smtp_rules, smtp_session, request, generated}

abbrev user_line : Text
user_line = codes "USER a\r\n"

split_crlf_messages-append_example :
    split_crlf_messages (codes "USER a\r\n" ++ codes "QUIT")
    ≡ (user_line ∷ []) ++ split_crlf_messages (codes "QUIT")
unfolding encode find_cut starts_with
split_crlf_messages-append_example =
    split_crlf_messages-append (user_line ∷ []) (codes "USER a\r\n") (codes "QUIT")
      ((codes "USER a", refl, refl), tt) refl

split_crlf_messages-whole_example :
    (tail : Text) × ((join (split_crlf_messages (codes "USER a\r\n ")) ++ tail
        ≡ encode (codes "USER a\r\n "))
      × (is_blank tail ≡ true))
split_crlf_messages-whole_example = split_crlf_messages-whole (codes "USER a\r\n ")

split_request_style_messages-Pieces_example :
    Pieces
      (encode (codes "PLAY * RTSP/1.0\r\n\r\nPAUSE"))
      (split_request_style_messages (codes "PLAY * RTSP/1.0\r\n\r\nPAUSE"))
split_request_style_messages-Pieces_example =
    split_request_style_messages-Pieces (codes "PLAY * RTSP/1.0\r\n\r\nPAUSE")

length-stretch_value_example : length (stretch_value (codes "ab") (pos 7) (some 5)) ≡ 5
length-stretch_value_example = length-stretch_value (codes "ab") (pos 7) (some 5)

sequence_repeat_counts_lem_example :
    IsCounts (sequence_repeat_counts (some (pos 50) ∷ none ∷ some (negsuc 3) ∷ []))
    × (1 ≤ length (sequence_repeat_counts (some (pos 50) ∷ none ∷ some (negsuc 3) ∷ [])))
    × (length (sequence_repeat_counts (some (pos 50) ∷ none ∷ some (negsuc 3) ∷ [])) ≤ 4)
sequence_repeat_counts_lem_example =
    sequence_repeat_counts_lem (some (pos 50) ∷ none ∷ some (negsuc 3) ∷ [])

set_request_value-header_example :
    current_request_value
      (set_request_value request (header (codes "cseq")) (codes "9"))
      (header (codes "CSEQ"))
    ≡ (if same_name (codes "cseq") (codes "CSEQ")
        then if text_eq (codes "9") delete_marker then [] else codes "9"
        else current_request_value request (header (codes "CSEQ")))
set_request_value-header_example =
    set_request_value-header request (codes "cseq") (codes "CSEQ") (codes "9")

parse_line_command_messages-Regions_example :
    Regions smtp_rules 0 smtp_session (parse_line_command_messages smtp_rules smtp_session)
    × ((i n : ℕ) (m : LineCommandMessage)
        → get_elem? (parse_line_command_messages smtp_rules smtp_session) i ≡ some m
        → m.raw_start ≤ n
        → n < m.raw_end
        → map_line_command_message_index
            (parse_line_command_messages smtp_rules smtp_session)
            (pos n)
          ≡ i)
parse_line_command_messages-Regions_example =
    parse_line_command_messages-Regions smtp_rules smtp_session

map_line_command_message_index-bound_example :
    map_line_command_message_index (parse_line_command_messages smtp_rules smtp_session) (pos 9)
    < length (parse_line_command_messages smtp_rules smtp_session)
unfolding parse_line_command_messages
map_line_command_message_index-bound_example =
    map_line_command_message_index-bound (parse_line_command_messages smtp_rules smtp_session)
      (pos 9) (omega arith)

filter_success_prefix_candidates_iff_example :
    In generated (
      filter_success_prefix_candidates
        (codes "FTP")
        (codes "USER a\r\n")
        (some (pos 1))
        (generated ∷ []))
    ↔ (In generated (generated ∷ []) × KeepsPrefix (codes "FTP") (codes "USER a\r\n") 1 generated)
filter_success_prefix_candidates_iff_example =
    filter_success_prefix_candidates_iff (codes "FTP") (codes "USER a\r\n") (some (pos 1))
      (generated ∷ []) generated

-- With one message to preserve, the seed that is composed of an SMTP session has no body and no end of
-- it: the prefix is one raw message, and the message that is preserved has three.
compose_line_command_seed_run :
    compose_line_command_seed smtp_rules smtp_session
      (parse_line_command_messages smtp_rules smtp_session)
      1
    ≡ codes "DATA\r\nQUIT\r\n"
unfolding compose_line_command_seed parse_line_command_messages
compose_line_command_seed_run = refl

-- A SIP seed of one byte has no message.
one_byte_run : split_seed_messages (codes "SIP") (codes "x") ≡ []
unfolding split_seed_messages encode starts_with get_protocol_policy split_method_boundary_messages
one_byte_run = refl

-- "__DELETE_FIELD__" deletes a header, and becomes the text of a body.
delete_body_run :
    current_request_value (set_request_value request body delete_marker) body ≡ delete_marker
unfolding current_request_value set_request_value
delete_body_run = refl
