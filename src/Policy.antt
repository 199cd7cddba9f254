-- ===== src/Policy.antt =====
-- python/S2AFL/runtime/protocol_policy.py
use s2afl.Prelude.{
  ℕ, String, Bool, true, false, Option, none, some, List, [], ◌∷◌, ◌++◌, map, Text, codes, any,
  text_eq, if◌then◌else◌,
}
use s2afl.Text.{upper, lower, member}
use s2afl.Text.Replace.{contains}

pub data Style : Type 0 where
  request_style : Style
  line_command : Style

pub record ProtocolMutationPolicy : Type 0 where
  pub protocol : Text
  pub default_boundary_lengths : List ℕ
  pub default_vuln_lengths : List ℕ
  pub default_injections : List Text
  pub default_fixups : List Text
  pub message_style : Style
  pub line_body_methods : List Text
  pub line_body_terminator : Text
  pub line_body_end_markers : List Text
  pub max_candidates : ℕ
  pub default_preserve_prefix : Bool
  pub required_prefix_chain : List Text
  pub prefix_optional_methods : List Text
  pub single_message_methods : List Text
  pub parser_function_keywords : List Text
  pub parser_single_message_allowed : Bool
  pub sequence_anchor_methods : List Text
  pub sequence_terminal_methods : List Text
  pub sequence_completion_methods : List Text
  pub content_length_validation : Bool
  pub request_region_start_methods : List Text
  pub boundary_line_length_cap : ℕ
  pub vuln_line_length_cap : ℕ
  pub aflnet_region_rules : List String

texts : List String → List Text
texts names = map codes names

common_injections : List Text
unfolding texts
common_injections = texts ("%n" ∷ "%s" ∷ "%x" ∷ "../" ∷ "..\\" ∷ "\\u0000" ∷ ";" ∷ " " ∷ "\t" ∷ [])

boundary_lengths : List ℕ
boundary_lengths = 0 ∷ 1 ∷ 2 ∷ 3 ∷ 7 ∷ 15 ∷ 31 ∷ 63 ∷ 64 ∷ 65 ∷ 127 ∷ 128 ∷ []

vuln_lengths : List ℕ
vuln_lengths = 32 ∷ 64 ∷ 128 ∷ 256 ∷ 512 ∷ 1024 ∷ 2048 ∷ 4096 ∷ 8192 ∷ []

-- The defaults of the dataclass, with the arguments that every policy is given.
defaults : Text → List Text → List Text → ℕ → List Text → List String → ProtocolMutationPolicy
unfolding texts common_injections boundary_lengths vuln_lengths
defaults protocol injections fixups max_candidates single_message_methods rules = record {
  protocol = protocol;
  default_boundary_lengths = boundary_lengths;
  default_vuln_lengths = vuln_lengths;
  default_injections = injections;
  default_fixups = fixups;
  message_style = request_style;
  line_body_methods = [];
  line_body_terminator = codes "\r\n.\r\n";
  line_body_end_markers = texts ("." ∷ []);
  max_candidates = max_candidates;
  default_preserve_prefix = true;
  required_prefix_chain = [];
  prefix_optional_methods = [];
  single_message_methods = single_message_methods;
  parser_function_keywords = texts ("parse" ∷ "parser" ∷ "lex" ∷ []);
  parser_single_message_allowed = true;
  sequence_anchor_methods = [];
  sequence_terminal_methods = [];
  sequence_completion_methods = [];
  content_length_validation = false;
  request_region_start_methods = [];
  boundary_line_length_cap = 4096;
  vuln_line_length_cap = 16384;
  aflnet_region_rules = rules;
}

unfoldable pub ftp : ProtocolMutationPolicy
unfolding defaults
ftp =
    record (defaults (codes "FTP") common_injections [] 8
      (texts ("USER" ∷ "PASS" ∷ "QUIT" ∷ "SYST" ∷ "NOOP" ∷ "HELP" ∷ []))
      ("One region ends at each \r\n." ∷ [])) {
        message_style = line_command;
        required_prefix_chain = texts ("USER" ∷ "PASS" ∷ []);
        prefix_optional_methods = texts ("USER" ∷ "PASS" ∷ "QUIT" ∷ "SYST" ∷ "NOOP" ∷ []);
      }

unfoldable pub smtp : ProtocolMutationPolicy
unfolding defaults
smtp =
    record (defaults (codes "SMTP") common_injections (texts ("content_length" ∷ [])) 8
      (texts ("HELO" ∷ "EHLO" ∷ "NOOP" ∷ "QUIT" ∷ "RSET" ∷ []))
      ("One region ends at each \r\n."
        ∷ "DATA body lines and the final . line are separate AFLNet regions." ∷ [])) {
          message_style = line_command;
          line_body_methods = texts ("DATA" ∷ "BDAT" ∷ []);
          content_length_validation = true;
        }

unfoldable pub rtsp : ProtocolMutationPolicy
unfolding defaults
rtsp =
    record (defaults (codes "RTSP") common_injections
      (texts ("content_length" ∷ "cseq" ∷ "session" ∷ [])) 8 (texts ("OPTIONS" ∷ "DESCRIBE" ∷ []))
      ("One region ends at \r\n\r\n."
        ∷ "AFLNet does not use Content-Length to keep a body in the same region." ∷ [])) {
          sequence_anchor_methods = texts ("OPTIONS" ∷ "DESCRIBE" ∷ "SETUP" ∷ []);
          sequence_terminal_methods = texts ("TEARDOWN" ∷ []);
          sequence_completion_methods = texts ("RECORD" ∷ "PLAY" ∷ []);
          content_length_validation = true;
        }

-- The entries "HTTP", "DAAP", "HTTP/1.1" and "DAAP-HTTP" differ in their name only.
unfoldable pub http_like : String → ProtocolMutationPolicy
unfolding defaults
http_like name =
    record (defaults (codes name) common_injections (texts ("content_length" ∷ [])) 8
      (texts ("GET" ∷ "HEAD" ∷ "OPTIONS" ∷ []))
      ("One region ends at \\r\\n\\r\\n."
        ∷ "AFLNet does not use Content-Length to keep a body in the same region." ∷ [])) {
          content_length_validation = true;
        }

unfoldable pub sip_methods : List Text
unfolding texts
sip_methods = texts (
    "REGISTER" ∷ "INVITE" ∷ "ACK" ∷ "BYE" ∷ "CANCEL" ∷ "OPTIONS" ∷ "MESSAGE" ∷ "SUBSCRIBE"
    ∷ "NOTIFY" ∷ "REFER" ∷ "INFO" ∷ "PRACK" ∷ "UPDATE" ∷ "PUBLISH" ∷ [])

unfoldable pub sip : ProtocolMutationPolicy
unfolding defaults sip_methods
sip =
    record (defaults (codes "SIP") (common_injections ++ codes "z9hG4bK" ∷ [])
      (texts ("content_length" ∷ "cseq" ∷ [])) 8 (texts ("REGISTER" ∷ "OPTIONS" ∷ []))
      ("A new region starts only when the next bytes after CRLF are a SIP request method." ∷ [])) {
        default_boundary_lengths = 0 ∷ 1 ∷ 2 ∷ 3 ∷ 7 ∷ 15 ∷ 31 ∷ 63 ∷ 64 ∷ 65 ∷ 95 ∷ 127 ∷ [];
        parser_single_message_allowed = false;
        content_length_validation = true;
        request_region_start_methods = sip_methods;
        boundary_line_length_cap = 4096;
        vuln_line_length_cap = 8192;
      }

-- _POLICIES
unfoldable pub policies : List (Text × ProtocolMutationPolicy)
unfolding ftp smtp rtsp http_like sip
policies =
    (codes "FTP", ftp)
    ∷ (codes "SMTP", smtp)
    ∷ (codes "RTSP", rtsp)
    ∷ (codes "HTTP", http_like "HTTP")
    ∷ (codes "DAAP", http_like "DAAP")
    ∷ (codes "HTTP/1.1", http_like "HTTP/1.1")
    ∷ (codes "DAAP-HTTP", http_like "DAAP-HTTP")
    ∷ (codes "SIP", sip)
    ∷ []

unfoldable pub policy_of :
    Text → List (Text × ProtocolMutationPolicy) → Option ProtocolMutationPolicy
unfolding text_eq
policy_of proto [] = none
policy_of proto ((name, p) ∷ rest) = if text_eq name proto then some p else policy_of proto rest

-- The default of `_POLICIES.get`; `proto or "UNKNOWN"`.
unknown_policy : Text → ProtocolMutationPolicy
unfolding defaults
unknown_policy [] =
    defaults (codes "UNKNOWN") common_injections (texts ("content_length" ∷ [])) 6 []
      ("Preserve the existing AFLNet region boundaries for this protocol." ∷ [])
unknown_policy (c ∷ s) =
    defaults (c ∷ s) common_injections (texts ("content_length" ∷ [])) 6 []
      ("Preserve the existing AFLNet region boundaries for this protocol." ∷ [])

unfoldable pub get_protocol_policy : Text → ProtocolMutationPolicy
unfolding policy_of policies unknown_policy upper
get_protocol_policy protocol = elim (policy_of (upper protocol) policies) [
  | some p ↦ p
  | none ↦ unknown_policy (upper protocol)
]

unfoldable pub function_allows_single_message : ProtocolMutationPolicy → Text → Text → Bool
unfolding contains lower upper member
function_allows_single_message policy function_name method =
    if member (upper method) policy.single_message_methods
    then true
    else if any (contains (lower function_name)) policy.parser_function_keywords
    then policy.parser_single_message_allowed
    else false
