-- ===== src/Seed/Tests.antt =====
-- Runs of the splitters on small seeds.
use s2afl.Prelude.{[], ◌∷◌, codes, ◌≡◌, refl}
use s2afl.Policy.{get_protocol_policy}
use s2afl.Seed.{
  request_content_length, split_crlf_messages, split_request_style_messages, split_seed_messages,
  split_method_boundary_messages, message_method,
}

crlf_run :
    split_crlf_messages (codes "USER a\r\nPASS b\r\n  ")
    ≡ codes "USER a\r\n" ∷ codes "PASS b\r\n" ∷ []
unfolding split_crlf_messages
crlf_run = refl

length_run : request_content_length (codes "POST / X\r\ncontent-LENGTH: \t12\r\nA: b") ≡ 12
unfolding request_content_length
length_run = refl

request_run :
    split_request_style_messages (codes "A\r\nContent-Length: 2\r\n\r\nxyB\r\n\r\n")
    ≡ codes "A\r\nContent-Length: 2\r\n\r\nxy" ∷ codes "B\r\n\r\n" ∷ []
unfolding split_request_style_messages request_content_length
request_run = refl

sip_run :
    split_seed_messages (codes "sip") (codes "INVITE a\r\nX\r\nACK b\r\n")
    ≡ codes "INVITE a\r\nX\r\n" ∷ codes "ACK b\r\n" ∷ []
unfolding split_seed_messages get_protocol_policy split_method_boundary_messages
sip_run = refl

method_run : message_method (codes "\t\nx") ≡ []
unfolding message_method
method_run = refl
