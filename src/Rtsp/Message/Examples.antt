-- ===== src/Rtsp/Message/Examples.antt =====
-- src/rtsp/message.rs: runs of its own tests, and the theorems at concrete buffers.
use buddy3d_proxy.Prelude.{◌+◌, ◌^◌, ◌≤◌, ◌≡◌, ◌↔◌, refl, sym, ◌∙◌, some, [], ◌∷◌, ◌++◌, arith}
use buddy3d_proxy.Prelude.Text.{Text, codes}
use buddy3d_proxy.Rtsp.Message.{
  Request, incomplete, parsed, failed, panicked, options, play, read_head, parse_request, cseq,
  header,
}
use buddy3d_proxy.Rtsp.Message.Parsing.{parse_request-append}
use buddy3d_proxy.Rtsp.Message.Consumed.{IsWithin, parse_request-IsWithin, parse_request_panics}

-- `parses_options_request`
abbrev options_bytes : Text
options_bytes = codes "OPTIONS rtsp://h/cam RTSP/1.0\r\nCSeq: 1\r\nUser-Agent: VLC/3.0.20\r\n\r\n"

abbrev options_request : Request
options_request = record {
  method = options;
  uri = codes "rtsp://h/cam";
  headers = (codes "user-agent", codes "VLC/3.0.20") ∷ (codes "cseq", codes "1") ∷ [];
  body = [];
}

parses_options_request : parse_request options_bytes ≡ parsed options_request 66
unfolding parse_request
parses_options_request = refl

cseq_read :
    (cseq options_request ≡ some 1)
    × (header options_request (codes "User-Agent") ≡ some (codes "VLC/3.0.20"))
unfolding cseq header
cseq_read = (refl, refl)

-- `returns_incomplete_on_partial_input`
partial_input : parse_request (codes "OPTIONS rtsp://h/x RTSP/1.0\r\nCSeq:") ≡ failed incomplete
unfolding parse_request
partial_input = refl

-- `returns_incomplete_when_body_truncated`
body_truncated :
    parse_request (codes "PLAY r RTSP/1.0\r\nCSeq: 4\r\nContent-Length: 10\r\n\r\nabc")
    ≡ failed incomplete
unfolding parse_request
body_truncated = refl

abbrev huge_bytes : Text
huge_bytes = codes "PLAY r RTSP/1.0\r\nContent-Length: 18446744073709551615\r\n\r\n"

abbrev huge_request : Request
huge_request = record {
  method = play;
  uri = codes "r";
  headers = (codes "content-length", codes "18446744073709551615") ∷ [];
  body = [];
}

parse_request-append_example :
    parse_request (options_bytes ++ codes "PLAY") ≡ parse_request options_bytes
parse_request-append_example =
    parse_request-append options_bytes (codes "PLAY")
      (λ e. ground (arith, sym parses_options_request ∙ e))

parse_request-IsWithin_example : IsWithin (parse_request options_bytes) options_bytes
parse_request-IsWithin_example = parse_request-IsWithin options_bytes

parse_request_panics_example :
    (parse_request huge_bytes ≡ panicked) ↔ (2 ^ 64 ≤ 53 + 4 + 18446744073709551615)
unfolding parse_request read_head
parse_request_panics_example =
    parse_request_panics huge_bytes 53 huge_request 18446744073709551615 refl refl (omega arith)
      (omega arith)
