-- ===== src/Rtsp/Message.antt =====
-- src/rtsp/message.rs: requests and responses on the wire. A text is its bytes. A header map is a
-- list of pairs of which the first with a name counts; an insertion goes to the front. A `usize` has
-- 64 bits and its addition wraps, as in a release build.
pub mod Parsing
pub mod Consumed
mod Examples
use mathlib.Core.Option as Option
use buddy3d_proxy.Prelude.{
  ℕ, zero, suc, ◌+◌, ◌-◌, ◌%◌, ◌^◌, ltb, if◌then◌else◌, Bool, true, false, Option, none, some, List,
  [], ◌∷◌, ◌++◌, length, take, drop,
}
use buddy3d_proxy.Prelude.Text.{
  Text, codes, same_text, find_subslice, split_crlf, split_once, splitn, trim, to_ascii_lowercase,
  is_empty,
}
use buddy3d_proxy.Prelude.Decimal.{parse_unsigned, to_text}
use buddy3d_proxy.Prelude.Utf8.{is_utf8}

pub data Method : Type 0 where
  options describe setup play teardown get_parameter unsupported : Method

unfoldable pub as_str : Method → Text
as_str options = codes "OPTIONS"
as_str describe = codes "DESCRIBE"
as_str setup = codes "SETUP"
as_str play = codes "PLAY"
as_str teardown = codes "TEARDOWN"
as_str get_parameter = codes "GET_PARAMETER"
as_str unsupported = codes "UNKNOWN"

-- `Method::parse`
unfoldable pub parse_method : Text → Method
unfolding same_text
parse_method s =
    if same_text s (codes "OPTIONS")
    then options
    else if same_text s (codes "DESCRIBE")
    then describe
    else if same_text s (codes "SETUP")
    then setup
    else if same_text s (codes "PLAY")
    then play
    else if same_text s (codes "TEARDOWN")
    then teardown
    else if same_text s (codes "GET_PARAMETER")
    then get_parameter
    else unsupported

abbrev pub Headers : Type 0
Headers = List (Text × Text)

unfoldable pub get_header : Text → Headers → Option Text
unfolding same_text
get_header name [] = none
get_header name ((n, v) ∷ rest) =
    let further = get_header name rest in if same_text n name then some v else further

pub record Request : Type 0 where
  pub method : Method
  pub uri : Text
  pub headers : Headers
  pub body : Text

abbrev pub and_then {ℓ ℓ'} : {A : Type ℓ} {B : Type ℓ'} → Option A → (A → Option B) → Option B
and_then none f = none
and_then (some a) f = f a

unfoldable pub cseq : Request → Option ℕ
unfolding get_header parse_unsigned trim
cseq r = and_then (get_header (codes "cseq") r.headers) (λ s. parse_unsigned (2 ^ 32 - 1) (trim s))

unfoldable pub header : Request → Text → Option Text
unfolding get_header to_ascii_lowercase
header r name = get_header (to_ascii_lowercase name) r.headers

pub data ParseError : Type 0 where
  incomplete : ParseError
  bad_request_line : Text → ParseError
  bad_header_line : Text → ParseError
  utf8 : ParseError
  bad_content_length : Text → ParseError

-- `panicked` is a slice whose end is before its start.
pub data ParseResult : Type 0 where
  parsed : Request → ℕ → ParseResult
  failed : ParseError → ParseResult
  panicked : ParseResult

-- What the header says: the request without its body, and the length of the body.
pub data Head : Type 0 where
  head : Request → ℕ → Head
  rejected : ParseError → Head

-- One header line behind the others.
abbrev add_line : Headers → Text → Option (Text × Text) → (Headers → Head) → Head
add_line headers line none further = rejected (bad_header_line line)
add_line headers line (some (name, value)) further =
    further ((to_ascii_lowercase (trim name), trim value) ∷ headers)

unfoldable pub read_headers : Headers → List Text → (Headers → Head) → Head
unfolding split_once trim to_ascii_lowercase
read_headers headers [] finish = finish headers
read_headers headers (line ∷ lines) finish = elim (is_empty line) [
  | true ↦ read_headers headers lines finish
  | false ↦ add_line headers line (split_once b':' line) (λ more. read_headers more lines finish)
]

abbrev with_length : Request → Text → Option ℕ → Head
with_length r s none = rejected (bad_content_length s)
with_length r s (some n) = head r n

abbrev body_length : Request → Option Text → Head
body_length r none = head r 0
body_length r (some s) = with_length r s (parse_unsigned (2 ^ 64 - 1) s)

-- METHOD URI VERSION
abbrev request_line : Text → List Text → List Text → Head
request_line line (method ∷ uri ∷ version ∷ rest) lines = read_headers [] lines (λ headers.
    body_length (record { method = parse_method method; uri = uri; headers = headers; body = [] })
      (get_header (codes "content-length") headers))
request_line line _ lines = rejected (bad_request_line line)

abbrev read_lines : Text → List Text → Head
read_lines text [] = rejected (bad_request_line text)
read_lines text (line ∷ lines) = request_line line (splitn 3 b' ' line) lines

unfoldable pub read_head : Text → Head
unfolding read_headers get_header parse_method splitn parse_unsigned is_utf8 split_crlf
read_head text = if is_utf8 text then read_lines text (split_crlf false text) else rejected utf8

-- The body, of the length that the header gives.
unfoldable pub read_body : Head → ℕ → Text → ParseResult
read_body (rejected e) header_end buf = failed e
read_body (head r body_len) header_end buf =
    let end = (header_end + body_len) % 2 ^ 64 in
    if ltb (length buf) end
    then failed incomplete
    else if ltb end header_end
    then panicked
    else parsed (record r { body = take (end - header_end) (drop header_end buf) }) end

unfoldable pub behind_head : Option ℕ → Text → ParseResult
unfolding read_body read_head
behind_head none buf = failed incomplete
behind_head (some idx) buf = read_body (read_head (take idx buf)) (idx + 4) buf

-- `b"\r\n\r\n"`
abbrev pub blank_line : Text
blank_line = b'\r' ∷ b'\n' ∷ b'\r' ∷ b'\n' ∷ []

unfoldable pub parse_request : Text → ParseResult
unfolding behind_head find_subslice
parse_request buf = behind_head (find_subslice buf blank_line) buf

pub record Response : Type 0 where
  pub status : ℕ
  pub reason : Text
  pub cseq : ℕ
  pub headers : Headers
  pub body : Option Text

unfoldable pub ok : ℕ → Response
ok cseq = record { status = 200; reason = codes "OK"; cseq = cseq; headers = []; body = none }

unfoldable pub error : ℕ → Text → ℕ → Response
error status reason cseq = record {
  status = status;
  reason = reason;
  cseq = cseq;
  headers = [];
  body = none;
}

unfoldable pub with_header : Response → Text → Text → Response
with_header r name value = record r { headers = r.headers ++ ((name, value) ∷ []) }

unfoldable pub with_body : Response → Text → Text → Response
with_body r content_type body = record r {
  headers = r.headers ++ ((codes "Content-Type", content_type) ∷ []);
  body = some body;
}

abbrev pub crlf : Text
crlf = b'\r' ∷ b'\n' ∷ []

abbrev length_line : Option Text → Text
length_line none = []
length_line (some body) = codes "Content-Length: " ++ (to_text (length body) ++ crlf)

unfoldable pub header_lines : Headers → Text
header_lines [] = []
header_lines ((name, value) ∷ rest) = name ++ (codes ": " ++ (value ++ (crlf ++ header_lines rest)))

unfoldable pub format : Response → Text
unfolding header_lines to_text
format r =
    codes "RTSP/1.0 "
    ++ (to_text r.status
        ++ (codes " "
            ++ (r.reason
                ++ (crlf
                    ++ (codes "CSeq: "
                        ++ (to_text r.cseq
                            ++ (crlf
                                ++ (length_line r.body
                                    ++ (header_lines r.headers
                                        ++ (crlf ++ Option.get_or r.body []))))))))))
