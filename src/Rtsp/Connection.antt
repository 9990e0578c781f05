-- ===== src/Rtsp/Connection.antt =====
-- src/rtsp/server.rs, `handle_connection`: what one connection does with the bytes that it reads.
-- Whether a write to the client succeeds is given by all that has been written with it. `subscribe`
-- is called once at most in a connection's life, so its
-- answer is one parameter: the parameters of the stream, or `none` for an error.
pub mod Chunks
pub mod Subscribed
pub mod Reads
mod Examples
use mathlib.Core.Option as Option
use buddy3d_proxy.Prelude.{
  ℕ, zero, suc, ◌+◌, ◌&&◌, if◌then◌else◌, Bool, true, false, Option, none, some, List, [], ◌∷◌,
  ◌++◌, length, drop,
}
use buddy3d_proxy.Prelude.Text.{Text, codes}
use buddy3d_proxy.Prelude.Decimal.{to_text}
use buddy3d_proxy.Rtsp.Params.{H264Params}
use buddy3d_proxy.Rtsp.Message.{
  Method, options, describe, setup, play, teardown, get_parameter, unsupported, Request, Response,
  format, ParseError, incomplete, bad_request_line, bad_header_line, utf8, bad_content_length,
  ParseResult, parsed, failed, panicked, parse_request,
}
use buddy3d_proxy.Rtsp.Session.{
  SessionAction, no_action, start_streaming, stop, SessionContext, Session, handle,
}
use buddy3d_proxy.Rtsp.Session

-- Where the task of the connection is: in the loop that reads, in `forward_rtp` on a channel,
-- returned with `Ok`, returned with an error of its own, returned with an error of the socket, or
-- panicked.
pub data Flow : Type 0 where
  reading : Flow
  streaming : ℕ → Flow
  ended : Flow
  aborted : Flow
  disconnected : Flow
  crashed : Flow

pub record Source : Type 0 where
  pub camera_name : Text
  pub rtsp_path : Text
  pub session_id : Text
  pub subscribe : Option H264Params
  pub takes : Text → Bool

pub record Connection : Type 0 where
  pub session : Session
  pub subscription : Option H264Params
  pub subscribes : ℕ
  pub written : Text
  pub flow : Flow

-- `format!("BUDDY3D-{}", …)`
unfoldable pub session_name : ℕ → Text
unfolding to_text
session_name n = codes "BUDDY3D-" ++ to_text n

unfoldable pub new : Connection
new = record {
  session = Session.new;
  subscription = none;
  subscribes = 0;
  written = [];
  flow = reading;
}

unfoldable pub needs_subscription : Method → Bool
needs_subscription describe = true
needs_subscription setup = true
needs_subscription play = true
needs_subscription _ = false

abbrev pub default_params : H264Params
default_params = record {
  profile_level_id = codes "42c01e";
  sprop_parameter_sets = [];
  packetization_mode = 1;
  payload_type = 96;
}

abbrev pub is_none : Option H264Params → Bool
is_none none = true
is_none (some p) = false

unfoldable pub start_forwarding : Connection → Option H264Params → ℕ → Connection
start_forwarding c none channel = record c { flow = aborted }
start_forwarding c (some p) channel = record c { flow = streaming channel }

unfoldable pub act : Connection → SessionAction → Connection
unfolding start_forwarding
act c no_action = c
act c (start_streaming channel) = start_forwarding c c.subscription channel
act c stop = record c { flow = ended }

-- The session's action, if the response could be written.
abbrev pub act_if : Bool → Connection → SessionAction → Connection
act_if true c chosen = act c chosen
act_if false c chosen = record c { flow = disconnected }

-- The answer to a request, once the subscription is there if it is wanted.
unfoldable pub answer : Source → Connection → Request → Connection
unfolding handle format act
answer source c request =
    let ctx : SessionContext = record {
      camera_name = source.camera_name;
      h264_params = Option.get_or c.subscription default_params;
      expected_path = source.rtsp_path;
      new_session_id = source.session_id;
    } in
    let (session, response, action) = handle c.session request ctx in
    let written : Text = c.written ++ format response in
    act_if (source.takes written) (record c { session = session; written = written }) action

unfoldable pub answer_subscribed : Source → Connection → Request → Option H264Params → Connection
unfolding answer
answer_subscribed source c request none = record c { subscribes = c.subscribes + 1; flow = aborted }
answer_subscribed source c request (some p) =
    answer source (record c { subscription = some p; subscribes = c.subscribes + 1 }) request

unfoldable pub serve_request : Source → Connection → Request → Connection
unfolding answer_subscribed needs_subscription
serve_request source c request =
    if is_none c.subscription && needs_subscription request.method
    then answer_subscribed source c request source.subscribe
    else answer source c request

abbrev pub proceed :
    Connection → Flow → Text → (Text → Connection → Text × Connection) → Text × Connection
proceed c reading rest further = further rest c
proceed c _ rest further = ([], c)

-- A buffer that the function returns with is gone.
abbrev pub on_failure : ParseError → Text → Connection → Text × Connection
on_failure incomplete buf c = (buf, c)
on_failure _ buf c = ([], record c { flow = ended })

-- One round of the inner loop, `further` what comes behind it.
unfoldable pub consume :
    Source
    → Text
    → Connection
    → ParseResult
    → (Text → Connection → Text × Connection)
    → Text × Connection
unfolding serve_request
consume source buf c (failed e) further = on_failure e buf c
consume source buf c panicked further = ([], record c { flow = crashed })
consume source buf c (parsed request consumed) further =
    let c' = serve_request source c request in proceed c' c'.flow (drop consumed buf) further

-- The inner loop, on fuel: requests off the front of the buffer until one is incomplete.
unfoldable pub drain : Source → ℕ → Text → Connection → Text × Connection
unfolding parse_request consume
drain source zero buf c = (buf, c)
drain source (suc fuel) buf c = consume source buf c (parse_request buf) (drain source fuel)

-- A read that gives bytes; a byte of fuel and one more is enough, since a request takes four.
abbrev pub extended : Source → Text → Connection → Flow → Text × Connection
extended source buf c reading = drain source (suc (length buf)) buf c
extended source buf c flow = ([], c)

abbrev pub extended_end : Connection → Flow → Text × Connection
extended_end c reading = ([], record c { flow = ended })
extended_end c flow = ([], c)

-- The outer loop: a read of no bytes is the end of the stream. Nothing is read behind the loop.
unfoldable pub receive : Source → Text × Connection → Text → Text × Connection
unfolding drain
receive source (buf, c) [] = extended_end c c.flow
receive source (buf, c) (b ∷ bytes) = extended source (buf ++ (b ∷ bytes)) c c.flow

unfoldable pub receive_all : Source → Text × Connection → List Text → Text × Connection
unfolding receive
receive_all source s [] = s
receive_all source s (bytes ∷ more) = receive_all source (receive source s bytes) more

-- A read of the socket: its bytes, or `none` when it fails, which ends the task.
abbrev pub disconnect : Flow → Text × Connection → Text × Connection
disconnect reading (buf, c) = ([], record c { flow = disconnected })
disconnect flow s = s

unfoldable pub receive_read : Source → Text × Connection → Option Text → Text × Connection
unfolding receive
receive_read source s none = disconnect s.1.flow s
receive_read source s (some bytes) = receive source s bytes

unfoldable pub receive_reads : Source → Text × Connection → List (Option Text) → Text × Connection
unfolding receive_read
receive_reads source s [] = s
receive_reads source s (r ∷ more) = receive_reads source (receive_read source s r) more
