-- ===== src/Rtsp/Connection/Reads.antt =====
-- src/rtsp/server.rs: the subscription over all the reads of a connection.
use buddy3d_proxy.Prelude.{
  ℕ, zero, suc, ◌≡◌, inl, refl, Option, none, some, List, [], ◌∷◌, ◌++◌, length, drop,
}
use buddy3d_proxy.Prelude.Text.{Text}
use buddy3d_proxy.Rtsp.Params.{H264Params}
use buddy3d_proxy.Rtsp.Message.{
  incomplete, bad_request_line, bad_header_line, utf8, bad_content_length, ParseResult, parsed,
  failed, panicked, parse_request,
}
use buddy3d_proxy.Rtsp.Session.{
  State, playing, SessionAction, no_action, start_streaming, stop, SessionContext, Session,
  handle_method, handle, uri_matches, is_options,
}
use buddy3d_proxy.Rtsp.Session
use buddy3d_proxy.Rtsp.Connection.{
  Flow, reading, streaming, ended, aborted, disconnected, crashed, Source, Connection, new,
  serve_request, proceed, consume, drain, extended, extended_end, receive, disconnect, receive_read,
  receive_reads,
}
use buddy3d_proxy.Rtsp.Connection.Subscribed.{IsServed, serve_request-IsServed}

proceed-IsServed :
    (p : H264Params) (c : Connection) (flow : Flow) (rest : Text)
    (further : Text → Connection → Text × Connection)
    → c.flow ≡ flow
    → IsServed p c
    → (c.flow ≡ reading → IsServed p (further rest c).1)
    → IsServed p (proceed c flow rest further).1
proceed-IsServed p c reading rest further e v h = h e
proceed-IsServed p c (streaming channel) rest further e v h = v
proceed-IsServed p c ended rest further e v h = v
proceed-IsServed p c aborted rest further e v h = v
proceed-IsServed p c disconnected rest further e v h = v
proceed-IsServed p c crashed rest further e v h = v

over : (p : H264Params) (c : Connection) → IsServed p c → IsServed p (record c { flow = ended })
over p c v = record { subscribed = v.subscribed; flowing = tt; ready = v.ready }

consume-IsServed :
    (p : H264Params) (source : Source) (buf : Text) (c : Connection) (result : ParseResult)
    (further : Text → Connection → Text × Connection)
    → source.subscribe ≡ some p
    → c.flow ≡ reading
    → IsServed p c
    → ((rest : Text) (c' : Connection)
        → c'.flow ≡ reading
        → IsServed p c'
        → IsServed p (further rest c').1)
    → IsServed p (consume source buf c result further).1
unfolding consume
consume-IsServed p source buf c (failed incomplete) further e r v h = v
consume-IsServed p source buf c (failed (bad_request_line s)) further e r v h = over p c v
consume-IsServed p source buf c (failed (bad_header_line s)) further e r v h = over p c v
consume-IsServed p source buf c (failed utf8) further e r v h = over p c v
consume-IsServed p source buf c (failed (bad_content_length s)) further e r v h = over p c v
consume-IsServed p source buf c panicked further e r v h = record {
  subscribed = v.subscribed;
  flowing = tt;
  ready = v.ready;
}
consume-IsServed p source buf c (parsed request n) further e r v h =
    let c' = serve_request source c request in
    let v' = serve_request-IsServed p source c request e r v in
    proceed-IsServed p c' c'.flow (drop n buf) further refl v' (λ f. h (drop n buf) c' f v')

drain-IsServed :
    (p : H264Params) (source : Source) (fuel : ℕ) (buf : Text) (c : Connection)
    → source.subscribe ≡ some p
    → c.flow ≡ reading
    → IsServed p c
    → IsServed p (drain source fuel buf c).1
unfolding drain
drain-IsServed p source zero buf c e r v = v
drain-IsServed p source (suc fuel) buf c e r v =
    consume-IsServed p source buf c (parse_request buf) (drain source fuel) e r v
      (λ rest c' r' v'. drain-IsServed p source fuel rest c' e r' v')

extended-IsServed :
    (p : H264Params) (source : Source) (buf : Text) (c : Connection) (flow : Flow)
    → source.subscribe ≡ some p
    → c.flow ≡ flow
    → IsServed p c
    → IsServed p (extended source buf c flow).1
extended-IsServed p source buf c reading e r v =
    drain-IsServed p source (suc (length buf)) buf c e r v
extended-IsServed p source buf c (streaming channel) e r v = v
extended-IsServed p source buf c ended e r v = v
extended-IsServed p source buf c aborted e r v = v
extended-IsServed p source buf c disconnected e r v = v
extended-IsServed p source buf c crashed e r v = v

extended_end-IsServed :
    (p : H264Params) (c : Connection) (flow : Flow)
    → IsServed p c
    → IsServed p (extended_end c flow).1
extended_end-IsServed p c reading v = over p c v
extended_end-IsServed p c (streaming channel) v = v
extended_end-IsServed p c ended v = v
extended_end-IsServed p c aborted v = v
extended_end-IsServed p c disconnected v = v
extended_end-IsServed p c crashed v = v

receive-IsServed :
    (p : H264Params) (source : Source) (buf : Text) (c : Connection) (bytes : Text)
    → source.subscribe ≡ some p
    → IsServed p c
    → IsServed p (receive source (buf, c) bytes).1
unfolding receive
receive-IsServed p source buf c [] e v = extended_end-IsServed p c c.flow v
receive-IsServed p source buf c (b ∷ bytes) e v =
    extended-IsServed p source (buf ++ (b ∷ bytes)) c c.flow e refl v

disconnect-IsServed :
    (p : H264Params) (flow : Flow) (buf : Text) (c : Connection)
    → IsServed p c
    → IsServed p (disconnect flow (buf, c)).1
disconnect-IsServed p reading buf c v = record {
  subscribed = v.subscribed;
  flowing = tt;
  ready = v.ready;
}
disconnect-IsServed p (streaming channel) buf c v = v
disconnect-IsServed p ended buf c v = v
disconnect-IsServed p aborted buf c v = v
disconnect-IsServed p disconnected buf c v = v
disconnect-IsServed p crashed buf c v = v

receive_reads-from :
    (p : H264Params) (source : Source) (buf : Text) (c : Connection) (reads : List (Option Text))
    → source.subscribe ≡ some p
    → IsServed p c
    → IsServed p (receive_reads source (buf, c) reads).1
unfolding receive_reads receive_read
receive_reads-from p source buf c [] e v = v
receive_reads-from p source buf c (none ∷ reads) e v =
    let s = disconnect c.flow (buf, c) in
    receive_reads-from p source s.0 s.1 reads e (disconnect-IsServed p c.flow buf c v)
receive_reads-from p source buf c (some bytes ∷ reads) e v =
    let s = receive source (buf, c) bytes in
    receive_reads-from p source s.0 s.1 reads e (receive-IsServed p source buf c bytes e v)

-- When `subscribe` gives a subscription: a connection that reads anything at all, a failure of the socket
-- included, calls it once at most, and never ends with an error but that of a read or a write that
-- the socket fails; and where it forwards packets it holds the subscription, its session plays, and
-- it forwards on the session's channel.
pub receive_reads-IsServed :
    (p : H264Params) (source : Source) (reads : List (Option Text))
    → source.subscribe ≡ some p
    → IsServed p (receive_reads source ([], new) reads).1
unfolding new Session.new
receive_reads-IsServed p source reads e =
    receive_reads-from p source [] new reads e
      (record { subscribed = inl (refl, refl); flowing = tt; ready = tt })
