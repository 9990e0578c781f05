-- ===== src/Rtsp/Connection/Subscribed.antt =====
-- src/rtsp/server.rs: the subscription of a connection.
use buddy3d_proxy.Prelude.{
  ℕ, ◌+◌, ◌≡◌, ◌⊎◌, inl, inr, refl, sym, ap, ◌∙◌, not, ◌&&◌, if◌then◌else◌, Bool, true, false,
  Option, none, some, arith,
}
use mathlib.Core.Option as Option
use buddy3d_proxy.Prelude.Text.{codes}
use buddy3d_proxy.Rtsp.Params.{H264Params}
use buddy3d_proxy.Rtsp.Message.{
  Method, options, describe, setup, play, teardown, get_parameter, unsupported, cseq, Request,
  Response, error,
}
use buddy3d_proxy.Rtsp.Session.{
  playing, SessionAction, no_action, start_streaming, stop, SessionContext, Session, handle_method,
  handle, uri_matches, is_options,
}
use buddy3d_proxy.Rtsp.Session.Runs.{IsReady, IsStart, handle-IsSound}
use buddy3d_proxy.Rtsp.Connection.{
  Flow, reading, streaming, ended, aborted, disconnected, crashed, Source, Connection,
  needs_subscription, default_params, is_none, start_forwarding, act, act_if, answer,
  answer_subscribed, serve_request,
}

-- An action that starts no stream.
abbrev IsQuiet : SessionAction → Type 0
IsQuiet no_action = Unit {0}
IsQuiet (start_streaming channel) = ⊥
IsQuiet stop = Unit {0}

handle_method-IsQuiet :
    (m : Method) (s : Session) (req : Request) (ctx : SessionContext) (seq : ℕ)
    → needs_subscription m ≡ false
    → IsQuiet (handle_method m s req ctx seq).2
unfolding handle_method needs_subscription
handle_method-IsQuiet options s req ctx seq h = tt
handle_method-IsQuiet describe s req ctx seq h = ground (arith, h)
handle_method-IsQuiet setup s req ctx seq h = ground (arith, h)
handle_method-IsQuiet play s req ctx seq h = ground (arith, h)
handle_method-IsQuiet teardown s req ctx seq h = tt
handle_method-IsQuiet get_parameter s req ctx seq h = tt
handle_method-IsQuiet unsupported s req ctx seq h = tt

if-IsQuiet :
    (b : Bool) (x y : Session × Response × SessionAction)
    → IsQuiet x.2
    → IsQuiet y.2
    → IsQuiet (if b then x else y).2
if-IsQuiet true x y h h' = h
if-IsQuiet false x y h h' = h'

handle-IsQuiet :
    (s : Session) (req : Request) (ctx : SessionContext)
    → needs_subscription req.method ≡ false
    → IsQuiet (handle s req ctx).2
unfolding handle
handle-IsQuiet s req ctx h =
    let seq = Option.get_or (cseq req) 0 in
    if-IsQuiet (not (uri_matches req.uri ctx.expected_path) && not (is_options req.method))
      (s, error 404 (codes "Not Found") seq, no_action) (handle_method req.method s req ctx seq) tt
      (handle_method-IsQuiet req.method s req ctx seq h)

-- What the connection's task needs where it stands: a stream runs on a subscription, in a session that
-- plays, on the session's channel; and no error but one of the socket has ended it.
abbrev pub IsFlowing : Flow → Option H264Params → Session → H264Params → Type 0
IsFlowing reading held s p = Unit {0}
IsFlowing (streaming channel) held s p =
    (held ≡ some p) × (s.state ≡ playing) × (s.rtp_channel ≡ some channel)
IsFlowing ended held s p = Unit {0}
IsFlowing aborted held s p = ⊥
IsFlowing disconnected held s p = Unit {0}
IsFlowing crashed held s p = Unit {0}

pub record IsServed (p : H264Params) (c : Connection) : Type 0 where
  -- `subscribe` has been called once if the connection holds a subscription, and not at all otherwise.
  pub subscribed :
      ((c.subscription ≡ none) × (c.subscribes ≡ 0))
      ⊎ ((c.subscription ≡ some p) × (c.subscribes ≡ 1))
  pub flowing : IsFlowing c.flow c.subscription c.session p
  pub ready : IsReady c.session.state c.session.session_id c.session.rtp_channel

start_forwarding-IsServed :
    (p : H264Params) (c : Connection) (held : Option H264Params) (channel : ℕ)
    → c.subscription ≡ held
    → held ≡ some p
    → c.session.state ≡ playing
    → c.session.rtp_channel ≡ some channel
    → IsServed p c
    → IsServed p (start_forwarding c held channel)
unfolding start_forwarding
start_forwarding-IsServed p c none channel e h a b v = ground (arith, h)
start_forwarding-IsServed p c (some q) channel e h a b v = record {
  subscribed = v.subscribed;
  flowing = (e ∙ h, a, b);
  ready = v.ready;
}

-- The answer's effect, given that a stream is started on a subscription only.
act-IsServed :
    (p : H264Params) (c : Connection) (s : Session) (action : SessionAction)
    → IsQuiet action ⊎ (c.subscription ≡ some p)
    → IsStart s c.session action
    → IsServed p c
    → IsServed p (act c action)
unfolding act
act-IsServed p c s no_action q start v = v
act-IsServed p c s (start_streaming channel) q (a, b, d, e) v = elim q [
  | inl h ↦ absurd h
  | inr h ↦ start_forwarding-IsServed p c c.subscription channel refl h b e v
]
act-IsServed p c s stop q start v = record {
  subscribed = v.subscribed;
  flowing = tt;
  ready = v.ready;
}

-- The same when the answer may not be written, which is no error of the connection's own.
act_if-IsServed :
    (p : H264Params) (taken : Bool) (c : Connection) (s : Session) (action : SessionAction)
    → IsQuiet action ⊎ (c.subscription ≡ some p)
    → IsStart s c.session action
    → IsServed p c
    → IsServed p (act_if taken c action)
act_if-IsServed p true c s chosen q start v = act-IsServed p c s chosen q start v
act_if-IsServed p false c s chosen q start v = record {
  subscribed = v.subscribed;
  flowing = tt;
  ready = v.ready;
}

IsFlowing-reading :
    (p : H264Params) (flow : Flow) (held : Option H264Params) (s : Session)
    → flow ≡ reading
    → IsFlowing flow held s p
IsFlowing-reading p reading held s e = tt
IsFlowing-reading p (streaming channel) held s e = ground (arith, e)
IsFlowing-reading p ended held s e = tt
IsFlowing-reading p aborted held s e = ground (arith, e)
IsFlowing-reading p disconnected held s e = tt
IsFlowing-reading p crashed held s e = tt

answer-IsServed :
    (p : H264Params) (source : Source) (c : Connection) (request : Request)
    → (needs_subscription request.method ≡ false) ⊎ (c.subscription ≡ some p)
    → c.flow ≡ reading
    → IsServed p c
    → IsServed p (answer source c request)
unfolding answer
answer-IsServed p source c request q e v =
    let ctx : SessionContext = record {
      camera_name = source.camera_name;
      h264_params = Option.get_or c.subscription default_params;
      expected_path = source.rtsp_path;
      new_session_id = source.session_id;
    } in
    let (ready, n, start) = handle-IsSound c.session request ctx v.ready in
    act_if-IsServed p _ _ c.session _
      (elim q [ inl h ↦ inl (handle-IsQuiet c.session request ctx h) | inr h ↦ inr h ]) start
      (record {
        subscribed = v.subscribed;
        flowing = IsFlowing-reading p c.flow _ _ e;
        ready = ready;
      })

never_subscribed :
    (p : H264Params) (c : Connection) → c.subscription ≡ none → IsServed p c → c.subscribes + 1 ≡ 1
never_subscribed p c h v = elim v.subscribed [
  | inl (e, z) ↦ omega (arith, z)
  | inr (e, z) ↦ ground (arith, sym h ∙ e)
]

answer_subscribed-IsServed :
    (p : H264Params) (source : Source) (c : Connection) (request : Request)
    (result : Option H264Params)
    → result ≡ some p
    → c.subscription ≡ none
    → c.flow ≡ reading
    → IsServed p c
    → IsServed p (answer_subscribed source c request result)
unfolding answer_subscribed
answer_subscribed-IsServed p source c request none e h r v = ground (arith, e)
answer_subscribed-IsServed p source c request (some q) e h r v =
    answer-IsServed p source _ request (inr e) r (record {
      subscribed = inr (e, never_subscribed p c h v);
      flowing = IsFlowing-reading p c.flow _ _ r;
      ready = v.ready;
    })

absent :
    (p : H264Params) (c : Connection)
    → IsServed p c
    → (b : Bool) → (is_none c.subscription && b) ≡ true
    → c.subscription ≡ none
absent p c v b h = elim v.subscribed [
  | inl (e, z) ↦ e
  | inr (e, z) ↦ ground (arith, sym (ap (λ o. is_none o && b) e) ∙ h)
]

present :
    (p : H264Params) (c : Connection)
    → IsServed p c
    → (b : Bool) → (is_none c.subscription && b) ≡ false
    → (b ≡ false) ⊎ (c.subscription ≡ some p)
present p c v b h = elim v.subscribed [
  | inl (e, z) ↦ inl (sym (ap (λ o. is_none o && b) e) ∙ h)
  | inr (e, z) ↦ inr e
]

if-IsServed :
    (p : H264Params) (b : Bool) (x y : Connection)
    → (b ≡ true → IsServed p x)
    → (b ≡ false → IsServed p y)
    → IsServed p (if b then x else y)
if-IsServed p true x y f g = f refl
if-IsServed p false x y f g = g refl

pub serve_request-IsServed :
    (p : H264Params) (source : Source) (c : Connection) (request : Request)
    → source.subscribe ≡ some p
    → c.flow ≡ reading
    → IsServed p c
    → IsServed p (serve_request source c request)
unfolding serve_request
serve_request-IsServed p source c request e r v =
    if-IsServed p (is_none c.subscription && needs_subscription request.method) _ _
      (λ b.
        answer_subscribed-IsServed p source c request source.subscribe e
          (absent p c v (needs_subscription request.method) b) r v)
      (λ b.
        answer-IsServed p source c request (present p c v (needs_subscription request.method) b) r
          v)
