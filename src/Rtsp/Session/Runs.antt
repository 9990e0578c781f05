-- ===== src/Rtsp/Session/Runs.antt =====
-- src/rtsp/session.rs: sequences of requests on one connection.
use mathlib.Core.Option as Option
use buddy3d_proxy.Prelude.{
  ℕ, ◌≡◌, ◌≢◌, inl, inr, refl, sym, ap, ◌∙◌, not, subst, if◌then◌else◌, Bool, true, false, Option,
  none, some, List, [], ◌∷◌, arith, Bool-cases,
}
use buddy3d_proxy.Prelude.Text.{Text, codes, is_empty}
use buddy3d_proxy.Rtsp.Message.{
  Method, options, describe, setup, play, teardown, get_parameter, unsupported, Request, cseq,
  header, Response, ok, error, with_header, with_body,
}
use buddy3d_proxy.Rtsp.Session.{
  State, init, described, set_up, playing, torn_down, SessionAction, no_action, start_streaming,
  stop, SessionContext, Session, new, parse_interleaved, uri_matches, handle_describe, accept_setup,
  handle_setup, begin_playing, handle_play, handle_method, handle, is_options,
}

-- A session that is set up or plays has an id and a channel.
abbrev pub IsReady : State → Option Text → Option ℕ → Type 0
IsReady set_up (some id) (some channel) = Unit {0}
IsReady playing (some id) (some channel) = Unit {0}
IsReady set_up none channel = ⊥
IsReady set_up (some id) none = ⊥
IsReady playing none channel = ⊥
IsReady playing (some id) none = ⊥
IsReady _ id channel = Unit {0}

-- A stream starts in a session that was set up, on the channel that it was set up with.
abbrev pub IsStart : Session → Session → SessionAction → Type 0
IsStart s s' (start_streaming channel) =
    (s.state ≡ set_up)
    × (s'.state ≡ playing)
    × (s.rtp_channel ≡ some channel)
    × (s'.rtp_channel ≡ some channel)
IsStart s s' no_action = Unit {0}
IsStart s s' stop = Unit {0}

abbrev pub IsSound : Session → Session × Response × SessionAction → Type 0
IsSound s (s', response, action) =
    IsReady s'.state s'.session_id s'.rtp_channel × (response.status ≢ 454) × IsStart s s' action

accept_setup-IsSound :
    (s : Session) (ctx : SessionContext) (seq : ℕ) (pair : Option (ℕ × ℕ))
    → IsReady s.state s.session_id s.rtp_channel
    → IsSound s (accept_setup s ctx seq pair)
unfolding accept_setup ok error with_header
accept_setup-IsSound s ctx seq none h = (h, omega arith, tt)
accept_setup-IsSound s ctx seq (some (a, b)) h = (tt, omega arith, tt)

handle_setup-IsSound :
    (s : Session) (ctx : SessionContext) (seq : ℕ) (t : Option Text)
    → IsReady s.state s.session_id s.rtp_channel
    → IsSound s (handle_setup s ctx seq t)
unfolding handle_setup error
handle_setup-IsSound s ctx seq none h = (h, omega arith, tt)
handle_setup-IsSound s ctx seq (some t) h = accept_setup-IsSound s ctx seq (parse_interleaved t) h

begin_playing-IsSound :
    (s : Session) (seq : ℕ) (id : Option Text) (channel : Option ℕ)
    → s.state ≡ set_up
    → s.session_id ≡ id
    → s.rtp_channel ≡ channel
    → IsReady set_up id channel
    → IsSound s (begin_playing s seq id)
unfolding begin_playing ok with_header
begin_playing-IsSound s seq (some id) (some channel) e i c h = (
  subst (λ o. IsReady playing o s.rtp_channel) (sym i)
      (subst (IsReady playing (some id)) (sym c) tt),
  omega arith,
  (e, refl, rw (c) refl, rw (c) refl),
)
begin_playing-IsSound s seq none channel e i c h = absurd h
begin_playing-IsSound s seq (some id) none e i c h = absurd h

handle_play-IsSound :
    (state : State) (s : Session) (seq : ℕ)
    → s.state ≡ state
    → IsReady s.state s.session_id s.rtp_channel
    → IsSound s (handle_play state s seq)
unfolding handle_play error
handle_play-IsSound set_up s seq e h =
    begin_playing-IsSound s seq s.session_id s.rtp_channel e refl refl
      (subst (λ t. IsReady t s.session_id s.rtp_channel) e h)
handle_play-IsSound init s seq e h = (h, omega arith, tt)
handle_play-IsSound described s seq e h = (h, omega arith, tt)
handle_play-IsSound playing s seq e h = (h, omega arith, tt)
handle_play-IsSound torn_down s seq e h = (h, omega arith, tt)

handle_method-IsSound :
    (m : Method) (s : Session) (req : Request) (ctx : SessionContext) (seq : ℕ)
    → IsReady s.state s.session_id s.rtp_channel
    → IsSound s (handle_method m s req ctx seq)
unfolding handle_method handle_describe ok error with_header with_body
handle_method-IsSound options s req ctx seq h = (h, omega arith, tt)
handle_method-IsSound describe s req ctx seq h = (tt, omega arith, tt)
handle_method-IsSound setup s req ctx seq h =
    handle_setup-IsSound s ctx seq (header req (codes "transport")) h
handle_method-IsSound play s req ctx seq h = handle_play-IsSound s.state s seq refl h
handle_method-IsSound teardown s req ctx seq h = (tt, omega arith, tt)
handle_method-IsSound get_parameter s req ctx seq h =
    elim (Bool-cases (is_empty (Option.get_or s.session_id []))) [
      | inl b ↦ (h, rw (b) omega arith, tt)
      | inr b ↦ (h, rw (b) omega arith, tt)
    ]
handle_method-IsSound unsupported s req ctx seq h = (h, omega arith, tt)

if-IsSound :
    (s : Session) (b : Bool) (x y : Session × Response × SessionAction)
    → IsSound s x
    → IsSound s y
    → IsSound s (if b then x else y)
if-IsSound s true x y h h' = h
if-IsSound s false x y h h' = h'

pub handle-IsSound :
    (s : Session) (req : Request) (ctx : SessionContext)
    → IsReady s.state s.session_id s.rtp_channel
    → IsSound s (handle s req ctx)
unfolding handle error
handle-IsSound s req ctx h =
    if-IsSound s _ _ _ (h, omega arith, tt)
      (handle_method-IsSound req.method s req ctx (Option.get_or (cseq req) 0) h)

-- The session after some requests, each with the context of its moment.
unfoldable pub handle_all : Session → List (Request × SessionContext) → Session
unfolding handle
handle_all s [] = s
handle_all s ((req, ctx) ∷ reqs) = handle_all (handle s req ctx).0 reqs

handle_all-IsReady :
    (s : Session) (reqs : List (Request × SessionContext))
    → IsReady s.state s.session_id s.rtp_channel
    → IsReady
        (handle_all s reqs).state
        (handle_all s reqs).session_id
        (handle_all s reqs).rtp_channel
unfolding handle_all
handle_all-IsReady s [] h = h
handle_all-IsReady s ((req, ctx) ∷ reqs) h =
    handle_all-IsReady (handle s req ctx).0 reqs (handle-IsSound s req ctx h).0

-- The first of the channels in a transport, or the channel that there was
abbrev first_channel : Option ℕ → Option (ℕ × ℕ) → Option ℕ
first_channel old none = old
first_channel old (some (a, b)) = some a

abbrev channel_in : Option ℕ → Option Text → Option ℕ
channel_in old none = old
channel_in old (some transport) = first_channel old (parse_interleaved transport)

abbrev channel_by : Option ℕ → Request → Method → Option ℕ
channel_by old req setup = channel_in old (header req (codes "transport"))
channel_by old req _ = old

-- The channel that a request asks for, or else the channel that there was: only a SETUP for the served
-- path, over interleaved channels, asks for one.
abbrev pub channel_after : Option ℕ → Request → SessionContext → Option ℕ
channel_after old req ctx =
    if uri_matches req.uri ctx.expected_path then channel_by old req req.method else old

-- The channel that the last such SETUP asked for
abbrev pub last_channel : Option ℕ → List (Request × SessionContext) → Option ℕ
last_channel old [] = old
last_channel old ((req, ctx) ∷ reqs) = last_channel (channel_after old req ctx) reqs

accept_setup-rtp_channel :
    (s : Session) (ctx : SessionContext) (seq : ℕ) (pair : Option (ℕ × ℕ))
    → (accept_setup s ctx seq pair).0.rtp_channel ≡ first_channel s.rtp_channel pair
unfolding accept_setup
accept_setup-rtp_channel s ctx seq none = refl
accept_setup-rtp_channel s ctx seq (some (a, b)) = refl

handle_setup-rtp_channel :
    (s : Session) (ctx : SessionContext) (seq : ℕ) (t : Option Text)
    → (handle_setup s ctx seq t).0.rtp_channel ≡ channel_in s.rtp_channel t
unfolding handle_setup
handle_setup-rtp_channel s ctx seq none = refl
handle_setup-rtp_channel s ctx seq (some t) =
    accept_setup-rtp_channel s ctx seq (parse_interleaved t)

begin_playing-rtp_channel :
    (s : Session) (seq : ℕ) (id : Option Text)
    → (begin_playing s seq id).0.rtp_channel ≡ s.rtp_channel
unfolding begin_playing
begin_playing-rtp_channel s seq none = refl
begin_playing-rtp_channel s seq (some id) = refl

handle_play-rtp_channel :
    (state : State) (s : Session) (seq : ℕ)
    → (handle_play state s seq).0.rtp_channel ≡ s.rtp_channel
unfolding handle_play
handle_play-rtp_channel set_up s seq = begin_playing-rtp_channel s seq s.session_id
handle_play-rtp_channel init s seq = refl
handle_play-rtp_channel described s seq = refl
handle_play-rtp_channel playing s seq = refl
handle_play-rtp_channel torn_down s seq = refl

handle_method-rtp_channel :
    (m : Method) (s : Session) (req : Request) (ctx : SessionContext) (seq : ℕ)
    → (handle_method m s req ctx seq).0.rtp_channel ≡ channel_by s.rtp_channel req m
unfolding handle_method handle_describe
handle_method-rtp_channel options s req ctx seq = refl
handle_method-rtp_channel describe s req ctx seq = refl
handle_method-rtp_channel setup s req ctx seq =
    handle_setup-rtp_channel s ctx seq (header req (codes "transport"))
handle_method-rtp_channel play s req ctx seq = handle_play-rtp_channel s.state s seq
handle_method-rtp_channel teardown s req ctx seq = refl
handle_method-rtp_channel get_parameter s req ctx seq = refl
handle_method-rtp_channel unsupported s req ctx seq = refl

elsewhere :
    (m : Method) (old : Option ℕ) (s : Session) (req : Request) (ctx : SessionContext) (seq : ℕ)
    → s.rtp_channel ≡ old
    → (if not (is_options m)
        then (s, error 404 (codes "Not Found") seq, no_action)
        else handle_method m s req ctx seq).0.rtp_channel
      ≡ old
unfolding handle_method
elsewhere options old s req ctx seq e = e
elsewhere describe old s req ctx seq e = e
elsewhere setup old s req ctx seq e = e
elsewhere play old s req ctx seq e = e
elsewhere teardown old s req ctx seq e = e
elsewhere get_parameter old s req ctx seq e = e
elsewhere unsupported old s req ctx seq e = e

handle-rtp_channel :
    (s : Session) (req : Request) (ctx : SessionContext)
    → (handle s req ctx).0.rtp_channel ≡ channel_after s.rtp_channel req ctx
unfolding handle
handle-rtp_channel s req ctx =
    let seq = Option.get_or (cseq req) 0 in
    elim (Bool-cases (uri_matches req.uri ctx.expected_path)) [
      | inl e ↦ rw (e) (handle_method-rtp_channel req.method s req ctx seq)
      | inr e ↦ rw (e) (elsewhere req.method s.rtp_channel s req ctx seq refl)
    ]

handle_all-last_channel :
    (s : Session) (reqs : List (Request × SessionContext))
    → (handle_all s reqs).rtp_channel ≡ last_channel s.rtp_channel reqs
unfolding handle_all
handle_all-last_channel s [] = refl
handle_all-last_channel s ((req, ctx) ∷ reqs) =
    handle_all-last_channel (handle s req ctx).0 reqs
    ∙ ap (λ old. last_channel old reqs) (handle-rtp_channel s req ctx)

-- Whatever requests a connection has sent, the next one is never answered with 454, for a session
-- that is set up or plays has its id and its channel; and a stream is started only in a session that
-- is set up, which then plays, on the session's channel, and that is the first of the channels that
-- the last SETUP for the served path over interleaved channels asked for.
pub handle_all-IsSound :
    (reqs : List (Request × SessionContext)) (req : Request) (ctx : SessionContext)
    → IsSound (handle_all new reqs) (handle (handle_all new reqs) req ctx)
      × ((handle_all new reqs).rtp_channel ≡ last_channel none reqs)
unfolding new
handle_all-IsSound reqs req ctx = (
  handle-IsSound (handle_all new reqs) req ctx (handle_all-IsReady new reqs tt),
  handle_all-last_channel new reqs,
)

-- A SETUP for the served path over interleaved channels, and then a PLAY for it: the answer is 200
-- and the stream starts on the first of the channels, whatever state the session was in before.
setup_play :
    (s : Session) (first second : Request) (ctx ctx' : SessionContext) (transport : Text) (a b : ℕ)
    → first.method ≡ setup
    → second.method ≡ play
    → uri_matches first.uri ctx.expected_path ≡ true
    → uri_matches second.uri ctx'.expected_path ≡ true
    → header first (codes "transport") ≡ some transport
    → parse_interleaved transport ≡ some (a, b)
    → ((handle (handle s first ctx).0 second ctx').1.status ≡ 200)
      × ((handle (handle s first ctx).0 second ctx').2 ≡ start_streaming a)
unfolding handle handle_method handle_setup accept_setup handle_play begin_playing ok with_header
setup_play s first second ctx ctx' transport a b m m' u u' t p =
    rw (m, m', u, u', t, p) (refl, refl)
