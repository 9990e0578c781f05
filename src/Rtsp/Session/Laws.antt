-- ===== src/Rtsp/Session/Laws.antt =====
-- src/rtsp/session.rs: what a request can do to a session, and what a session never does.
use mathlib.Core.Option as Option
use buddy3d_proxy.Prelude.{
  ℕ, ◌≤◌, ◌≡◌, ◌⊎◌, inl, inr, refl, if◌then◌else◌, Bool, true, false, Option, none, some, [], arith,
  Bool-cases,
}
use buddy3d_proxy.Prelude.Text.{Text, codes, is_empty}
use buddy3d_proxy.Rtsp.Message.{
  Method, options, describe, setup, play, teardown, get_parameter, unsupported, Request, cseq,
  header, Response, ok, error, with_header, with_body,
}
use buddy3d_proxy.Rtsp.Session.{
  State, init, described, set_up, playing, torn_down, SessionAction, no_action, SessionContext,
  Session, parse_interleaved, handle_describe, accept_setup, handle_setup, begin_playing,
  handle_play, handle_method, handle,
}

-- The answer carries the request's number; it is a refusal that changes nothing and asks for
-- nothing, or it is 200.
abbrev pub IsAnswer : Session → ℕ → Session × Response × SessionAction → Type 0
IsAnswer s seq (s', response, action) =
    (response.cseq ≡ seq)
    × (((response.status ≡ 200)) ⊎ ((400 ≤ response.status) × (s' ≡ s) × (action ≡ no_action)))

accept_setup-IsAnswer :
    (s : Session) (ctx : SessionContext) (seq : ℕ) (pair : Option (ℕ × ℕ))
    → IsAnswer s seq (accept_setup s ctx seq pair)
unfolding accept_setup ok error with_header
accept_setup-IsAnswer s ctx seq none = (refl, inr (omega arith, refl, refl))
accept_setup-IsAnswer s ctx seq (some (a, b)) = (refl, inl refl)

handle_setup-IsAnswer :
    (s : Session) (ctx : SessionContext) (seq : ℕ) (t : Option Text)
    → IsAnswer s seq (handle_setup s ctx seq t)
unfolding handle_setup error
handle_setup-IsAnswer s ctx seq none = (refl, inr (omega arith, refl, refl))
handle_setup-IsAnswer s ctx seq (some t) = accept_setup-IsAnswer s ctx seq (parse_interleaved t)

begin_playing-IsAnswer :
    (s : Session) (seq : ℕ) (id : Option Text) → IsAnswer s seq (begin_playing s seq id)
unfolding begin_playing ok error with_header
begin_playing-IsAnswer s seq none = (refl, inr (omega arith, refl, refl))
begin_playing-IsAnswer s seq (some id) = (refl, inl refl)

handle_play-IsAnswer :
    (state : State) (s : Session) (seq : ℕ) → IsAnswer s seq (handle_play state s seq)
unfolding handle_play error
handle_play-IsAnswer set_up s seq = begin_playing-IsAnswer s seq s.session_id
handle_play-IsAnswer init s seq = (refl, inr (omega arith, refl, refl))
handle_play-IsAnswer described s seq = (refl, inr (omega arith, refl, refl))
handle_play-IsAnswer playing s seq = (refl, inr (omega arith, refl, refl))
handle_play-IsAnswer torn_down s seq = (refl, inr (omega arith, refl, refl))

handle_method-IsAnswer :
    (m : Method) (s : Session) (req : Request) (ctx : SessionContext) (seq : ℕ)
    → IsAnswer s seq (handle_method m s req ctx seq)
unfolding handle_method handle_describe ok error with_header with_body
handle_method-IsAnswer options s req ctx seq = (refl, inl refl)
handle_method-IsAnswer describe s req ctx seq = (refl, inl refl)
handle_method-IsAnswer setup s req ctx seq =
    handle_setup-IsAnswer s ctx seq (header req (codes "transport"))
handle_method-IsAnswer play s req ctx seq = handle_play-IsAnswer s.state s seq
handle_method-IsAnswer teardown s req ctx seq = (refl, inl refl)
handle_method-IsAnswer get_parameter s req ctx seq =
    elim (Bool-cases (is_empty (Option.get_or s.session_id []))) [
      | inl b ↦ (rw (b) refl, inl (rw (b) refl))
      | inr b ↦ (rw (b) refl, inl (rw (b) refl))
    ]
handle_method-IsAnswer unsupported s req ctx seq = (refl, inr (omega arith, refl, refl))

if-IsAnswer :
    (s : Session) (seq : ℕ) (b : Bool) (x y : Session × Response × SessionAction)
    → IsAnswer s seq x
    → IsAnswer s seq y
    → IsAnswer s seq (if b then x else y)
if-IsAnswer s seq true x y h h' = h
if-IsAnswer s seq false x y h h' = h'

-- Every answer carries the `CSeq` of its request, zero if the request has none; and it is either 200,
-- or a status from 400 on that leaves the session as it was and asks the connection for nothing.
pub handle-IsAnswer :
    (s : Session) (req : Request) (ctx : SessionContext)
    → IsAnswer s (Option.get_or (cseq req) 0) (handle s req ctx)
unfolding handle error
handle-IsAnswer s req ctx =
    let seq = Option.get_or (cseq req) 0 in
    if-IsAnswer s seq _ _ _ (refl, inr (omega arith, refl, refl))
      (handle_method-IsAnswer req.method s req ctx seq)
