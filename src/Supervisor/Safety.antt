-- ===== src/Supervisor/Safety.antt =====
-- src/supervisor/mod.rs: what the supervisor promises in every state that its tasks can reach.
use buddy3d_proxy.Prelude.{
  ℕ, ◌+◌, ◌<◌, ◌≡◌, ◌⊎◌, inl, inr, true, false, Option, none, some, List, [], ◌∷◌, refl, sym, ap,
  ◌∙◌, arith, if◌then◌else◌, Bool-cases, ◌↔◌,
}
use buddy3d_proxy.Rtsp.Params.{H264Params}
use buddy3d_proxy.Pacing.Budget.{ReconnectBudget}
use buddy3d_proxy.Supervisor.Defs.{
  pos, is_positive, State, SessionState, idle, connecting, streaming, World, Timer,
}
use buddy3d_proxy.Supervisor.Subscribe.{take_subscription, finish}
use buddy3d_proxy.Supervisor.EventLoop.{clear_session, teardown_state, teardown_session}
use buddy3d_proxy.Supervisor.Snapshot.{subscribe_rtp}
use buddy3d_proxy.Supervisor.Steps.{Reach}
use buddy3d_proxy.Supervisor.Invariant.{
  Inv, live, detached_count, IsComplete, Reach-Inv, not_positive-pos, has_timer,
}

streaming_parts :
    (s : State) (c t : Option ℕ) (p : Option H264Params)
    → s ≡ streaming
    → IsComplete s c t p
    → (channel : ℕ) × (stop : ℕ) × (params : H264Params) × (c ≡ some channel)
      × (t ≡ some stop)
      × (p ≡ some params)
streaming_parts streaming (some c) (some t) (some p) e h = (c, t, p, refl, refl, refl)
streaming_parts idle c t p e h = ground (arith, e)
streaming_parts connecting c t p e h = ground (arith, e)
streaming_parts streaming none t p e h = absurd h
streaming_parts streaming (some c) none p e h = absurd h
streaming_parts streaming (some c) (some t) none e h = absurd h

channel_streaming :
    (s : State) (c t : Option ℕ) (p : Option H264Params) (channel : ℕ)
    → c ≡ some channel
    → IsComplete s c t p
    → s ≡ streaming
channel_streaming streaming c t p channel e h = refl
channel_streaming idle none t p channel e h = ground (arith, e)
channel_streaming connecting none t p channel e h = ground (arith, e)
channel_streaming idle (some c) t p channel e h = absurd h
channel_streaming connecting (some c) t p channel e h = absurd h

subscription :
    (w : World) (p : Option H264Params) (c : Option ℕ) (params : H264Params) (channel : ℕ)
    → p ≡ some params
    → c ≡ some channel
    → (w' : World) × (take_subscription w p c ≡ some w')
unfolding take_subscription
subscription w (some p) (some c) params channel e e' = (_, refl)
subscription w none c params channel e e' = ground (arith, e)
subscription w (some p) none params channel e e' = ground (arith, e')

torn_down_only :
    (w : World) (n : ℕ) → w.viewer_count ≡ pos n → is_positive w.viewer_count ≡ false → n ≡ 0
torn_down_only w n e b = not_positive-pos n (sym (ap is_positive e) ∙ b)

-- No channel, no stop handle, no parameters.
abbrev pub no_session : SessionState
no_session = record { state = idle; rtp_tx = none; stop = none; h264 = none }

timer_there :
    (ts : List Timer)
    → has_timer ts ≡ true
    → (t : Timer) × (behind : List Timer) × (ts ≡ t ∷ behind)
timer_there [] e = ground (arith, e)
timer_there (t ∷ behind) e = (t, behind, refl)

fired :
    (s : State) (w : World)
    → w.viewer_count ≡ pos 0
    → (s ≡ idle)
      ⊎ ((if is_positive w.viewer_count then w else teardown_state s w).session ≡ no_session)
unfolding teardown_state clear_session
fired idle w z = inl refl
fired connecting w z = inr (rw (z) refl)
fired streaming w z = inr (rw (z) refl)

released :
    (w : World)
    → Inv w
    → live w + detached_count w.queue ≡ 0
    → (w.session.state ≡ idle)
      ⊎ ((t : Timer) × (behind : List Timer) × (w.timers ≡ t ∷ behind)
          × ((teardown_session (record w { timers = behind })).session ≡ no_session))
unfolding teardown_session
released w v h = elim v.armed [
  | inl e ↦ inl e
  | inr (inl e) ↦ absurd (omega (arith, h, e))
  | inr (inr e) ↦
      let (t, behind, q) = timer_there w.timers e in
      elim (fired w.session.state (record w { timers = behind }) (v.balance ∙ ap pos h)) [
        | inl e ↦ inl e
        | inr f ↦ inr (t, behind, q, f)
      ]
]

module _ (jittered : ℕ → ℕ) (idle_timeout : ℕ) (budget : ReconnectBudget) (w : World)
    (reached : Reach jittered idle_timeout budget w) where
  -- In every reachable state the counter of viewers, which does not wrap here, equals the number of
  -- viewers that are there and have not left, plus the leaves that the event loop has not handled.
  viewer_count-live : w.viewer_count ≡ pos (live w + detached_count w.queue)
  viewer_count-live = (Reach-Inv jittered idle_timeout budget w reached).balance

  -- In every reachable state a viewer that holds a subscription has a session behind it that is
  -- streaming, with its channel, its stop handle and its parameters.
  pub viewers_have_session :
      0 < w.viewers
      → (w.session.state ≡ streaming)
        × ((channel : ℕ) × (stop : ℕ) × (params : H264Params) × (w.session.rtp_tx ≡ some channel)
            × (w.session.stop ≡ some stop)
            × (w.session.h264 ≡ some params))
  viewers_have_session h =
      let v = Reach-Inv jittered idle_timeout budget w reached in
      let up : w.session.state ≡ streaming = ground (arith, h, v.used) in
      (
        up,
        streaming_parts w.session.state w.session.rtp_tx w.session.stop w.session.h264 up
            v.complete,
      )

  -- In every reachable state a viewer that has seen the session stream gets its subscription: the
  -- two `expect`s of `subscribe` never panic.
  pub finish_returns : 0 < w.reading → (w' : World) × (finish w ≡ some w')
  unfolding finish take_subscription
  finish_returns h =
      let v = Reach-Inv jittered idle_timeout budget w reached in
      let up : w.session.state ≡ streaming = ground (arith, h, v.used) in
      let (channel, stop, params, c, t, p) =
        streaming_parts w.session.state w.session.rtp_tx w.session.stop w.session.h264 up
          v.complete in
      subscription w w.session.h264 w.session.rtp_tx params channel p c

  -- In every reachable state, a tear-down leaves the session as it is unless no viewer is there and
  -- no leave waits in the queue.
  pub teardown_session_unused :
      ((teardown_session w).session ≡ w.session) ⊎ (live w + detached_count w.queue ≡ 0)
  unfolding teardown_session teardown_state
  teardown_session_unused =
      let v = Reach-Inv jittered idle_timeout budget w reached in
      elim (Bool-cases (is_positive w.viewer_count)) [
        | inl b ↦ inl (rw (b) refl)
        | inr b ↦ inr (torn_down_only w _ v.balance b)
      ]

  -- In every reachable state in which no viewer is there and no leave waits, the session is idle, or
  -- an idle timer runs, and when it fires nothing of the session is left and its state is idle.
  pub idle_session_released :
      live w + detached_count w.queue ≡ 0
      → (w.session.state ≡ idle)
        ⊎ ((t : Timer) × (behind : List Timer) × (w.timers ≡ t ∷ behind)
            × ((teardown_session (record w { timers = behind })).session ≡ no_session))
  idle_session_released h = released w (Reach-Inv jittered idle_timeout budget w reached) h

  -- In every reachable state a passive receiver is to be had exactly while the session streams, and
  -- the state that the watch publishes is the session's.
  pub subscribe_rtp_streaming :
      (((channel : ℕ) × (subscribe_rtp w ≡ some channel)) ↔ (w.session.state ≡ streaming))
      × (w.state_watch ≡ w.session.state)
  unfolding subscribe_rtp
  subscribe_rtp_streaming =
      let v = Reach-Inv jittered idle_timeout budget w reached in
      (
        (
          (λ (channel, e).
              channel_streaming w.session.state w.session.rtp_tx w.session.stop w.session.h264
                channel e v.complete),
          (λ up.
              let (channel, stop, params, c, t, p) =
                streaming_parts w.session.state w.session.rtp_tx w.session.stop w.session.h264 up
                  v.complete in
              (channel, c)),
        ),
        v.published,
      )
