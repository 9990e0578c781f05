-- ===== src/Snapshot/Fresh.antt =====
-- src/snapshot/mod.rs: no units of a stream that is gone.
use buddy3d_proxy.Prelude.{
  ℕ, ◌≡◌, refl, ap, ◌∙◌, Bool, true, false, Bool-cases, inl, inr, All, List, [], ◌∷◌,
}
use buddy3d_proxy.Media.Reassembler.{Reassembler, push}
use buddy3d_proxy.Media.Reassembler as Reassembler
use buddy3d_proxy.Snapshot.{
  LatestParams, no_params, RtpReceived, packet, lagged, channel_closed, store_units, Consumer,
  no_consumer, running, finished, consume_rtp, Worker, start_worker, Woken, state_changed,
  watch_closed, ticked, WorkerTurn, subscribe, run_on, aborted_latest, re_evaluate, arrive,
  on_woken, snapshot_of, worker_turn, run_worker, ends,
}

-- Without a consumer there are no units.
abbrev IsClean : Consumer → LatestParams → Type 0
IsClean no_consumer g = g ≡ no_params
IsClean _ g = Unit {0}

abbrev IsCleanWorker : Worker → Type 0
IsCleanWorker w = IsClean w.current_session w.latest

consume_rtp-IsClean :
    (r : Reassembler) (g : LatestParams) (arrivals : List RtpReceived)
    → IsClean (consume_rtp r g arrivals).0 (consume_rtp r g arrivals).1
unfolding consume_rtp
consume_rtp-IsClean r g [] = tt
consume_rtp-IsClean r g (packet payload seq ∷ rest) =
    consume_rtp-IsClean (push r payload seq).0 (store_units g (push r payload seq).1) rest
consume_rtp-IsClean r g (lagged n ∷ rest) = consume_rtp-IsClean Reassembler.new g rest
consume_rtp-IsClean r g (channel_closed ∷ rest) = tt

arrive-IsClean :
    (g : LatestParams) (c : Consumer) (arrivals : List RtpReceived)
    → IsClean c g
    → IsCleanWorker (arrive (record { latest = g; current_session = c }) arrivals)
unfolding arrive
arrive-IsClean g no_consumer arrivals h = h
arrive-IsClean g (running r) arrivals h = consume_rtp-IsClean r g arrivals
arrive-IsClean g finished arrivals h = tt

subscribe-IsClean :
    (has_channel : Bool) (g : LatestParams) (c : Consumer)
    → IsClean c g
    → IsClean (subscribe has_channel c) g
subscribe-IsClean true g no_consumer h = tt
subscribe-IsClean true g (running r) h = tt
subscribe-IsClean true g finished h = tt
subscribe-IsClean false g no_consumer h = h
subscribe-IsClean false g (running r) h = tt
subscribe-IsClean false g finished h = tt

run_on-nothing : (c : Consumer) (g : LatestParams) → run_on c g [] ≡ (c, g)
unfolding run_on consume_rtp
run_on-nothing no_consumer g = refl
run_on-nothing (running r) g = refl
run_on-nothing finished g = refl

-- An aborted consumer that takes nothing behind the reset leaves no units.
aborted_latest-no_params :
    (g : LatestParams) (c : Consumer) (before behind : List RtpReceived)
    → behind ≡ []
    → aborted_latest g c before behind ≡ no_params
unfolding aborted_latest
aborted_latest-no_params g c before behind e =
    let c' = (run_on c g before).0 in
    ap (λ l. (run_on c' no_params l).1) e ∙ ap (λ r. r.1) (run_on-nothing c' no_params)

re_evaluate-IsClean :
    (t : WorkerTurn) (streaming : Bool) (g : LatestParams) (c : Consumer)
    → t.behind_reset ≡ []
    → IsClean c g
    → IsCleanWorker (re_evaluate t streaming g c)
unfolding re_evaluate
re_evaluate-IsClean t true g c e h = subscribe-IsClean t.has_channel g c h
re_evaluate-IsClean t false g no_consumer e h = h
re_evaluate-IsClean t false g (running r) e h =
    aborted_latest-no_params g (running r) t.until_reset t.behind_reset e
re_evaluate-IsClean t false g finished e h =
    aborted_latest-no_params g finished t.until_reset t.behind_reset e

-- The aborted consumer of this turn takes nothing behind the reset.
abbrev pub StopsAtReset : WorkerTurn → Type 0
StopsAtReset t = t.behind_reset ≡ []

worker_turn-IsClean :
    (w : Worker) (t : WorkerTurn)
    → StopsAtReset t
    → IsCleanWorker w
    → IsCleanWorker (worker_turn w t).0
unfolding worker_turn
worker_turn-IsClean w t q h =
    let e = re_evaluate t t.streaming w.latest w.current_session in
    arrive-IsClean e.latest e.current_session t.arrivals
      (re_evaluate-IsClean t t.streaming w.latest w.current_session q h)

run_worker-IsClean :
    (w : Worker) (turns : List WorkerTurn)
    → All StopsAtReset turns
    → IsCleanWorker w
    → IsCleanWorker (run_worker w turns).0
unfolding run_worker
run_worker-IsClean w [] qs h = h
run_worker-IsClean w (t ∷ turns) (q, qs) h = elim (Bool-cases (ends t.woken)) [
  | inl e ↦ rw (e) (worker_turn-IsClean w t q h)
  | inr e ↦ rw (e) (run_worker-IsClean (worker_turn w t).0 turns qs (worker_turn-IsClean w t q h))
]

start_worker-IsClean : IsCleanWorker start_worker
unfolding start_worker
start_worker-IsClean = refl

-- A stream that is not up, by the consumer
re_evaluate-down :
    (t : WorkerTurn) (g : LatestParams) (c : Consumer)
    → StopsAtReset t
    → IsClean c g
    → re_evaluate t false g c ≡ start_worker
unfolding re_evaluate start_worker
re_evaluate-down t g no_consumer q h =
    ap (λ g'. record { latest = g'; current_session = no_consumer }) h
re_evaluate-down t g (running r) q h =
    ap (λ g'. record { latest = g'; current_session = no_consumer })
      (aborted_latest-no_params g (running r) t.until_reset t.behind_reset q)
re_evaluate-down t g finished q h =
    ap (λ g'. record { latest = g'; current_session = no_consumer })
      (aborted_latest-no_params g finished t.until_reset t.behind_reset q)

on_woken-start : (woken : Woken) → on_woken woken no_params ≡ []
unfolding on_woken snapshot_of
on_woken-start state_changed = refl
on_woken-start watch_closed = refl
on_woken-start (ticked true) = refl
on_woken-start (ticked false) = refl

worker_turn-down :
    (w : Worker) (t : WorkerTurn)
    → t.streaming ≡ false
    → StopsAtReset t
    → IsCleanWorker w
    → worker_turn w t ≡ (start_worker, [])
unfolding worker_turn start_worker arrive
worker_turn-down w t h q clean =
    let body : Worker → Worker × List (List ℕ) =
      λ e. (arrive e t.arrivals, on_woken t.woken (arrive e t.arrivals).latest) in
    let down =
      ap (λ s. re_evaluate t s w.latest w.current_session) h
      ∙ re_evaluate-down t w.latest w.current_session q clean in
    ap body down ∙ ap (λ l. (start_worker, l)) (on_woken-start t.woken)

-- If no consumer that is aborted takes another packet behind the reset of the units, which it may up to
-- its next await: whatever the worker has done before, and whatever its consumer takes before the
-- reset, a turn that finds the stream not up hands nothing to the encoder, whatever wakes it and even
-- if the stream is up again by then, and leaves the worker as it was at its start: so no snapshot
-- has units of a stream that was seen to be gone.
pub worker_turn-start_worker :
    (turns : List WorkerTurn) (t : WorkerTurn)
    → All StopsAtReset turns
    → StopsAtReset t
    → t.streaming ≡ false
    → worker_turn (run_worker start_worker turns).0 t ≡ (start_worker, [])
worker_turn-start_worker turns t qs q h =
    worker_turn-down (run_worker start_worker turns).0 t h q
      (run_worker-IsClean start_worker turns qs start_worker-IsClean)
