-- ===== src/Snapshot.antt =====
-- src/snapshot/mod.rs, src/snapshot/encode.rs: the snapshot worker. Decoding and JPEG are library calls;
-- what is published is given by the Annex-B stream that they get, if they succeed. A turn of the
-- worker's loop is given by what it sees of the supervisor, by the packets that its consumer has
-- taken by the end of the turn, and by what ends its select. A consumer that is aborted stops at its
-- next await: what it still takes while the worker waits for the lock, and behind the reset, is
-- given too.
pub mod Latest
pub mod Fresh
mod Examples
use buddy3d_proxy.Prelude.{
  ℕ, zero, suc, if◌then◌else◌, ◌==◌, Bool, true, false, Option, none, some, List, [], ◌∷◌, ◌++◌,
}
use buddy3d_proxy.Media.Reassembler as Reassembler
use buddy3d_proxy.Media.Reassembler.{Nal, Reassembler, unit_type, push}

pub record LatestParams : Type 0 where
  pub sps : Option (List ℕ)
  pub pps : Option (List ℕ)
  pub idr : Option (List ℕ)

abbrev pub no_params : LatestParams
no_params = record { sps = none; pps = none; idr = none }

-- What the broadcast channel gives a consumer
pub data RtpReceived : Type 0 where
  packet : List ℕ → ℕ → RtpReceived
  lagged : ℕ → RtpReceived
  channel_closed : RtpReceived

unfoldable pub store_unit : LatestParams → Nal → LatestParams
store_unit g nal =
    if unit_type nal == 7
    then record g { sps = some nal.data_bytes }
    else if unit_type nal == 8
    then record g { pps = some nal.data_bytes }
    else if unit_type nal == 5
    then record g { idr = some nal.data_bytes }
    else g

unfoldable pub store_units : LatestParams → List Nal → LatestParams
unfolding store_unit
store_units g [] = g
store_units g (nal ∷ nals) = store_units (store_unit g nal) nals

-- The consumer's task: none, one that runs with its reassembler, or one that has returned.
pub data Consumer : Type 0 where
  no_consumer : Consumer
  running : Reassembler → Consumer
  finished : Consumer

unfoldable pub consume_rtp : Reassembler → LatestParams → List RtpReceived → Consumer × LatestParams
unfolding store_units
consume_rtp r g [] = (running r, g)
consume_rtp r g (packet payload seq ∷ rest) =
    let (r', nals) = push r payload seq in consume_rtp r' (store_units g nals) rest
consume_rtp r g (lagged n ∷ rest) = consume_rtp Reassembler.new g rest
consume_rtp r g (channel_closed ∷ rest) = (finished, g)

abbrev start_code : List ℕ
start_code = 0 ∷ 0 ∷ 0 ∷ 1 ∷ []

unfoldable pub build_annex_b : List ℕ → List ℕ → List ℕ → List ℕ
build_annex_b sps pps idr = start_code ++ (sps ++ (start_code ++ (pps ++ (start_code ++ idr))))

pub record Worker : Type 0 where
  pub latest : LatestParams
  pub current_session : Consumer

unfoldable pub start_worker : Worker
start_worker = record { latest = no_params; current_session = no_consumer }

-- What ends the select: the state changed, its sender is gone, or the interval is over, with whether
-- the supervisor then streams.
pub data Woken : Type 0 where
  state_changed : Woken
  watch_closed : Woken
  ticked : Bool → Woken

pub record WorkerTurn : Type 0 where
  pub streaming : Bool
  pub has_channel : Bool
  pub until_reset : List RtpReceived
  pub behind_reset : List RtpReceived
  pub arrivals : List RtpReceived
  pub woken : Woken

abbrev pub subscribe : Bool → Consumer → Consumer
subscribe has_channel (running r) = running r
subscribe true _ = running Reassembler.new
subscribe false c = c

-- A consumer that still runs, with what it has taken
unfoldable pub run_on : Consumer → LatestParams → List RtpReceived → Consumer × LatestParams
unfolding consume_rtp
run_on (running r) latest arrivals = consume_rtp r latest arrivals
run_on c latest arrivals = (c, latest)

-- What is left of the latest units when a consumer is aborted: it goes on up to the reset, and behind it.
unfoldable pub aborted_latest :
    LatestParams → Consumer → List RtpReceived → List RtpReceived → LatestParams
unfolding run_on
aborted_latest latest c until_reset behind_reset =
    let (c', before) = run_on c latest until_reset in (run_on c' no_params behind_reset).1

-- A stream that is not up ends the consumer, and its units are forgotten.
unfoldable pub re_evaluate : WorkerTurn → Bool → LatestParams → Consumer → Worker
unfolding Reassembler.new aborted_latest
re_evaluate t true latest c = record {
  latest = latest;
  current_session = subscribe t.has_channel c;
}
re_evaluate t false latest no_consumer = record { latest = latest; current_session = no_consumer }
re_evaluate t false latest c = record {
  latest = aborted_latest latest c t.until_reset t.behind_reset;
  current_session = no_consumer;
}

abbrev with_consumed : Consumer × LatestParams → Worker
with_consumed (c, latest) = record { latest = latest; current_session = c }

abbrev arrive_at : LatestParams → List RtpReceived → Consumer → Worker
arrive_at latest arrivals (running r) = with_consumed (consume_rtp r latest arrivals)
arrive_at latest arrivals c = record { latest = latest; current_session = c }

-- The packets that a consumer takes while the worker waits
unfoldable pub arrive : Worker → List RtpReceived → Worker
unfolding consume_rtp
arrive w arrivals = arrive_at w.latest arrivals w.current_session

unfoldable pub snapshot_of : LatestParams → List (List ℕ)
unfolding build_annex_b
snapshot_of g = elim g.sps [
  | none ↦ []
  | some sps ↦ elim g.pps [
    | none ↦ []
    | some pps ↦ elim g.idr [ none ↦ [] | some idr ↦ build_annex_b sps pps idr ∷ [] ]
  ]
]

-- What is handed to the encoder
unfoldable pub on_woken : Woken → LatestParams → List (List ℕ)
unfolding snapshot_of
on_woken (ticked true) latest = snapshot_of latest
on_woken _ latest = []

-- A turn; a closed watch ends the loop, which `run_worker` heeds.
unfoldable pub worker_turn : Worker → WorkerTurn → Worker × List (List ℕ)
unfolding re_evaluate arrive on_woken
worker_turn w t =
    let w' = arrive (re_evaluate t t.streaming w.latest w.current_session) t.arrivals in
    (w', on_woken t.woken w'.latest)

abbrev pub ends : Woken → Bool
ends watch_closed = true
ends _ = false

-- The worker behind its turns, and what it handed over; an interval of zero disables it.
unfoldable pub run_worker : Worker → List WorkerTurn → Worker × List (List ℕ)
unfolding worker_turn
run_worker w [] = (w, [])
run_worker w (t ∷ turns) =
    let (w', now) = worker_turn w t in
    let (w'', later) = run_worker w' turns in
    if ends t.woken then (w', now) else (w'', now ++ later)

unfoldable pub run_snapshots : ℕ → List WorkerTurn → Worker × List (List ℕ)
unfolding run_worker start_worker
run_snapshots interval turns =
    if interval == 0 then (start_worker, []) else run_worker start_worker turns
