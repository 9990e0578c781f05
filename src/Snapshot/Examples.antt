-- ===== src/Snapshot/Examples.antt =====
-- src/snapshot/mod.rs: the worker on concrete packets.
use buddy3d_proxy.Prelude.{◌≡◌, refl, true, false, List, [], ◌∷◌, length}
use buddy3d_proxy.Media.Reassembler as Reassembler
use buddy3d_proxy.Media.Reassembler.{push, unit_type}
use buddy3d_proxy.Snapshot.{
  no_params, RtpReceived, packet, lagged, consume_rtp, store_unit, start_worker, ticked, WorkerTurn,
  worker_turn, run_worker,
}
use buddy3d_proxy.Snapshot.Latest.{units_of, latest_of, consume_rtp-latest_of}
use buddy3d_proxy.Snapshot.Fresh.{worker_turn-start_worker}

-- The parameter sets in one packet, a picture, a loss, and another picture
abbrev arrivals : List RtpReceived
arrivals =
    packet (24 ∷ 0 ∷ 2 ∷ 0x67 ∷ 1 ∷ 0 ∷ 2 ∷ 0x68 ∷ 2 ∷ []) 1
    ∷ packet (0x65 ∷ 3 ∷ []) 2
    ∷ lagged 4
    ∷ packet (0x65 ∷ 4 ∷ []) 7
    ∷ []

abbrev watching : WorkerTurn
watching = record {
  streaming = true;
  has_channel = true;
  until_reset = [];
  behind_reset = [];
  arrivals = arrivals;
  woken = ticked true;
}

abbrev gone : WorkerTurn
gone = record {
  streaming = false;
  has_channel = false;
  until_reset = arrivals;
  behind_reset = [];
  arrivals = arrivals;
  woken = ticked true;
}

one_snapshot :
    (worker_turn start_worker watching).1
    ≡ (0 ∷ 0 ∷ 0 ∷ 1 ∷ 0x67 ∷ 1 ∷ 0 ∷ 0 ∷ 0 ∷ 1 ∷ 0x68 ∷ 2 ∷ 0 ∷ 0 ∷ 0 ∷ 1 ∷ 0x65 ∷ 4 ∷ []) ∷ []
unfolding worker_turn start_worker store_unit unit_type push Reassembler.new
    Reassembler.split_aggregate
one_snapshot = refl

-- Packets that the aborted consumer takes behind the reset are handed over, if the stream is up again
-- by then.
one_stale_snapshot :
    length
      (worker_turn (worker_turn start_worker watching).0 (record gone {
        behind_reset = packet (0x67 ∷ []) 8 ∷ packet (0x68 ∷ []) 9 ∷ packet (0x65 ∷ []) 10 ∷ [];
      })).1
    ≡ 1
unfolding worker_turn start_worker store_unit unit_type push Reassembler.new
    Reassembler.split_aggregate
one_stale_snapshot = refl

consume_rtp-latest_of_example :
    (consume_rtp Reassembler.new no_params arrivals).1
    ≡ latest_of no_params (units_of Reassembler.new arrivals)
consume_rtp-latest_of_example = consume_rtp-latest_of Reassembler.new no_params arrivals

worker_turn-start_worker_example :
    worker_turn (run_worker start_worker (watching ∷ [])).0 gone ≡ (start_worker, [])
worker_turn-start_worker_example =
    worker_turn-start_worker (watching ∷ []) gone (refl, tt) refl refl
