-- ===== src/Supervisor/Factory.antt =====
-- src/supervisor/webrtc_factory.rs: how a session is brought up and torn down, and the registry of
-- the live outbound channel (src/live_outbound.rs). A channel is a number. The task that a dropped stop
-- handle spawns to clear the registry is pending until it runs. What the account, the servers and
-- the peer connection answer is given.
pub mod Registry
mod Examples
use mathlib.Core.Option as Option
use buddy3d_proxy.Prelude.{
  ℕ, zero, suc, ◌+◌, ◌==◌, if◌then◌else◌, Option, none, some, List, [], ◌∷◌, ◌++◌,
}
use buddy3d_proxy.Prelude.Text.{Text, codes}
use buddy3d_proxy.Prelude.Results.{Result, success, failure, map_err, ◌>>=◌}
use buddy3d_proxy.Rtsp.Params.{H264Params}
use buddy3d_proxy.Rtsp.Sdp.Extract.{extract_h264_params}

pub data SourceError : Type 0 where
  unavailable : Text → SourceError

pub data PeerState : Type 0 where
  failed closed connected other_state : PeerState

-- What the wait meets, in its order: the session ends, the time is over, or a look at the peer
-- connection finds a remote description, if there is one, and a state.
pub data Sight : Type 0 where
  ended : Sight
  timed_out : Sight
  looked : Option Text → PeerState → Sight

abbrev params_of : Option Text → Option H264Params
params_of none = none
params_of (some sdp) = extract_h264_params sdp

-- What a look leads to: parameters, an error, or another look.
unfoldable pub on_look : Option Text → PeerState → Option (Result SourceError H264Params)
unfolding extract_h264_params
on_look remote failed =
    some (failure (unavailable (codes "peer connection failed before WebRTC was ready")))
on_look remote closed =
    some (failure (unavailable (codes "peer connection failed before WebRTC was ready")))
on_look remote connected = elim (params_of remote) [
  | none ↦ none
  | some params ↦ some (success params)
]
on_look remote other_state = none

-- `none` while it waits
unfoldable pub wait_for_ready : List Sight → Option (Result SourceError H264Params)
unfolding on_look
wait_for_ready [] = none
wait_for_ready (ended ∷ rest) =
    some (failure (unavailable (codes "session ended before WebRTC was ready")))
wait_for_ready (timed_out ∷ rest) =
    some (failure (unavailable (codes "WebRTC did not connect with H.264 within 15s")))
wait_for_ready (looked remote state ∷ rest) = elim (on_look remote state) [
  | none ↦ wait_for_ready rest
  | some r ↦ some r
]

-- The registry, the clearing tasks that have not run, and the sessions that are up.
pub record Factory : Type 0 where
  pub live_outbound : Option ℕ
  pub clears : ℕ
  pub sessions : List ℕ

unfoldable pub empty : Factory
empty = record { live_outbound = none; clears = 0; sessions = [] }

-- What an attempt meets; the signaling connection that comes up is its outbound channel.
pub record Attempt : Type 0 where
  pub access_token : Result Text Text
  pub webrtc_config : Result Text (Unit {0})
  pub signaling : Result Text ℕ
  pub session : Result Text (Unit {0})
  pub sights : List Sight

abbrev prefixed : Text → Text → SourceError
prefixed what e = unavailable (what ++ e)

-- The steps before anything is shared, to the outbound channel of the session
unfoldable pub open_session : Attempt → Result SourceError ℕ
open_session a = do
  token ← map_err a.access_token (prefixed (codes "auth: "))
  cfg ← map_err a.webrtc_config (prefixed (codes "webrtc-config: "))
  outbound ← map_err a.signaling (prefixed (codes "signaling: "))
  session ← map_err a.session (prefixed (codes "session: "))
  success outbound

abbrev pub without : ℕ → List ℕ → List ℕ
without s [] = []
without s (t ∷ rest) = let more = without s rest in if s == t then rest else t ∷ more

-- `Joiner::drop`: the driver is told to close, and a task will clear the registry.
unfoldable pub drop_joiner : ℕ → Factory → Factory
drop_joiner session f = record f { clears = f.clears + 1; sessions = without session f.sessions }

-- The new session is in the registry before it is ready.
abbrev pub stash : ℕ → Factory → Factory
stash outbound f = record f { live_outbound = some outbound; sessions = outbound ∷ f.sessions }

abbrev pub hand_over :
    ℕ → Factory → Result SourceError H264Params → Factory × Result SourceError (H264Params × ℕ)
hand_over outbound f (success params) = (f, success (params, outbound))
hand_over outbound f (failure e) = (drop_joiner outbound f, failure e)

abbrev pub after_open :
    Factory
    → List Sight
    → Result SourceError ℕ
    → Option (Factory × Result SourceError (H264Params × ℕ))
after_open f sights (failure e) = some (f, failure e)
after_open f sights (success outbound) =
    Option.map (hand_over outbound (stash outbound f)) (wait_for_ready sights)

-- `none` while it waits for the peer connection
unfoldable pub connect : Factory → Attempt → Option (Factory × Result SourceError (H264Params × ℕ))
unfolding open_session wait_for_ready drop_joiner
connect f a = after_open f a.sights (open_session a)

-- `state.stop = Some(stop)`, in the supervisor: a handle that was there is dropped.
unfoldable pub set_stop : Option ℕ → ℕ → Factory → Factory × Option ℕ
unfolding drop_joiner
set_stop none session f = (f, some session)
set_stop (some previous) session f = (drop_joiner previous f, some session)

-- `state.stop = None`
unfoldable pub clear_stop : Option ℕ → Factory → Factory × Option ℕ
unfolding drop_joiner
clear_stop none f = (f, none)
clear_stop (some previous) f = (drop_joiner previous f, none)

abbrev pub settled : ℕ → Factory → Factory
settled zero f = f
settled (suc n) f = record f { live_outbound = none; clears = 0 }

-- The tasks that clear the registry run.
unfoldable pub settle : Factory → Factory
settle f = settled f.clears f
