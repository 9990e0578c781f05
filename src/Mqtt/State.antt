-- ===== src/Mqtt/State.antt =====
-- src/mqtt/state.rs: the state that is published. A turn of the loop of `run_watcher` is taken when
-- one of the two watches has changed; the code of both arms is the same, so a turn is given by what
-- it then reads, the supervisor's state and whether sign-in has failed.
pub mod Transitions
mod Examples
use buddy3d_proxy.Prelude.{Bool, true, false, not, if◌then◌else◌, List, [], ◌∷◌, ◌++◌}
use buddy3d_proxy.Prelude.Text.{Text, codes, same_text}
use buddy3d_proxy.Supervisor.{State, idle, connecting, streaming}

abbrev by_state : State → Text
by_state idle = codes "idle"
by_state connecting = codes "connecting"
by_state streaming = codes "streaming"

unfoldable pub translate : State → Bool → Text
translate state failed = if failed then codes "auth_failed" else by_state state

pub record Watcher : Type 0 where
  pub last : Text
  pub published : List Text

-- What the task does before its loop.
unfoldable pub start : State → Bool → Watcher
unfolding translate
start state failed =
    let initial = translate state failed in record { last = initial; published = initial ∷ [] }

-- `if now != last`
unfoldable pub publish_changed : Watcher → Text → Watcher
unfolding same_text
publish_changed w now =
    if not (same_text now w.last)
    then record { last = now; published = w.published ++ (now ∷ []) }
    else w

unfoldable pub turn : Watcher → State → Bool → Watcher
unfolding translate publish_changed
turn w state failed = publish_changed w (translate state failed)

unfoldable pub run_watcher : Watcher → List (State × Bool) → Watcher
unfolding turn
run_watcher w [] = w
run_watcher w ((state, failed) ∷ seen) = run_watcher (turn w state failed) seen
