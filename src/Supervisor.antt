-- ===== src/Supervisor.antt =====
-- src/supervisor/mod.rs: the state that the supervisor's tasks share.
-- A `World` is that state, with the tasks that run on it: viewers inside `subscribe` are counted by
-- where they stand, since nothing else tells them apart; a watchdog has its own record.
--   `entered`     counted, and not yet at the state's lock
--   `connects`    awaits `connect_session`
--   `waiting`     in the loop on the state watch
--   `reading`     about to take the lock for the parameters
--   `viewers`     hold a `Subscription`
-- A broadcast channel and a stop handle are numbers, fresh for each; times are nanoseconds. The
-- counter `viewer_count` is an `i32`, written as an integer: 2^31 viewers are out of reach.
-- `failed` is what `failed_rx` shows, false when there is none; the watch on the state never closes,
-- since the supervisor holds its sender.
mod Defs
pub mod Subscribe
pub mod EventLoop
pub mod Watchdog
pub mod Snapshot
pub mod Steps
pub mod Factory
pub mod Invariant
pub mod Safety
mod Examples
unfoldable pub use Defs.*
