-- ===== src/Supervisor/Invariant.antt =====
-- src/supervisor/mod.rs: what holds in every state that the tasks can reach.
mod Defs
mod Parts
mod Viewers
mod Waiting
mod Session
mod Reached
unfoldable pub use Defs.{detached_count}
pub use Defs.{has_timer, Inv, live, IsComplete, IsFresh}
pub use Reached.{Reach-Inv}
pub use Session.{not_positive-pos}
