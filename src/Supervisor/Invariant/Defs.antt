-- ===== src/Supervisor/Invariant/Defs.antt =====
-- src/supervisor/mod.rs: the invariant.
use buddy3d_proxy.Prelude.{
  ℕ, suc, ◌+◌, ◌≤◌, ◌<◌, ◌≡◌, ◌⊎◌, Bool, true, false, Option, none, some, List, [], ◌∷◌, ◌++◌,
  arith,
}
use buddy3d_proxy.Rtsp.Params.{H264Params}
use buddy3d_proxy.Supervisor.Defs.{
  pos, State, idle, connecting, streaming, ViewerEvent, attached, detached, World, Timer,
}

-- The viewers that have come and not yet sent that they left.
abbrev pub live : World → ℕ
live w = w.entered + w.connects + w.waiting + w.reading + w.viewers

unfoldable pub detached_count : List ViewerEvent → ℕ
detached_count [] = 0
detached_count (attached ∷ q) = detached_count q
detached_count (detached ∷ q) = suc (detached_count q)

unfoldable pub attached_count : List ViewerEvent → ℕ
attached_count [] = 0
attached_count (attached ∷ q) = suc (attached_count q)
attached_count (detached ∷ q) = attached_count q

-- Whoever announced itself in the queue is still there, or its leave comes behind.
abbrev pub Owed : ℕ → List ViewerEvent → Type 0
Owed n [] = Unit {0}
Owed n (e ∷ q) = (attached_count (e ∷ q) ≤ n + detached_count (e ∷ q)) × Owed n q

-- A session is there with all its parts, or not at all.
abbrev pub IsComplete : State → Option ℕ → Option ℕ → Option H264Params → Type 0
IsComplete streaming (some channel) (some stop) (some params) = Unit {0}
IsComplete streaming (some channel) (some stop) none = ⊥
IsComplete streaming (some channel) none params = ⊥
IsComplete streaming none stop params = ⊥
IsComplete s none none none = Unit {0}
IsComplete s none none (some params) = ⊥
IsComplete s none (some stop) params = ⊥
IsComplete s (some channel) stop params = ⊥

abbrev pub IsFresh : Option ℕ → ℕ → Type 0
IsFresh none n = Unit {0}
IsFresh (some channel) n = channel < n

abbrev pub connecting_count : State → ℕ
connecting_count idle = 0
connecting_count connecting = 1
connecting_count streaming = 0

abbrev pub has_timer : List Timer → Bool
has_timer [] = false
has_timer (t ∷ ts) = true

pub record Inv (w : World) : Type 0 where
  -- The counter is the viewers that are there and the leaves that wait in the queue.
  pub balance : w.viewer_count ≡ pos (live w + detached_count w.queue)
  pub owed : Owed (live w) w.queue
  -- One viewer connects exactly when the state says so.
  pub sole : w.connects ≡ connecting_count w.session.state
  pub published : w.state_watch ≡ w.session.state
  pub complete : IsComplete w.session.state w.session.rtp_tx w.session.stop w.session.h264
  pub fresh : IsFresh w.session.rtp_tx w.next_channel
  -- A session that someone reads or watches is up.
  pub used : (w.reading + w.viewers ≡ 0) ⊎ (w.session.state ≡ streaming)
  -- A session that nobody watches has an idle timer.
  pub armed :
      (w.session.state ≡ idle) ⊎ (0 < live w + detached_count w.queue) ⊎ (has_timer w.timers ≡ true)

detached_count-append :
    (q : List ViewerEvent) (e : ViewerEvent)
    → detached_count (q ++ (e ∷ [])) ≡ detached_count q + detached_count (e ∷ [])
unfolding detached_count
detached_count-append [] e = omega arith
detached_count-append (attached ∷ q) e = omega (arith, detached_count-append q e)
detached_count-append (detached ∷ q) e = omega (arith, detached_count-append q e)

attached_count-append :
    (q : List ViewerEvent) (e : ViewerEvent)
    → attached_count (q ++ (e ∷ [])) ≡ attached_count q + attached_count (e ∷ [])
unfolding attached_count
attached_count-append [] e = omega arith
attached_count-append (attached ∷ q) e = omega (arith, attached_count-append q e)
attached_count-append (detached ∷ q) e = omega (arith, attached_count-append q e)

pub detached_count-attached :
    (q : List ViewerEvent) → detached_count (q ++ (attached ∷ [])) ≡ detached_count q
unfolding detached_count
detached_count-attached q = omega (arith, detached_count-append q attached)

pub detached_count-detached :
    (q : List ViewerEvent) → detached_count (q ++ (detached ∷ [])) ≡ detached_count q + 1
unfolding detached_count
detached_count-detached q = omega (arith, detached_count-append q detached)

-- A viewer that comes, and one that goes, keep the queue in order.
pub Owed-attached : (q : List ViewerEvent) (n : ℕ) → Owed n q → Owed (suc n) (q ++ (attached ∷ []))
unfolding attached_count detached_count
Owed-attached [] n o = (omega arith, tt)
Owed-attached (e ∷ q) n (h, o) = (
  omega (arith, attached_count-append (e ∷ q) attached, detached_count-append (e ∷ q) attached),
  Owed-attached q n o,
)

pub Owed-detached : (q : List ViewerEvent) (n : ℕ) → Owed (suc n) q → Owed n (q ++ (detached ∷ []))
unfolding attached_count detached_count
Owed-detached [] n o = (omega arith, tt)
Owed-detached (e ∷ q) n (h, o) = (
  omega (arith, attached_count-append (e ∷ q) detached, detached_count-append (e ∷ q) detached),
  Owed-detached q n o,
)
