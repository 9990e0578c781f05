-- ===== src/Supervisor/Invariant/Parts.antt =====
-- src/supervisor/mod.rs: what the proofs about the invariant share.
use buddy3d_proxy.Prelude.{
  ℕ, suc, ◌<◌, ◌≡◌, Bool, true, false, Option, none, some, List, [], ◌∷◌, ◌++◌, refl, sym, arith,
  if◌then◌else◌, subst,
}
use buddy3d_proxy.Rtsp.Params.{H264Params}
use buddy3d_proxy.Supervisor.Defs.{
  State, idle, connecting, streaming, ViewerEvent, attached, detached, World,
}
use buddy3d_proxy.Supervisor.Subscribe.{once_set}
use buddy3d_proxy.Supervisor.Invariant.Defs.{
  Inv, Owed, IsComplete, connecting_count, Owed-attached, Owed-detached,
}

pub Owed-resize : {m n : ℕ} (q : List ViewerEvent) → m ≡ n → Owed m q → Owed n q
Owed-resize q e o = subst (λ k. Owed k q) e o

-- A viewer comes: one more is there, and its event is the last.
pub Owed-come :
    (q : List ViewerEvent) (m : ℕ) {n : ℕ} → n ≡ suc m → Owed m q → Owed n (q ++ (attached ∷ []))
Owed-come q m e o = Owed-resize (q ++ (attached ∷ [])) (sym e) (Owed-attached q m o)

pub Owed-go :
    (q : List ViewerEvent) {m : ℕ} (n : ℕ) → m ≡ suc n → Owed m q → Owed n (q ++ (detached ∷ []))
Owed-go q n e o = Owed-detached q n (Owed-resize q e o)

-- What is there in a state that is not streaming: nothing.
pub complete-idle-connecting :
    (c s : Option ℕ) (p : Option H264Params) → IsComplete idle c s p → IsComplete connecting c s p
complete-idle-connecting none none none h = tt
complete-idle-connecting none none (some p) h = h
complete-idle-connecting none (some s) p h = h
complete-idle-connecting (some c) s p h = h

pub if-Inv :
    (b : Bool) (w1 w2 : World)
    → (b ≡ true → Inv w1)
    → (b ≡ false → Inv w2)
    → Inv (if b then w1 else w2)
if-Inv true w1 w2 f g = f refl
if-Inv false w1 w2 f g = g refl

pub complete-connecting-idle :
    (c s : Option ℕ) (p : Option H264Params) → IsComplete connecting c s p → IsComplete idle c s p
complete-connecting-idle none none none h = tt
complete-connecting-idle none none (some p) h = h
complete-connecting-idle none (some s) p h = h
complete-connecting-idle (some c) s p h = h

pub connecting_of : (s : State) (n : ℕ) → 0 < n → n ≡ connecting_count s → s ≡ connecting
connecting_of idle n h e = absurd (omega (arith, e))
connecting_of connecting n h e = refl
connecting_of streaming n h e = absurd (omega (arith, e))

pub complete-streaming :
    (o : Option H264Params) (c s : ℕ) (p : H264Params)
    → IsComplete streaming (some c) (some s) (once_set o p)
complete-streaming none c s p = tt
complete-streaming (some q) c s p = tt
