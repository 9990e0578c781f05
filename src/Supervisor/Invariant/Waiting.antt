-- ===== src/Supervisor/Invariant/Waiting.antt =====
-- src/supervisor/mod.rs: the wait for a connect, and the subscription, keep the invariant.
use buddy3d_proxy.Prelude.{ℕ, ◌<◌, ◌≡◌, inl, inr, Option, none, some, sym, arith, ap, subst}
use mathlib.Core.Option.{get_or}
use buddy3d_proxy.Rtsp.Params.{H264Params}
use buddy3d_proxy.Supervisor.Defs.{State, idle, connecting, streaming, World}
use buddy3d_proxy.Supervisor.Subscribe.{observe, wait_turn, take_subscription, finish}
use buddy3d_proxy.Supervisor.Invariant.Defs.{Inv, detached_count-detached}
use buddy3d_proxy.Supervisor.Invariant.Parts.{Owed-resize, Owed-go}

observe-Inv :
    (s : State) (w : World) → 0 < w.waiting → w.session.state ≡ s → Inv w → Inv (observe s w)
unfolding observe
observe-Inv idle w h e v = record {
  balance = ground (arith, detached_count-detached w.queue, v.balance);
  owed = Owed-go w.queue _ (omega arith) v.owed;
  sole = v.sole;
  published = v.published;
  complete = v.complete;
  fresh = v.fresh;
  used = v.used;
  armed = inl e;
}
observe-Inv connecting w h e v = v
observe-Inv streaming w h e v = record {
  balance = ground (arith, v.balance);
  owed = Owed-resize w.queue (omega arith) v.owed;
  sole = v.sole;
  published = v.published;
  complete = v.complete;
  fresh = v.fresh;
  used = inr e;
  armed = inr (inl (omega arith));
}

pub wait_turn-Inv : (w : World) → 0 < w.waiting → Inv w → Inv (wait_turn w)
unfolding wait_turn
wait_turn-Inv w h v = observe-Inv w.state_watch w h (sym v.published) v

take_subscription-Inv :
    (w : World) (p : Option H264Params) (c : Option ℕ) (w' : World)
    → 0 < w.reading
    → Inv w
    → take_subscription w p c ≡ some w'
    → Inv w'
unfolding take_subscription
take_subscription-Inv w none c w' h v e = ground (arith, e)
take_subscription-Inv w (some p) none w' h v e = ground (arith, e)
take_subscription-Inv w (some p) (some c) w' h v e = subst Inv (ap (λ o. get_or o w) e) (record {
  balance = ground (arith, v.balance);
  owed = Owed-resize w.queue (omega arith) v.owed;
  sole = v.sole;
  published = v.published;
  complete = v.complete;
  fresh = v.fresh;
  used = ground (arith, v.used);
  armed = inr (inl (omega arith));
})

pub finish-Inv : (w w' : World) → 0 < w.reading → finish w ≡ some w' → Inv w → Inv w'
unfolding finish
finish-Inv w w' h e v = take_subscription-Inv w w.session.h264 w.session.rtp_tx w' h v e
