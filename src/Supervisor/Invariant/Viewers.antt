-- ===== src/Supervisor/Invariant/Viewers.antt =====
-- src/supervisor/mod.rs: every stretch of `subscribe` keeps the invariant.
use buddy3d_proxy.Prelude.{ℕ, ◌<◌, ◌≡◌, inl, inr, some, refl, arith, ap, ◌-◌, ◌==◌, subst}
use buddy3d_proxy.Rtsp.Params.{H264Params}
use buddy3d_proxy.Supervisor.Defs.{
  State, idle, connecting, streaming, detached, World, new, send_event,
}
use buddy3d_proxy.Supervisor.Subscribe.{
  enter, begin, dispatch, acquire_session, connect_ok, reset_connecting, connect_err,
  drop_subscription,
}
use buddy3d_proxy.Supervisor.Invariant.Defs.{
  Inv, detached_count, IsComplete, connecting_count, detached_count-attached,
  detached_count-detached,
}
use buddy3d_proxy.Supervisor.Invariant.Parts.{
  Owed-resize, Owed-come, Owed-go, complete-idle-connecting, complete-connecting-idle,
  connecting_of, complete-streaming, if-Inv,
}
use buddy3d_proxy.Pacing.Budget.{ReconnectBudget, wait_time, record_failure}

pub new-Inv : (idle_timeout : ℕ) (budget : ReconnectBudget) → Inv (new idle_timeout budget)
unfolding new detached_count
new-Inv idle_timeout budget = record {
  balance = refl;
  owed = tt;
  sole = refl;
  published = refl;
  complete = tt;
  fresh = tt;
  used = inl refl;
  armed = inl refl;
}

pub enter-Inv : (w : World) → Inv w → Inv (enter w)
unfolding enter
enter-Inv w v = record {
  balance = ground (arith, detached_count-attached w.queue, v.balance);
  owed = Owed-come w.queue _ (omega arith) v.owed;
  sole = v.sole;
  published = v.published;
  complete = v.complete;
  fresh = v.fresh;
  used = v.used;
  armed = inr (inl (omega arith));
}

pub drop_subscription-Inv : (w : World) → 0 < w.viewers → Inv w → Inv (drop_subscription w)
unfolding drop_subscription
drop_subscription-Inv w h v = record {
  balance = ground (arith, detached_count-detached w.queue, v.balance);
  owed = Owed-go w.queue _ (omega arith) v.owed;
  sole = v.sole;
  published = v.published;
  complete = v.complete;
  fresh = v.fresh;
  used = ground (arith, v.used);
  armed = inr (inl (omega (arith, detached_count-detached w.queue)));
}

begin-Inv :
    (w : World) (now : ℕ)
    → 0 < w.entered
    → w.session.state ≡ idle
    → Inv w
    → Inv (begin (record w { entered = w.entered - 1 }) now)
unfolding begin
begin-Inv w now h e v =
    if-Inv ((wait_time w.budget now).1 == 0) _ _
      (λ b. record {
        balance = ground (arith, v.balance);
        owed = Owed-resize w.queue (omega arith) v.owed;
        sole = omega (arith, v.sole, ap connecting_count e);
        published = refl;
        complete =
            complete-idle-connecting w.session.rtp_tx w.session.stop w.session.h264 (
              subst (λ t. IsComplete t w.session.rtp_tx w.session.stop w.session.h264) e
                v.complete);
        fresh = v.fresh;
        used = ground (arith, v.used, e);
        armed = inr (inl (omega arith));
      })
      (λ b. record {
        balance = ground (arith, detached_count-detached w.queue, v.balance);
        owed = Owed-go w.queue _ (omega arith) v.owed;
        sole = v.sole;
        published = v.published;
        complete = v.complete;
        fresh = v.fresh;
        used = v.used;
        armed = inl e;
      })

dispatch-Inv :
    (s : State) (w : World) (now : ℕ)
    → 0 < w.entered
    → w.session.state ≡ s
    → Inv w
    → Inv (dispatch s (record w { entered = w.entered - 1 }) now)
unfolding dispatch
dispatch-Inv idle w now h e v = begin-Inv w now h e v
dispatch-Inv connecting w now h e v = record {
  balance = ground (arith, v.balance);
  owed = Owed-resize w.queue (omega arith) v.owed;
  sole = v.sole;
  published = v.published;
  complete = v.complete;
  fresh = v.fresh;
  used = v.used;
  armed = inr (inl (omega arith));
}
dispatch-Inv streaming w now h e v = record {
  balance = ground (arith, v.balance);
  owed = Owed-resize w.queue (omega arith) v.owed;
  sole = v.sole;
  published = v.published;
  complete = v.complete;
  fresh = v.fresh;
  used = inr e;
  armed = inr (inl (omega arith));
}

pub acquire_session-Inv :
    (w : World) (now : ℕ) → 0 < w.entered → Inv w → Inv (acquire_session w now)
unfolding acquire_session
acquire_session-Inv w now h v = dispatch-Inv w.session.state w now h refl v

pub connect_ok-Inv :
    (w : World) (now : ℕ) (params : H264Params) (stop : ℕ)
    → 0 < w.connects
    → Inv w
    → Inv (connect_ok w now params stop)
unfolding connect_ok
connect_ok-Inv w now params stop h v = record {
  balance = ground (arith, v.balance);
  owed = Owed-resize w.queue (omega arith) v.owed;
  sole =
      omega
        (arith, v.sole, ap connecting_count (connecting_of w.session.state w.connects h v.sole));
  published = refl;
  complete = complete-streaming w.session.h264 w.next_channel stop params;
  fresh = omega arith;
  used = inr refl;
  armed = inr (inl (omega arith));
}

reset_connecting-Inv :
    (s : State) (w : World) (now : ℕ)
    → 0 < w.connects
    → w.session.state ≡ s
    → Inv w
    → Inv
        (record (send_event
          (reset_connecting s
            (record w { budget = record_failure w.budget now; connects = w.connects - 1 }))
          detached) { last_error_at = some now })
unfolding reset_connecting
reset_connecting-Inv idle w now h e v = absurd (omega (arith, v.sole, ap connecting_count e))
reset_connecting-Inv streaming w now h e v = absurd (omega (arith, v.sole, ap connecting_count e))
reset_connecting-Inv connecting w now h e v = record {
  balance = ground (arith, detached_count-detached w.queue, v.balance);
  owed = Owed-go w.queue _ (omega arith) v.owed;
  sole = omega (arith, v.sole, ap connecting_count e);
  published = refl;
  complete =
      complete-connecting-idle w.session.rtp_tx w.session.stop w.session.h264
        (subst (λ t. IsComplete t w.session.rtp_tx w.session.stop w.session.h264) e v.complete);
  fresh = v.fresh;
  used = ground (arith, v.used, e);
  armed = inl refl;
}

pub connect_err-Inv : (w : World) (now : ℕ) → 0 < w.connects → Inv w → Inv (connect_err w now)
unfolding connect_err
connect_err-Inv w now h v = reset_connecting-Inv w.session.state w now h refl v
