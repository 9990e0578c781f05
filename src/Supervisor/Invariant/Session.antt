-- ===== src/Supervisor/Invariant/Session.antt =====
-- src/supervisor/mod.rs: the event loop, the idle timers and the watchdogs keep the invariant.
use buddy3d_proxy.Prelude.{
  ℕ, zero, suc, ◌+◌, ◌<◌, ◌≡◌, inl, inr, true, false, Option, none, some, List, ◌∷◌, ◌++◌, refl,
  sym, ap, ◌∙◌, arith, subst,
}
use buddy3d_proxy.Supervisor.Defs.{
  ℤ, pos, negsuc, sub_one, is_positive, State, idle, connecting, streaming, ViewerEvent, attached,
  detached, World, Timer,
}
use buddy3d_proxy.Supervisor.EventLoop.{
  abort_timer, handle_event, clear_session, teardown_state, teardown_session,
}
use buddy3d_proxy.Supervisor.Invariant.Defs.{Inv, live, detached_count, attached_count, Owed}
use buddy3d_proxy.Supervisor.Invariant.Parts.{if-Inv}

is_positive-pos : (n : ℕ) → is_positive (pos n) ≡ true → 0 < n
is_positive-pos zero h = ground (arith, h)
is_positive-pos (suc n) h = omega arith

pub not_positive-pos : (n : ℕ) → is_positive (pos n) ≡ false → n ≡ 0
not_positive-pos zero h = refl
not_positive-pos (suc n) h = ground (arith, h)

magnitude : ℤ → ℕ
magnitude (pos n) = n
magnitude (negsuc n) = suc n

pos-injective : {m n : ℕ} → pos m ≡ pos n → m ≡ n
unfolding magnitude
pos-injective e = ap magnitude e

sub_one-balance : (z : ℤ) (n m : ℕ) → z ≡ pos n → n ≡ suc m → sub_one z ≡ pos m
sub_one-balance z n m e e' = rw (e, e') refl

abort_timer-Inv :
    (o : Option ℕ) (w : World) → 0 < live w + detached_count w.queue → Inv w → Inv (abort_timer o w)
unfolding abort_timer
abort_timer-Inv none w h v = v
abort_timer-Inv (some id) w h v = record {
  balance = v.balance;
  owed = v.owed;
  sole = v.sole;
  published = v.published;
  complete = v.complete;
  fresh = v.fresh;
  used = v.used;
  armed = inr (inl h);
}

announced :
    (w : World) (rest : List ViewerEvent)
    → w.queue ≡ attached ∷ rest
    → Inv w
    → 0 < live w + detached_count rest
unfolding attached_count detached_count
announced w rest e v = omega (arith, (subst (Owed (live w)) e v.owed).0)

pub handle_event-Inv :
    (w : World) (e : ViewerEvent) (rest : List ViewerEvent) (now : ℕ)
    → w.queue ≡ e ∷ rest
    → Inv w
    → Inv (handle_event (record w { queue = rest }) e now)
unfolding handle_event detached_count
handle_event-Inv w attached rest now e v =
    abort_timer-Inv w.idle_timer (record w { queue = rest }) (announced w rest e v)
      (record {
        balance = v.balance ∙ ap (λ q. pos (live w + detached_count q)) e;
        owed = (subst (Owed (live w)) e v.owed).1;
        sole = v.sole;
        published = v.published;
        complete = v.complete;
        fresh = v.fresh;
        used = v.used;
        armed = inr (inl (announced w rest e v));
      })
handle_event-Inv w detached rest now e v =
    let balanced : sub_one w.viewer_count ≡ pos (live w + detached_count rest) =
      sub_one-balance w.viewer_count _ _ (v.balance ∙ ap (λ q. pos (live w + detached_count q)) e)
        (omega arith) in
    if-Inv (is_positive (sub_one w.viewer_count)) _ _
      (λ b. record {
        balance = balanced;
        owed = (subst (Owed (live w)) e v.owed).1;
        sole = v.sole;
        published = v.published;
        complete = v.complete;
        fresh = v.fresh;
        used = v.used;
        armed = inr (inl (is_positive-pos _ (sym (ap is_positive balanced) ∙ b)));
      })
      (λ b. record {
        balance = balanced;
        owed = (subst (Owed (live w)) e v.owed).1;
        sole = v.sole;
        published = v.published;
        complete = v.complete;
        fresh = v.fresh;
        used = v.used;
        armed = inr (inr refl);
      })

nobody : (w : World) → w.viewer_count ≡ pos 0 → Inv w → live w + detached_count w.queue ≡ 0
nobody w z v = pos-injective (sym v.balance ∙ z)

clear_session-Inv :
    (w : World) (ts : List Timer)
    → w.viewer_count ≡ pos 0
    → Inv w
    → Inv (clear_session (record w { timers = ts }))
unfolding clear_session
clear_session-Inv w ts z v = record {
  balance = v.balance;
  owed = v.owed;
  sole = omega (arith, nobody w z v);
  published = refl;
  complete = tt;
  fresh = tt;
  used = inl (omega (arith, nobody w z v));
  armed = inl refl;
}

teardown_state-Inv :
    (s : State) (w : World) (ts : List Timer)
    → w.session.state ≡ s
    → w.viewer_count ≡ pos 0
    → Inv w
    → Inv (teardown_state s (record w { timers = ts }))
unfolding teardown_state clear_session
teardown_state-Inv idle w ts e z v = record {
  balance = v.balance;
  owed = v.owed;
  sole = v.sole;
  published = v.published;
  complete = v.complete;
  fresh = v.fresh;
  used = v.used;
  armed = inl e;
}
teardown_state-Inv connecting w ts e z v = clear_session-Inv w ts z v
teardown_state-Inv streaming w ts e z v = clear_session-Inv w ts z v

pub teardown_session-Inv :
    (w : World) (before : List Timer) (t : Timer) (behind : List Timer)
    → w.timers ≡ before ++ (t ∷ behind)
    → Inv w
    → Inv (teardown_session (record w { timers = before ++ behind }))
unfolding teardown_session
teardown_session-Inv w before t behind e v =
    if-Inv (is_positive w.viewer_count) _ _
      (λ b. record {
        balance = v.balance;
        owed = v.owed;
        sole = v.sole;
        published = v.published;
        complete = v.complete;
        fresh = v.fresh;
        used = v.used;
        armed = inr (inl (is_positive-pos _ (sym (ap is_positive v.balance) ∙ b)));
      })
      (λ b.
        let z = not_positive-pos _ (sym (ap is_positive v.balance) ∙ b) in
        teardown_state-Inv w.session.state w (before ++ behind) refl (v.balance ∙ ap pos z) v)
