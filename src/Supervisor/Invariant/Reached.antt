-- ===== src/Supervisor/Invariant/Reached.antt =====
-- src/supervisor/mod.rs: the watchdogs and every step keep the invariant.
use buddy3d_proxy.Prelude.{
  ℕ, ◌≡◌, ◌⊎◌, inl, inr, Bool, true, false, Option, none, some, List, refl, sym, ap, ◌∙◌, arith,
  if◌then◌else◌, not,
}
use buddy3d_proxy.Rtsp.Params.{H264Params}
use buddy3d_proxy.Pacing.Budget.{ReconnectBudget}
use buddy3d_proxy.Supervisor.Defs.{is_positive, State, idle, connecting, streaming, World, Watchdog}
use buddy3d_proxy.Supervisor.Snapshot.{snapshot}
use buddy3d_proxy.Supervisor.Watchdog.{
  is_current, sleep, torn_down, session_ended, wake, reconnect_ok, reconnect_err,
}
use buddy3d_proxy.Supervisor.Steps.{
  Step, enters, acquires, connected, refused, turns, finishes, drops, handles, fires, watches,
  samples, auth_fails, Reach, start, later, WatchdogStep, orderly, ends, wakes, succeeds, fails,
  put_back,
}
use buddy3d_proxy.Supervisor.Invariant.Defs.{Inv, IsComplete, connecting_count}
use buddy3d_proxy.Supervisor.Invariant.Session.{handle_event-Inv, teardown_session-Inv}
use buddy3d_proxy.Supervisor.Invariant.Viewers.{
  new-Inv, enter-Inv, acquire_session-Inv, connect_ok-Inv, connect_err-Inv, drop_subscription-Inv,
}
use buddy3d_proxy.Supervisor.Invariant.Waiting.{wait_turn-Inv, finish-Inv}

-- What the invariant does not speak of.
pub other-Inv :
    (w : World) (budget : ReconnectBudget) (failed : Bool) (reconnects : ℕ)
    (last_error_at started : Option ℕ) (watchdogs : List Watchdog)
    → Inv w
    → Inv (record w {
      budget = budget;
      failed = failed;
      wss_reconnects_total = reconnects;
      last_error_at = last_error_at;
      session_started_at = started;
      watchdogs = watchdogs;
    })
other-Inv w budget failed reconnects last_error_at started watchdogs v = record {
  balance = v.balance;
  owed = v.owed;
  sole = v.sole;
  published = v.published;
  complete = v.complete;
  fresh = v.fresh;
  used = v.used;
  armed = v.armed;
}

is_streaming : State → Bool
is_streaming idle = false
is_streaming connecting = false
is_streaming streaming = true

streaming≢idle : streaming ≡ idle → ⊥
unfolding is_streaming
streaming≢idle e = ground (arith, ap is_streaming e)

armed_streaming :
    {s t : State} {A B : Type 0} → s ≡ streaming → (s ≡ idle) ⊎ A ⊎ B → (t ≡ idle) ⊎ A ⊎ B
armed_streaming e (inl h) = absurd (streaming≢idle (sym e ∙ h))
armed_streaming e (inr h) = inr h

complete_current :
    (s : State) (c t : Option ℕ) (p : Option H264Params) (n : ℕ)
    → is_current c n ≡ true
    → IsComplete s c t p
    → (s ≡ streaming) × ((stop : ℕ) → IsComplete streaming c (some stop) p)
complete_current idle none t p n h v = ground (arith, h)
complete_current connecting none t p n h v = ground (arith, h)
complete_current streaming none t p n h v = ground (arith, h)
complete_current idle (some c) t p n h v = absurd v
complete_current connecting (some c) t p n h v = absurd v
complete_current streaming (some c) none p n h v = absurd v
complete_current streaming (some c) (some t) none n h v = absurd v
complete_current streaming (some c) (some t) (some p) n h v = (refl, λ stop. tt)

-- `P` of both sides is `P` of the choice.
if-back :
    (before behind : List Watchdog) (b : Bool) (r1 r2 : World × Option Watchdog)
    → (b ≡ true → Inv (put_back r1 before behind))
    → (b ≡ false → Inv (put_back r2 before behind))
    → Inv (put_back (if b then r1 else r2) before behind)
if-back before behind true r1 r2 f g = f refl
if-back before behind false r1 r2 f g = g refl

not-false : (b : Bool) → not b ≡ false → b ≡ true
not-false true h = refl
not-false false h = ground (arith, h)

reconnect_ok-Inv :
    (w : World) (d : Watchdog) (now stop : ℕ) (before behind : List Watchdog)
    → Inv w
    → Inv (put_back (reconnect_ok w d now stop) before behind)
unfolding reconnect_ok
reconnect_ok-Inv w d now stop before behind v =
    if-back before behind (not (is_current w.session.rtp_tx d.channel)) _ _
      (λ b. other-Inv w _ _ _ _ _ _ v)
      (λ b.
        let up =
          complete_current w.session.state w.session.rtp_tx w.session.stop w.session.h264 d.channel
            (not-false _ b) v.complete in
        record {
          balance = v.balance;
          owed = v.owed;
          sole = v.sole ∙ ap connecting_count up.0;
          published = refl;
          complete = up.1 stop;
          fresh = v.fresh;
          used = inr refl;
          armed = armed_streaming up.0 v.armed;
        })

watch-Inv :
    (jittered : ℕ → ℕ) (w : World) (d : Watchdog) (r : World × Option Watchdog)
    (before behind : List Watchdog)
    → WatchdogStep jittered w d r
    → Inv w
    → Inv (put_back r before behind)
unfolding torn_down session_ended wake sleep reconnect_err
watch-Inv jittered w d r before behind (orderly e) v = other-Inv w _ _ _ _ _ _ v
watch-Inv jittered w d r before behind (ends now e) v =
    if-back before behind (is_positive w.viewer_count) _ _ (λ b. other-Inv w _ _ _ _ _ _ v)
      (λ b. other-Inv w _ _ _ _ _ _ v)
watch-Inv jittered w d r before behind (wakes now deadline e h) v =
    if-back before behind (not (is_current w.session.rtp_tx d.channel)) _ _
      (λ b. other-Inv w _ _ _ _ _ _ v)
      (λ b.
        if-back before behind (not (is_positive w.viewer_count)) _ _
          (λ b. other-Inv w _ _ _ _ _ _ v)
          (λ b.
            if-back before behind w.failed _ _ (λ b. other-Inv w _ _ _ _ _ _ v)
              (λ b. other-Inv w _ _ _ _ _ _ v)))
watch-Inv jittered w d r before behind (succeeds now stop e) v =
    reconnect_ok-Inv w d now stop before behind v
watch-Inv jittered w d r before behind (fails now e) v = other-Inv w _ _ _ _ _ _ v

sampled-Inv : (w : World) (now : ℕ) → Inv w → Inv (snapshot w now).0
unfolding snapshot
sampled-Inv w now v = other-Inv w _ _ _ _ _ _ v

Step-Inv : (jittered : ℕ → ℕ) {w w' : World} → Step jittered w w' → Inv w → Inv w'
Step-Inv jittered (enters w) v = enter-Inv w v
Step-Inv jittered (acquires w now h) v = acquire_session-Inv w now h v
Step-Inv jittered (connected w now params stop h) v = connect_ok-Inv w now params stop h v
Step-Inv jittered (refused w now h) v = connect_err-Inv w now h v
Step-Inv jittered (turns w h) v = wait_turn-Inv w h v
Step-Inv jittered (finishes w w' h e) v = finish-Inv w w' h e v
Step-Inv jittered (drops w h) v = drop_subscription-Inv w h v
Step-Inv jittered (handles w e rest now q) v = handle_event-Inv w e rest now q v
Step-Inv jittered (fires w before t behind now e h) v = teardown_session-Inv w before t behind e v
Step-Inv jittered (watches w before d behind r e s) v = watch-Inv jittered w d r before behind s v
Step-Inv jittered (samples w now) v = sampled-Inv w now v
Step-Inv jittered (auth_fails w) v = other-Inv w _ _ _ _ _ _ v

-- The invariant holds in every state that the tasks can reach from a new supervisor.
pub Reach-Inv :
    (jittered : ℕ → ℕ) (idle_timeout : ℕ) (budget : ReconnectBudget) (w : World)
    → Reach jittered idle_timeout budget w
    → Inv w
Reach-Inv jittered idle_timeout budget w start = new-Inv idle_timeout budget
Reach-Inv jittered idle_timeout budget w (later {w = w1} r s) =
    Step-Inv jittered s (Reach-Inv jittered idle_timeout budget w1 r)
