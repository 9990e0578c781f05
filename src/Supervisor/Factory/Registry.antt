-- ===== src/Supervisor/Factory/Registry.antt =====
-- src/supervisor/webrtc_factory.rs, src/live_outbound.rs: what the registry holds while a session is up.
use buddy3d_proxy.Prelude.{
  ℕ, ◌+◌, ◌≡◌, ◌≢◌, refl, sym, ap, subst, ◌∙◌, ◌==◌, false, Option, none, some, List, ◌∷◌,
  Option-cases, inl, inr, arith,
}
use buddy3d_proxy.Prelude.Results.{Result, success, failure}
use buddy3d_proxy.Rtsp.Params.{H264Params}
use buddy3d_proxy.Supervisor.Factory.{
  SourceError, Factory, Attempt, Sight, open_session, wait_for_ready, stash, after_open, connect,
  drop_joiner, set_stop, settle, without, settled,
}

-- The factory behind an attempt that succeeds.
abbrev IsUp : Factory → Option (Factory × Result SourceError (H264Params × ℕ)) → Type 0
IsUp f (some (f', success (params, session))) = f' ≡ stash session f
IsUp f _ = Unit {0}

after_open-IsUp :
    (f : Factory) (sights : List Sight) (opened : Result SourceError ℕ)
    → IsUp f (after_open f sights opened)
after_open-IsUp f sights (failure e) = tt
after_open-IsUp f sights (success outbound) = elim (Option-cases (wait_for_ready sights)) [
  | inl e ↦ rw (e) tt
  | inr (success params, e) ↦ rw (e) refl
  | inr (failure m, e) ↦ rw (e) tt
]

connect-stash :
    (f f' : Factory) (a : Attempt) (params : H264Params) (session : ℕ)
    → connect f a ≡ some (f', success (params, session))
    → f' ≡ stash session f
unfolding connect
connect-stash f f' a params session e =
    subst (IsUp f) e (after_open-IsUp f a.sights (open_session a))

settled-one :
    (n : ℕ) (f : Factory) → n ≡ 1 → settled n f ≡ record f { live_outbound = none; clears = 0 }
settled-one n f e = rw (e) refl

without-other :
    (s t : ℕ) (rest : List ℕ) → (s == t) ≡ false → without s (t ∷ rest) ≡ t ∷ without s rest
without-other s t rest e = rw (e) refl

stash-set_stop :
    (f : Factory) (session previous : ℕ)
    → f.clears ≡ 0
    → previous ≢ session
    → ((settle (set_stop none session (stash session f)).0).live_outbound ≡ some session)
      × ((settle (set_stop (some previous) session (stash session f)).0).live_outbound ≡ none)
      × ((settle (set_stop (some previous) session (stash session f)).0).sessions
          ≡ session ∷ without previous f.sessions)
unfolding settle set_stop drop_joiner
stash-set_stop f session previous h n =
    let other : (previous == session) ≡ false = ground (arith, n) in
    let one : f.clears + 1 ≡ 1 = omega (arith, h) in
    let cleared = settled-one (f.clears + 1) (drop_joiner previous (stash session f)) one in
    (
      rw (h) refl,
      ap (λ g. g.live_outbound) cleared,
      ap (λ g. g.sessions) cleared ∙ without-other previous session f.sessions other,
    )

-- After the first connect of a session, with no clearing task left, the registry holds its channel.
-- After a reconnect it holds none although the session is up: the handle of the session before is
-- dropped once the new channel is in the registry, and the task that this spawns clears it.
pub connect-set_stop :
    (f f' : Factory) (a : Attempt) (params : H264Params) (session previous : ℕ)
    → connect f a ≡ some (f', success (params, session))
    → f.clears ≡ 0
    → previous ≢ session
    → ((settle (set_stop none session f').0).live_outbound ≡ some session)
      × ((settle (set_stop (some previous) session f').0).live_outbound ≡ none)
      × ((settle (set_stop (some previous) session f').0).sessions
          ≡ session ∷ without previous f.sessions)
connect-set_stop f f' a params session previous e h n =
    subst
      (λ g.
        ((settle (set_stop none session g).0).live_outbound ≡ some session)
        × ((settle (set_stop (some previous) session g).0).live_outbound ≡ none)
        × ((settle (set_stop (some previous) session g).0).sessions
            ≡ session ∷ without previous f.sessions))
      (sym (connect-stash f f' a params session e)) (stash-set_stop f session previous h n)
