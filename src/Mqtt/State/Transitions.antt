-- ===== src/Mqtt/State/Transitions.antt =====
-- src/mqtt/state.rs: only transitions are published, and all of them.
use buddy3d_proxy.Prelude.{
  ◌≡◌, ◌≢◌, refl, sym, ap, ◌∙◌, ◌==◌, Bool, true, false, not, ◌&&◌, if◌then◌else◌, ==_iff, List, [],
  ◌∷◌, ◌++◌, arith,
}
use buddy3d_proxy.Prelude.Text.{Text, same_text}
use buddy3d_proxy.Supervisor.{State}
use buddy3d_proxy.Mqtt.State.{translate, Watcher, start, publish_changed, turn, run_watcher}

same_text_refl : (t : Text) → same_text t t ≡ true
unfolding same_text
same_text_refl [] = refl
same_text_refl (b ∷ t) = ground (arith, same_text_refl t)

and-true : (x y : Bool) → (x && y) ≡ true → (x ≡ true) × (y ≡ true)
and-true true y h = (refl, h)
and-true false y h = ground (arith, h)

same_text_sound : (s t : Text) → same_text s t ≡ true → s ≡ t
unfolding same_text
same_text_sound [] [] h = refl
same_text_sound [] (b ∷ t) h = ground (arith, h)
same_text_sound (a ∷ s) [] h = ground (arith, h)
same_text_sound (a ∷ s) (b ∷ t) h =
    let (e, e') = and-true (a == b) (same_text s t) h in
    ap (λ x. x ∷ s) ((==_iff a b).0 e) ∙ ap (◌∷◌ b) (same_text_sound s t e')

-- No publication equals the one before it, and the last of them is `last`.
abbrev pub IsTrace : Text → List Text → Text → Type 0
IsTrace first [] last = first ≡ last
IsTrace first (next ∷ rest) last = (first ≢ next) × IsTrace next rest last

abbrev pub IsTransitions : List Text → Text → Type 0
IsTransitions [] last = ⊥
IsTransitions (first ∷ rest) last = IsTrace first rest last

IsTrace-append :
    (first : Text) (rest : List Text) (last now : Text)
    → IsTrace first rest last
    → last ≢ now
    → IsTrace first (rest ++ (now ∷ [])) now
IsTrace-append first [] last now e n = ((λ d. n (sym e ∙ d)), refl)
IsTrace-append first (next ∷ rest) last now (d, h) n = (d, IsTrace-append next rest last now h n)

IsTransitions-append :
    (published : List Text) (last now : Text)
    → IsTransitions published last
    → last ≢ now
    → IsTransitions (published ++ (now ∷ [])) now
IsTransitions-append [] last now h n = absurd h
IsTransitions-append (first ∷ rest) last now h n = IsTrace-append first rest last now h n

-- What was read is published unless it was the last publication.
publish_changed-choice :
    (w : Watcher) (now : Text) (b : Bool)
    → same_text now w.last ≡ b
    → IsTransitions w.published w.last
    → let w' : Watcher =
        if not b then record { last = now; published = w.published ++ (now ∷ []) } else w in
      IsTransitions w'.published w'.last × (w'.last ≡ now)
publish_changed-choice w now true e h = (h, sym (same_text_sound now w.last e))
publish_changed-choice w now false e h = (
  IsTransitions-append w.published w.last now h
      (λ d. ground (arith, sym (ap (λ t. same_text now t) d ∙ same_text_refl now) ∙ e)),
  refl,
)

turn-IsTransitions :
    (w : Watcher) (state : State) (failed : Bool)
    → IsTransitions w.published w.last
    → IsTransitions (turn w state failed).published (turn w state failed).last
      × ((turn w state failed).last ≡ translate state failed)
unfolding turn publish_changed
turn-IsTransitions w state failed h =
    publish_changed-choice w (translate state failed) (same_text (translate state failed) w.last)
      refl h

-- What was read last.
abbrev pub latest : State × Bool → List (State × Bool) → Text
latest (state, failed) [] = translate state failed
latest first (next ∷ seen) = latest next seen

run_watcher-from :
    (w : Watcher) (first : State × Bool) (seen : List (State × Bool))
    → IsTransitions w.published w.last
    → w.last ≡ latest first []
    → IsTransitions (run_watcher w seen).published (run_watcher w seen).last
      × ((run_watcher w seen).last ≡ latest first seen)
unfolding run_watcher
run_watcher-from w first [] h e = (h, e)
run_watcher-from w first ((state, failed) ∷ seen) h e =
    let (h', e') = turn-IsTransitions w state failed h in
    run_watcher-from (turn w state failed) (state, failed) seen h' e'

-- Whatever the watcher reads, no publication equals the one before it, and the last publication is
-- the state that was read last.
pub run_watcher-IsTransitions :
    (state : State) (failed : Bool) (seen : List (State × Bool))
    → IsTransitions
        (run_watcher (start state failed) seen).published
        (run_watcher (start state failed) seen).last
      × ((run_watcher (start state failed) seen).last ≡ latest (state, failed) seen)
unfolding start
run_watcher-IsTransitions state failed seen =
    run_watcher-from (start state failed) (state, failed) seen refl refl
