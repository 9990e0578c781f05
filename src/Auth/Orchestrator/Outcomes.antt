-- ===== src/Auth/Orchestrator/Outcomes.antt =====
-- src/prusa/auth.rs: what a call for a token gives, and what it leaves.
use buddy3d_proxy.Prelude.{
  arith, ◌≡◌, refl, ◌⊎◌, inl, inr, Bool, true, false, ◌||◌, Bool-cases, Option, none, some,
}
use buddy3d_proxy.Prelude.Text.{Text}
use buddy3d_proxy.Prelude.Results.{Result, success, failure, Result-cases}
use buddy3d_proxy.Auth.TokenStore.{StoredTokens, TokenStoreError, Files, Serde, save, load}
use buddy3d_proxy.Auth.TokenStore.Atomic.{save-cases}
use buddy3d_proxy.Auth.Login.{
  network, server_error, client_error, AuthError, http, no_csrf, login_rejected, no_auth_code,
  bad_token_response, Account, stored, bootstrap, refresh,
}
use buddy3d_proxy.Auth.Orchestrator.{
  AuthOrchestrator, Call, access_about_to_expire, latch, bootstrap_and_latch, after_refresh,
  new_tokens, keep, keep_saved, with_loaded, after_load, from_state, access_token,
}

abbrev pub is_login_rejected : AuthError → Bool
is_login_rejected (login_rejected status body_preview) = true
is_login_rejected _ = false

abbrev pub is_rejected {ℓ} : {A : Type ℓ} → Result AuthError A → Bool
is_rejected (success a) = false
is_rejected (failure e) = is_login_rejected e

module _ {Url : Type 0} (serde : Serde) (c : Call Url) where
  -- The server has given the tokens in this call.
  abbrev pub IsFromServer : StoredTokens → Type 0
  IsFromServer t =
      (bootstrap c.account ≡ success t) ⊎ ((token : Text) × (refresh c.account token ≡ success t))

  abbrev IsNew : Bool → Bool × Result AuthError StoredTokens → Type 0
  IsNew failed (f, success t) = (f ≡ failed) × IsFromServer t
  IsNew failed (f, failure e) = f ≡ (failed || is_login_rejected e)

  or-false : (b : Bool) → b ≡ (b || false)
  or-false true = refl
  or-false false = refl

  or-true : (b : Bool) → true ≡ (b || true)
  or-true true = refl
  or-true false = refl

  latch-IsNew :
      (failed : Bool) (r : Result AuthError StoredTokens)
      → bootstrap c.account ≡ r
      → IsNew failed (latch failed r, r)
  unfolding latch
  latch-IsNew failed (success t) e = (refl, inl e)
  latch-IsNew failed (failure (http h)) e = or-false failed
  latch-IsNew failed (failure no_csrf) e = or-false failed
  latch-IsNew failed (failure (login_rejected status body)) e = or-true failed
  latch-IsNew failed (failure no_auth_code) e = or-false failed
  latch-IsNew failed (failure (bad_token_response s)) e = or-false failed

  bootstrap_and_latch-IsNew : (failed : Bool) → IsNew failed (bootstrap_and_latch serde c failed)
  unfolding bootstrap_and_latch
  bootstrap_and_latch-IsNew failed = latch-IsNew failed (bootstrap c.account) refl

  -- A refresh is never taken for a rejected login.
  after_refresh-IsNew :
      (failed : Bool) (token : Text) (r : Result AuthError StoredTokens)
      → refresh c.account token ≡ r
      → is_rejected r ≡ false
      → IsNew failed (after_refresh serde c failed r)
  unfolding after_refresh
  after_refresh-IsNew failed token (success t) e n = (refl, inr (token, e))
  after_refresh-IsNew failed token (failure (http (client_error status body))) e n =
      bootstrap_and_latch-IsNew failed
  after_refresh-IsNew failed token (failure (http (network m))) e n = or-false failed
  after_refresh-IsNew failed token (failure (http (server_error status body))) e n = or-false failed
  after_refresh-IsNew failed token (failure no_csrf) e n = or-false failed
  after_refresh-IsNew failed token (failure (login_rejected status body)) e n = ground (arith, n)
  after_refresh-IsNew failed token (failure no_auth_code) e n = or-false failed
  after_refresh-IsNew failed token (failure (bad_token_response s)) e n = or-false failed

stored-is_rejected :
    {Url : Type 0} (account : Account Url) (resp : Text) → is_rejected (stored account resp) ≡ false
unfolding stored
stored-is_rejected account resp = elim (Result-cases (account.token_response resp)) [
  | inr (m, e) ↦ rw (e) refl
  | inl (tokens, e) ↦ rw (e) (elim (Result-cases (account.read_exp tokens.access_token)) [
    | inr (m, e') ↦ rw (e') refl
    | inl (at, e') ↦ rw (e') refl
  ])
]

refresh-is_rejected :
    {Url : Type 0} (account : Account Url) (token : Text)
    → is_rejected (refresh account token) ≡ false
unfolding refresh stored
refresh-is_rejected account token = elim (Result-cases account.token_url) [
  | inr (m, e) ↦ rw (e) refl
  | inl (url, e) ↦ rw (e) (elim (Result-cases (account.refresh_call token)) [
    | inr (m, e') ↦ rw (e') refl
    | inl (resp, e') ↦ rw (e') (stored-is_rejected account resp)
  ])
]

module _ {Url : Type 0} (serde : Serde) (c : Call Url) where
  -- What a call gives and leaves: a token is that of the tokens in memory, which are not about to
  -- expire, or which the server has given now and the store holds.
  abbrev pub IsOutcome : AuthOrchestrator → AuthOrchestrator × Result AuthError Text → Type 0
  IsOutcome a (b, success token) =
      (b.failed ≡ a.failed)
      × ((t : StoredTokens) × (b.state ≡ some t)
          × (token ≡ t.access_token)
          × ((access_about_to_expire c.now t ≡ false)
              ⊎ (IsFromServer serde c t × (b.files.dst ≡ some (serde.to_bytes t)))))
  IsOutcome a (b, failure e) = b.failed ≡ (a.failed || is_login_rejected e)

  keep_saved-IsOutcome :
      (a : AuthOrchestrator) (t : StoredTokens) (saved : Files × Result TokenStoreError (Unit {0}))
      → IsFromServer serde c t
      → ((saved.1 ≡ success tt) × (saved.0.dst ≡ some (serde.to_bytes t)))
        ⊎ ((e : TokenStoreError) × (saved.1 ≡ failure e) × (saved.0.dst ≡ a.files.dst))
      → IsOutcome a (keep_saved serde c a t saved)
  keep_saved-IsOutcome a t (files, failure e) s h = or-false serde c a.failed
  keep_saved-IsOutcome a t (files, success done) s (inl (q, d)) =
      (refl, (t, refl, refl, inr (s, d)))
  keep_saved-IsOutcome a t (files, success done) s (inr (e, q, d)) = absurd (ground (arith, q))

  keep-IsOutcome :
      (a : AuthOrchestrator) (r : Bool × Result AuthError StoredTokens)
      → IsNew serde c a.failed r
      → IsOutcome a (keep serde c a r)
  unfolding keep
  keep-IsOutcome a (f, failure e) h = h
  keep-IsOutcome a (f, success t) (h, s) = rw (h) (
      keep_saved-IsOutcome a t (save serde c.fault t a.files) s
        (save-cases serde c.fault t a.files))

  new_tokens-IsNew :
      (failed : Bool) (state : Option StoredTokens)
      → IsNew serde c failed (new_tokens serde c failed state)
  unfolding new_tokens
  new_tokens-IsNew failed none = bootstrap_and_latch-IsNew serde c failed
  new_tokens-IsNew failed (some t) =
      after_refresh-IsNew serde c failed t.refresh_token (refresh c.account t.refresh_token) refl
        (refresh-is_rejected c.account t.refresh_token)

  with_loaded-IsOutcome :
      (a : AuthOrchestrator) (state : Option StoredTokens)
      → a.state ≡ state
      → IsOutcome a (with_loaded serde c a state)
  unfolding with_loaded
  with_loaded-IsOutcome a none e = keep-IsOutcome a _ (new_tokens-IsNew a.failed none)
  with_loaded-IsOutcome a (some t) e = elim (Bool-cases (access_about_to_expire c.now t)) [
    | inl h ↦ rw (h) (keep-IsOutcome a _ (new_tokens-IsNew a.failed (some t)))
    | inr h ↦ rw (h) (refl, (t, e, refl, inl h))
  ]

  after_load-IsOutcome :
      (a : AuthOrchestrator) (loaded : Result TokenStoreError (Option StoredTokens))
      → IsOutcome a (after_load serde c a loaded)
  after_load-IsOutcome a (failure e) = or-false serde c a.failed
  after_load-IsOutcome a (success loaded) =
      with_loaded-IsOutcome (record a { state = loaded }) loaded refl

  from_state-IsOutcome :
      (a : AuthOrchestrator) (state : Option StoredTokens)
      → a.state ≡ state
      → IsOutcome a (from_state serde c a state)
  from_state-IsOutcome a none e = after_load-IsOutcome a (load serde c.denied a.files)
  from_state-IsOutcome a (some t) e = with_loaded-IsOutcome a (some t) e

  -- A call for a token that succeeds gives the access token that is then in memory; it has a minute
  -- left at least, or the account server gave it in this very call, at a refresh or a login, and then
  -- the store holds it too. The latch is never cleared, and a call sets it exactly when it fails with a
  -- rejected login.
  pub access_token-IsOutcome : (a : AuthOrchestrator) → IsOutcome a (access_token serde c a)
  unfolding access_token
  access_token-IsOutcome a = from_state-IsOutcome a a.state refl
