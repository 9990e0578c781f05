-- ===== src/Auth/Orchestrator.antt =====
-- src/prusa/auth.rs: `AuthOrchestrator`. A call holds the lock of its state from beginning to end, so
-- calls are one behind the other. A call is given by the time, what the file system does, and what
-- the account server answers.
pub mod Outcomes
pub mod Synced
mod Examples
use mathlib.Core.Option as Option
use buddy3d_proxy.Prelude.{
  ℕ, ◌-◌, ◌*◌, ◌^◌, leb, ltb, if◌then◌else◌, Bool, true, false, Option, none, some, List, [], ◌∷◌,
}
use buddy3d_proxy.Prelude.Text.{Text}
use buddy3d_proxy.Prelude.Results.{Result, success, failure}
use buddy3d_proxy.Auth.TokenStore.{
  StoredTokens, access_expires, TokenStoreError, Files, Serde, Fault, load, save,
}
use buddy3d_proxy.Auth.Login.{
  HttpError, client_error, AuthError, http, login_rejected, bad_token_response, Account, bootstrap,
  refresh,
}

pub record AuthOrchestrator : Type 0 where
  pub state : Option StoredTokens
  pub files : Files
  pub failed : Bool

unfoldable pub new : Files → AuthOrchestrator
new files = record { state = none; files = files; failed = false }

-- What a call meets.
pub record Call (Url : Type 0) : Type 0 where
  pub now : ℕ
  pub denied : Option Text
  pub fault : Fault
  pub account : Account Url
  pub message : TokenStoreError → Text

-- Less than a minute is left, in nanoseconds.
unfoldable pub access_about_to_expire : ℕ → StoredTokens → Bool
unfolding access_expires
access_about_to_expire now tokens =
    if leb now (access_expires tokens)
    then ltb (access_expires tokens - now) (60 * 10 ^ 9)
    else true

-- A rejected login sets the latch.
unfoldable pub latch : Bool → Result AuthError StoredTokens → Bool
latch failed (failure (login_rejected status body_preview)) = true
latch failed _ = failed

module _ {Url : Type 0} (serde : Serde) (c : Call Url) where
  unfoldable pub bootstrap_and_latch : Bool → Bool × Result AuthError StoredTokens
  unfolding latch
  bootstrap_and_latch failed = let r = bootstrap c.account in (latch failed r, r)

  -- A refresh token that the server refuses is given up for a new login.
  unfoldable pub after_refresh :
      Bool → Result AuthError StoredTokens → Bool × Result AuthError StoredTokens
  unfolding bootstrap_and_latch
  after_refresh failed (failure (http (client_error status body))) = bootstrap_and_latch failed
  after_refresh failed r = (failed, r)

  unfoldable pub new_tokens : Bool → Option StoredTokens → Bool × Result AuthError StoredTokens
  unfolding after_refresh bootstrap_and_latch
  new_tokens failed (some t) = after_refresh failed (refresh c.account t.refresh_token)
  new_tokens failed none = bootstrap_and_latch failed

  abbrev pub keep_saved :
      AuthOrchestrator
      → StoredTokens
      → Files × Result TokenStoreError (Unit {0})
      → AuthOrchestrator × Result AuthError Text
  keep_saved a tokens (files, failure e) =
      (record a { files = files }, failure (bad_token_response (c.message e)))
  keep_saved a tokens (files, success done) =
      (record a { files = files; state = some tokens }, success tokens.access_token)

  -- New tokens are saved before they are used.
  unfoldable pub keep :
      AuthOrchestrator
      → Bool × Result AuthError StoredTokens
      → AuthOrchestrator × Result AuthError Text
  keep a (failed, failure e) = (record a { failed = failed }, failure e)
  keep a (failed, success tokens) =
      keep_saved (record a { failed = failed }) tokens (save serde c.fault tokens a.files)

  -- With the tokens that are in memory or in the store, if there are any
  unfoldable pub with_loaded :
      AuthOrchestrator → Option StoredTokens → AuthOrchestrator × Result AuthError Text
  unfolding keep access_about_to_expire
  with_loaded a none = keep a (new_tokens a.failed none)
  with_loaded a (some t) =
      if access_about_to_expire c.now t
      then keep a (new_tokens a.failed (some t))
      else (a, success t.access_token)

  abbrev pub after_load :
      AuthOrchestrator
      → Result TokenStoreError (Option StoredTokens)
      → AuthOrchestrator × Result AuthError Text
  after_load a (failure e) = (a, failure (bad_token_response (c.message e)))
  after_load a (success loaded) = with_loaded (record a { state = loaded }) loaded

  abbrev pub from_state :
      AuthOrchestrator → Option StoredTokens → AuthOrchestrator × Result AuthError Text
  from_state a none = after_load a (load serde c.denied a.files)
  from_state a (some tokens) = with_loaded a (some tokens)

  unfoldable pub access_token : AuthOrchestrator → AuthOrchestrator × Result AuthError Text
  unfolding with_loaded
  access_token a = from_state a a.state

-- Calls, one behind the other
unfoldable pub access_token_all :
    {Url : Type 0} → Serde → List (Call Url) → AuthOrchestrator → AuthOrchestrator
access_token_all serde [] a = a
access_token_all serde (c ∷ calls) a = access_token_all serde calls (access_token serde c a).0
