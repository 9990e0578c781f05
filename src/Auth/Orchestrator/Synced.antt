-- ===== src/Auth/Orchestrator/Synced.antt =====
-- src/prusa/auth.rs: the tokens in memory and those of the store.
use buddy3d_proxy.Prelude.{
  ◌≡◌, refl, ◌∙◌, ◌⊎◌, inl, inr, Bool, Bool-cases, Option, none, some, List, [], ◌∷◌, arith,
}
use buddy3d_proxy.Prelude.Text.{Text}
use buddy3d_proxy.Prelude.Results.{Result, success, failure}
use buddy3d_proxy.Auth.TokenStore.{StoredTokens, TokenStoreError, Files, Serde, save, load}
use buddy3d_proxy.Auth.TokenStore.Atomic.{save-cases, load-dst, load-saved}
use buddy3d_proxy.Auth.Login.{AuthError}
use buddy3d_proxy.Auth.Orchestrator.{
  AuthOrchestrator, Call, access_about_to_expire, new, new_tokens, keep, keep_saved, with_loaded,
  after_load, from_state, access_token, access_token_all,
}

-- The tokens, if there are any, are those that a restart would load.
abbrev pub IsCached : Serde → Option StoredTokens → Files → Type 0
IsCached serde none files = Unit {0}
IsCached serde (some t) files = load serde none files ≡ success (some t)

abbrev pub IsSynced : Serde → AuthOrchestrator → Type 0
IsSynced serde a = IsCached serde a.state a.files

IsCached-dst :
    (serde : Serde) (state : Option StoredTokens) (files files' : Files)
    → files'.dst ≡ files.dst
    → IsCached serde state files
    → IsCached serde state files'
IsCached-dst serde none files files' e h = tt
IsCached-dst serde (some t) files files' e h = load-dst serde files' files e ∙ h

-- What could be read is what a restart would load.
load-IsCached :
    (serde : Serde) (denied : Option Text) (files : Files) (loaded : Option StoredTokens)
    → load serde denied files ≡ success loaded
    → IsCached serde loaded files
unfolding load
load-IsCached serde denied files none e = tt
load-IsCached serde none files (some t) e = e
load-IsCached serde (some m) files (some t) e = ground (arith, e)

module _ {Url : Type 0} (serde : Serde)
    (reads_back : (t : StoredTokens) → serde.from_slice (serde.to_bytes t) ≡ success t)
    (c : Call Url) where
  keep_saved-IsSynced :
      (a : AuthOrchestrator) (t : StoredTokens) (saved : Files × Result TokenStoreError (Unit {0}))
      → IsSynced serde a
      → ((saved.1 ≡ success tt) × (saved.0.dst ≡ some (serde.to_bytes t)))
        ⊎ ((e : TokenStoreError) × (saved.1 ≡ failure e) × (saved.0.dst ≡ a.files.dst))
      → IsSynced serde (keep_saved serde c a t saved).0
  keep_saved-IsSynced a t (files, failure m) s (inl (q, d)) = absurd (ground (arith, q))
  keep_saved-IsSynced a t (files, failure m) s (inr (e, q, d)) =
      IsCached-dst serde a.state a.files files d s
  keep_saved-IsSynced a t (files, success done) s (inl (q, d)) =
      load-saved serde t files (reads_back t) d
  keep_saved-IsSynced a t (files, success done) s (inr (e, q, d)) = absurd (ground (arith, q))

  keep-IsSynced :
      (a : AuthOrchestrator) (r : Bool × Result AuthError StoredTokens)
      → IsSynced serde a
      → IsSynced serde (keep serde c a r).0
  unfolding keep
  keep-IsSynced a (f, failure e) s = s
  keep-IsSynced a (f, success t) s =
      keep_saved-IsSynced (record a { failed = f }) t (save serde c.fault t a.files) s
        (save-cases serde c.fault t a.files)

  with_loaded-IsSynced :
      (a : AuthOrchestrator) (state : Option StoredTokens)
      → IsSynced serde a
      → IsSynced serde (with_loaded serde c a state).0
  unfolding with_loaded
  with_loaded-IsSynced a none s = keep-IsSynced a (new_tokens serde c a.failed none) s
  with_loaded-IsSynced a (some t) s = elim (Bool-cases (access_about_to_expire c.now t)) [
    | inl e ↦ rw (e) (keep-IsSynced a (new_tokens serde c a.failed (some t)) s)
    | inr e ↦ rw (e) s
  ]

  after_load-IsSynced :
      (a : AuthOrchestrator) (loaded : Result TokenStoreError (Option StoredTokens))
      → load serde c.denied a.files ≡ loaded
      → IsSynced serde a
      → IsSynced serde (after_load serde c a loaded).0
  after_load-IsSynced a (failure m) e s = s
  after_load-IsSynced a (success loaded) e s =
      with_loaded-IsSynced (record a { state = loaded }) loaded
        (load-IsCached serde c.denied a.files loaded e)

  from_state-IsSynced :
      (a : AuthOrchestrator) (state : Option StoredTokens)
      → IsSynced serde a
      → IsSynced serde (from_state serde c a state).0
  from_state-IsSynced a none s = after_load-IsSynced a (load serde c.denied a.files) refl s
  from_state-IsSynced a (some t) s = with_loaded-IsSynced a (some t) s

  access_token-IsSynced :
      (a : AuthOrchestrator) → IsSynced serde a → IsSynced serde (access_token serde c a).0
  unfolding access_token
  access_token-IsSynced a s = from_state-IsSynced a a.state s

access_token_all-kept :
    {Url : Type 0} (serde : Serde) (calls : List (Call Url)) (a : AuthOrchestrator)
    → ((t : StoredTokens) → serde.from_slice (serde.to_bytes t) ≡ success t)
    → IsSynced serde a
    → IsSynced serde (access_token_all serde calls a)
unfolding access_token_all
access_token_all-kept serde [] a reads_back s = s
access_token_all-kept serde (c ∷ calls) a reads_back s =
    access_token_all-kept serde calls (access_token serde c a).0 reads_back
      (access_token-IsSynced serde reads_back c a s)

-- However the calls for a token follow one another, and whatever fails in them, the tokens in memory
-- are those that a restart would load from the store: a refresh token that the server has replaced
-- is never the one that is left on the disk while the new one is in use. serde_json reads back the tokens
-- that it writes, and nobody else writes the file.
pub access_token_all-IsSynced :
    {Url : Type 0} (serde : Serde) (calls : List (Call Url)) (files : Files)
    → ((t : StoredTokens) → serde.from_slice (serde.to_bytes t) ≡ success t)
    → IsSynced serde (access_token_all serde calls (new files))
unfolding new
access_token_all-IsSynced serde calls files reads_back =
    access_token_all-kept serde calls (new files) reads_back tt
