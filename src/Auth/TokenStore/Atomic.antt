-- ===== src/Auth/TokenStore/Atomic.antt =====
-- src/token_store.rs: a save is done or not done.
use buddy3d_proxy.Prelude.{◌≡◌, refl, ◌∙◌, ◌⊎◌, inl, inr, none, some}
use buddy3d_proxy.Prelude.Results.{success, failure}
use buddy3d_proxy.Auth.TokenStore.{
  StoredTokens, TokenStoreError, Files, Serde, Fault, no_fault, no_directory, no_file, stopped,
  not_synced, not_renamed, load, save,
}

module _ (serde : Serde) where
  -- A save succeeds and the store holds the tokens, or it fails and the store is as before.
  pub save-cases :
      (fault : Fault) (tokens : StoredTokens) (files : Files)
      → (((save serde fault tokens files).1 ≡ success tt)
          × ((save serde fault tokens files).0.dst ≡ some (serde.to_bytes tokens)))
        ⊎ ((e : TokenStoreError) × ((save serde fault tokens files).1 ≡ failure e)
            × ((save serde fault tokens files).0.dst ≡ files.dst))
  unfolding save
  save-cases no_fault tokens files = inl (refl, refl)
  save-cases (no_directory e) tokens files = inr (_, refl, refl)
  save-cases (no_file e) tokens files = inr (_, refl, refl)
  save-cases (stopped bytes e) tokens files = inr (_, refl, refl)
  save-cases (not_synced e) tokens files = inr (_, refl, refl)
  save-cases (not_renamed e) tokens files = inr (_, refl, refl)

  -- What is read depends on the store's own file.
  pub load-dst : (a b : Files) → a.dst ≡ b.dst → load serde none a ≡ load serde none b
  unfolding load
  load-dst a b e = rw (e) refl

  load-written :
      (tokens : StoredTokens)
      → serde.from_slice (serde.to_bytes tokens) ≡ success tokens
      → load serde none (record { dst = some (serde.to_bytes tokens); tmp = none })
        ≡ success (some tokens)
  unfolding load
  load-written tokens h = rw (h) refl

  -- The saved tokens are read back.
  pub load-saved :
      (tokens : StoredTokens) (files : Files)
      → serde.from_slice (serde.to_bytes tokens) ≡ success tokens
      → files.dst ≡ some (serde.to_bytes tokens)
      → load serde none files ≡ success (some tokens)
  load-saved tokens files h e =
      let written : Files = record { dst = some (serde.to_bytes tokens); tmp = none } in
      load-dst files written e ∙ load-written tokens h
