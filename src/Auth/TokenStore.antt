-- ===== src/Auth/TokenStore.antt =====
-- src/token_store.rs: the tokens in a file. A file is its bytes, if it exists. What the file system
-- does to a call is given: the step that fails, or nothing. serde_json is a parameter.
pub mod Atomic
use buddy3d_proxy.Prelude.{ℕ, ◌*◌, ◌^◌, Option, none, some}
use buddy3d_proxy.Prelude.Text.{Text}
use buddy3d_proxy.Prelude.Results.{Result, success, failure}

pub record StoredTokens : Type 0 where
  pub access_token : Text
  pub refresh_token : Text
  pub access_expires_at : ℕ

-- In nanoseconds
unfoldable pub access_expires : StoredTokens → ℕ
access_expires t = t.access_expires_at * 10 ^ 9

pub data TokenStoreError : Type 0 where
  io : Text → TokenStoreError
  parse : Text → TokenStoreError

-- The file of the store, and the one beside it that is written first
pub record Files : Type 0 where
  pub dst : Option Text
  pub tmp : Option Text

pub record Serde : Type 0 where
  pub to_bytes : StoredTokens → Text
  pub from_slice : Text → Result Text StoredTokens

-- What the system does to a save: a directory or the file cannot be made, the writing stops after
-- some bytes, the bytes cannot be made durable, or the file cannot be renamed.
pub data Fault : Type 0 where
  no_fault : Fault
  no_directory : Text → Fault
  no_file : Text → Fault
  stopped : Text → Text → Fault
  not_synced : Text → Fault
  not_renamed : Text → Fault

abbrev parsed : Result Text StoredTokens → Result TokenStoreError (Option StoredTokens)
parsed (success tokens) = success (some tokens)
parsed (failure e) = failure (parse e)

module _ (serde : Serde) where
  abbrev read_file : Option Text → Result TokenStoreError (Option StoredTokens)
  read_file none = success none
  read_file (some bytes) = parsed (serde.from_slice bytes)

  -- Reading the file fails with `denied` when it is not only missing.
  unfoldable pub load : Option Text → Files → Result TokenStoreError (Option StoredTokens)
  load (some denied) files = failure (io denied)
  load none files = read_file files.dst

  -- The steps up to the rename, which is one step of the file system
  unfoldable pub write_atomic :
      Fault → StoredTokens → Files → Files × Result TokenStoreError (Unit {0})
  write_atomic (no_file e) tokens files = (files, failure (io e))
  write_atomic (stopped bytes e) tokens files =
      (record files { tmp = some bytes }, failure (parse e))
  write_atomic (not_synced e) tokens files =
      (record files { tmp = some (serde.to_bytes tokens) }, failure (io e))
  write_atomic (not_renamed e) tokens files =
      (record files { tmp = some (serde.to_bytes tokens) }, failure (io e))
  write_atomic _ tokens files =
      (record { dst = some (serde.to_bytes tokens); tmp = none }, success tt)

  unfoldable pub save : Fault → StoredTokens → Files → Files × Result TokenStoreError (Unit {0})
  unfolding write_atomic
  save (no_directory e) tokens files = (files, failure (io e))
  save fault tokens files = write_atomic fault tokens files
