-- ===== src/Auth/Jwt.antt =====
-- src/jwt.rs: when a token expires. base64, serde_json and the floating-point numbers are parameters.
use buddy3d_proxy.Prelude.{ℕ, Option, none, some, List, [], ◌∷◌}
use buddy3d_proxy.Prelude.Text.{Text, codes, split}
use buddy3d_proxy.Prelude.Results.{Result, success, failure, ok_or, ◌>>=◌}

pub data JwtError : Type 0 where
  malformed : JwtError
  base64_error : JwtError
  json_error : JwtError
  missing_exp : JwtError

-- The crates: a floating-point number is given by its whole seconds; one that is negative, too large or
-- no number has none, and makes `Duration::from_secs_f64` panic.
pub record Claims (Value : Type 0) : Type 0 where
  pub decode : Text → Option Text
  pub from_slice : Text → Option Value
  pub get : Value → Text → Option Value
  pub as_f64 : Value → Option (Option ℕ)

-- Three parts, and the one in the middle
unfoldable pub payload_of : List Text → Result JwtError Text
payload_of (header ∷ payload ∷ sig ∷ []) = success payload
payload_of _ = failure malformed

module _ {Value : Type 0} (claims : Claims Value) where
  abbrev exp_claim : Option Value → Option (Option ℕ)
  exp_claim none = none
  exp_claim (some v) = claims.as_f64 v

  -- The expiry in whole seconds of the epoch, or `none` for a panic.
  unfoldable pub read_exp : Text → Result JwtError (Option ℕ)
  unfolding payload_of split
  read_exp jwt = do
    payload ← payload_of (split b'.' jwt)
    bytes ← ok_or (claims.decode payload) base64_error
    json ← ok_or (claims.from_slice bytes) json_error
    ok_or (exp_claim (claims.get json (codes "exp"))) missing_exp
