-- ===== src/Prusa/Signaling/Json.antt =====
-- What the signaling code uses of serde_json: a value, its text, and its parts. The crate is a
-- parameter; an error of the parser is its message.
pub mod Toy
use buddy3d_proxy.Prelude.{ℕ, Bool, Option, List}
use buddy3d_proxy.Prelude.Text.{Text}
use buddy3d_proxy.Prelude.Results.{Result}

pub record Json (Value : Type 0) : Type 0 where
  pub from_str : Text → Result Text Value
  pub array_from_str : Text → Result Text (List Value)
  pub to_string : Value → Text
  pub array_to_string : List Value → Text
  pub string : Text → Value
  pub bool : Bool → Value
  pub number : ℕ → Value
  pub object : List (Text × Value) → Value
  pub array : List Value → Value
  pub as_str : Value → Option Text
  pub as_array : Value → Option (List Value)
  pub as_bool : Value → Option Bool
  pub as_u64 : Value → Option ℕ
  pub get : Value → Text → Option Value
  pub debug_array : List Value → Text
