-- ===== src/Prusa/Signaling/Json/Toy.antt =====
-- A small notation for values, which stands for serde_json in the examples. An object is its last
-- member.
use buddy3d_proxy.Prelude.{
  ℕ, suc, ◌==◌, Bool, true, false, Option, none, some, List, [], ◌∷◌, ◌++◌, length, take, drop,
}
use buddy3d_proxy.Prelude.Text.{Text, codes}
use buddy3d_proxy.Prelude.Results.{Result, success, failure}
use buddy3d_proxy.Prusa.Signaling.Json.{Json}

pub data Value : Type 0 where
  word : Text → Value
  flag : Bool → Value
  figure : ℕ → Value

abbrev write : List Value → Text
write [] = []
write (word s ∷ rest) = 0 ∷ length s ∷ (s ++ write rest)
write (flag b ∷ rest) = write rest
write (figure n ∷ rest) = 1 ∷ n ∷ write rest

abbrev read : ℕ → Text → List Value
read (suc fuel) (tag ∷ n ∷ rest) = elim (tag == 0) [
  | true ↦ word (take n rest) ∷ read fuel (drop n rest)
  | false ↦ figure n ∷ read fuel rest
]
read _ _ = []

abbrev read_array : Text → Result Text (List Value)
read_array [] = failure (codes "no array")
read_array (b ∷ rest) = success (read (length rest) rest)

abbrev last_value : List (Text × Value) → Value
last_value [] = figure 0
last_value ((key, v) ∷ []) = v
last_value (p ∷ q ∷ rest) = last_value (q ∷ rest)

abbrev word_of : Value → Option Text
word_of (word s) = some s
word_of _ = none

abbrev flag_of : Value → Option Bool
flag_of (flag b) = some b
flag_of _ = none

abbrev figure_of : Value → Option ℕ
figure_of (figure n) = some n
figure_of _ = none

abbrev pub toy : Json Value
toy = record {
  from_str = λ s. success (word s);
  array_from_str = read_array;
  to_string = λ v. write (v ∷ []);
  array_to_string = λ vs. b'[' ∷ write vs;
  string = word;
  bool = flag;
  number = figure;
  object = last_value;
  array = λ vs. figure (length vs);
  as_str = word_of;
  as_array = λ v. none;
  as_bool = flag_of;
  as_u64 = figure_of;
  get = λ v key. some v;
  debug_array = write;
}
