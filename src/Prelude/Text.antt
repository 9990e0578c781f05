-- ===== src/Prelude/Text.antt =====
-- The functions of Rust's `str` that the program calls. A text is its bytes in UTF-8, as in Rust, so
-- a length counts bytes and a split at an ASCII byte is a split at that character.
use Prim.Native.Char.{code}
use Prim.Native.String.{String}
use Prim.Native.Nat.{ℕ, zero, suc, ◌+◌, ◌-◌}
use mathlib.Core.Bool.{Bool, true, false, ◌&&◌, ◌||◌}
use mathlib.Core.Option.{Option, none, some}
use mathlib.Core.List.{List, [], ◌∷◌}
use buddy3d_proxy.Prelude.Tests.{leb, if◌then◌else◌, ◌==◌}

abbrev pub Text : Type 0
Text = List ℕ

-- A text of ASCII characters.
abbrev pub codes : String → Text
codes String.[] = []
codes (String.◌∷◌ c s) = code c ∷ codes s

unfoldable pub same_text : Text → Text → Bool
same_text [] [] = true
same_text [] (b ∷ bs) = false
same_text (a ∷ r) [] = false
same_text (a ∷ r) (b ∷ bs) = a == b && same_text r bs

unfoldable pub strip_prefix : Text → Text → Option Text
strip_prefix [] s = some s
strip_prefix (p ∷ ps) [] = none
strip_prefix (p ∷ ps) (b ∷ bs) = let rest = strip_prefix ps bs in if p == b then rest else none

-- The place of a match here, or further on.
abbrev pub here_or : Option Text → Option ℕ → Option ℕ
here_or (some rest) further = some 0
here_or none none = none
here_or none (some n) = some (n + 1)

-- The first place where `needle`, which is not empty, stands in a text.
unfoldable pub find_subslice : Text → Text → Option ℕ
unfolding strip_prefix
find_subslice [] needle = none
find_subslice (b ∷ bs) needle = here_or (strip_prefix needle (b ∷ bs)) (find_subslice bs needle)

abbrev is_found : Option ℕ → Bool
is_found none = false
is_found (some n) = true

unfoldable pub contains : Text → Text → Bool
unfolding find_subslice
contains s needle = is_found (find_subslice s needle)

abbrev prepend : ℕ → List Text → List Text
prepend b [] = (b ∷ []) ∷ []
prepend b (l ∷ ls) = (b ∷ l) ∷ ls

-- `split` at an ASCII character
unfoldable pub split : ℕ → Text → List Text
split sep [] = [] ∷ []
split sep (b ∷ bs) = let more = split sep bs in if b == sep then [] ∷ more else prepend b more

-- `split("\r\n")`; the flag says that the byte before was a `\r`, which is held back.
unfoldable pub split_crlf : Bool → Text → List Text
split_crlf false [] = [] ∷ []
split_crlf true [] = (b'\r' ∷ []) ∷ []
split_crlf held (b ∷ bs) =
    let more = split_crlf (b == b'\r') bs in
    let now = if b == b'\r' then more else prepend b more in
    if held then (if b == b'\n' then [] ∷ more else prepend b'\r' now) else now

abbrev pub before : ℕ → Option (Text × Text) → Option (Text × Text)
before b none = none
before b (some (l, r)) = some (b ∷ l, r)

unfoldable pub split_once : ℕ → Text → Option (Text × Text)
split_once sep [] = none
split_once sep (b ∷ bs) =
    let more = split_once sep bs in if b == sep then some ([], bs) else before b more

-- `rsplit_once`: the last place that the text further on has, or this one.
abbrev pub last_of : Bool → ℕ → Text → Option (Text × Text) → Option (Text × Text)
last_of true b bs none = some ([], bs)
last_of false b bs none = none
last_of here b bs (some (l, r)) = some (b ∷ l, r)

unfoldable pub rsplit_once : ℕ → Text → Option (Text × Text)
rsplit_once sep [] = none
rsplit_once sep (b ∷ bs) = last_of (b == sep) b bs (rsplit_once sep bs)

-- `splitn`
unfoldable pub splitn : ℕ → ℕ → Text → List Text
unfolding split_once
splitn zero sep s = []
splitn (suc n) sep s =
    if n == 0
    then s ∷ []
    else elim (split_once sep s) [ none ↦ s ∷ [] | some (l, r) ↦ l ∷ splitn n sep r ]

abbrev between : ℕ → ℕ → ℕ → Bool
between lo hi b = leb lo b && leb b hi

-- How many bytes the white space at the front takes, by Unicode's property; zero if none is there.
unfoldable pub white_space : Text → ℕ
white_space [] = 0
white_space (a ∷ []) = if a == 32 || between 9 13 a then 1 else 0
white_space (a ∷ b ∷ []) =
    if a == 32 || between 9 13 a then 1 else if a == 0xC2 && (b == 0x85 || b == 0xA0) then 2 else 0
white_space (a ∷ b ∷ c ∷ rest) =
    if a == 32 || between 9 13 a
    then 1
    else if a == 0xC2 && (b == 0x85 || b == 0xA0)
    then 2
    else if (a == 0xE1 && b == 0x9A && c == 0x80)
        || (a == 0xE2 && b == 0x80 && (between 0x80 0x8A c || c == 0xA8 || c == 0xA9 || c == 0xAF))
        || (a == 0xE2 && b == 0x81 && c == 0x9F)
        || (a == 0xE3 && b == 0x80 && c == 0x80)
    then 3
    else 0

-- `trim_start`, behind `skip` more bytes of white space.
unfoldable pub trim_start : ℕ → Text → Text
unfolding white_space
trim_start skip [] = []
trim_start zero (b ∷ bs) =
    let n = white_space (b ∷ bs) in
    let rest = trim_start (n - 1) bs in if n == 0 then b ∷ bs else rest
trim_start (suc skip) (b ∷ bs) = trim_start skip bs

abbrev pub is_empty : Text → Bool
is_empty [] = true
is_empty (b ∷ bs) = false

unfoldable pub trim_end : Text → Text
unfolding trim_start
trim_end [] = []
trim_end (b ∷ bs) =
    let rest = trim_end bs in if is_empty (trim_start 0 (b ∷ bs)) then [] else b ∷ rest

unfoldable pub trim : Text → Text
unfolding trim_start trim_end
trim s = trim_end (trim_start 0 s)

-- `trim_start_matches` of an ASCII character
unfoldable pub trim_start_matches : ℕ → Text → Text
trim_start_matches c [] = []
trim_start_matches c (b ∷ bs) =
    let rest = trim_start_matches c bs in if b == c then rest else b ∷ bs

abbrev lower : ℕ → ℕ
lower b = if between b'A' b'Z' b then b + 32 else b

unfoldable pub to_ascii_lowercase : Text → Text
to_ascii_lowercase [] = []
to_ascii_lowercase (b ∷ bs) = lower b ∷ to_ascii_lowercase bs
