-- ===== src/Rtsp/Message/Parsing.antt =====
-- src/rtsp/message.rs: how `parse_request` takes requests off the front of a buffer.
use mathlib.Core.Option as Option
use buddy3d_proxy.Prelude.{
  ℕ, ◌+◌, ◌-◌, ◌%◌, ◌^◌, ◌≤◌, ◌≡◌, ◌≢◌, ◌⊎◌, inl, inr, refl, ap, ◌∙◌, ltb, if◌then◌else◌, ◌==◌,
  Bool, true, false, Option, none, some, [], ◌∷◌, ◌++◌, length, take, drop, arith, length-append,
  length-drop, take-append_le, drop-append_le, Option-cases, Bool-cases,
}
use buddy3d_proxy.Prelude.Text.{Text, strip_prefix, find_subslice, here_or}
use buddy3d_proxy.Rtsp.Message.{
  incomplete, failed, Head, head, rejected, read_head, read_body, behind_head, blank_line,
  parse_request,
}

if-some :
    (t : Bool) (o : Option Text) (r : Text)
    → (if t then o else none) ≡ some r
    → (t ≡ true) × (o ≡ some r)
if-some true o r e = (refl, e)
if-some false o r e = ground (arith, e)

-- A match is here, or further on.
here_or-some :
    (o : Option Text) (further : Option ℕ) (n : ℕ)
    → here_or o further ≡ some n
    → (((rest : Text) × (o ≡ some rest)) × (n ≡ 0))
      ⊎ ((o ≡ none) × ((m : ℕ) × (further ≡ some m) × (n ≡ m + 1)))
here_or-some (some rest) further n e = inl ((rest, refl), ground (arith, e))
here_or-some none none n e = ground (arith, e)
here_or-some none (some m) n e = inr (refl, (m, refl, ground (arith, e)))

strip_prefix-append :
    (p s more rest : Text)
    → strip_prefix p s ≡ some rest
    → strip_prefix p (s ++ more) ≡ some (rest ++ more)
unfolding strip_prefix
strip_prefix-append [] s more rest e = ap (λ o. some (Option.get_or o s ++ more)) e
strip_prefix-append (a ∷ p) [] more rest e = ground (arith, e)
strip_prefix-append (a ∷ p) (b ∷ s) more rest e =
    let (h, e') = if-some (a == b) (strip_prefix p s) rest e in
    rw (h) (strip_prefix-append p s more rest e')

-- A text that is long enough settles whether it begins with `p`.
strip_prefix-none :
    (p s more : Text)
    → length p ≤ length s
    → strip_prefix p s ≡ none
    → strip_prefix p (s ++ more) ≡ none
unfolding strip_prefix
strip_prefix-none [] s more h e = ground (arith, e)
strip_prefix-none (a ∷ p) [] more h e = absurd (omega (arith, h))
strip_prefix-none (a ∷ p) (b ∷ s) more h e =
    ground (arith, e, strip_prefix-none p s more (omega (arith, h)))

strip_prefix-length : (p s rest : Text) → strip_prefix p s ≡ some rest → length p ≤ length s
unfolding strip_prefix
strip_prefix-length [] s rest e = omega arith
strip_prefix-length (a ∷ p) [] rest e = ground (arith, e)
strip_prefix-length (a ∷ p) (b ∷ s) rest e = ground (arith, e, strip_prefix-length p s rest)

pub find_subslice-length :
    (s needle : Text) (n : ℕ) → find_subslice s needle ≡ some n → n + length needle ≤ length s
unfolding find_subslice
find_subslice-length [] needle n e = ground (arith, e)
find_subslice-length (b ∷ s) needle n e =
    elim (here_or-some (strip_prefix needle (b ∷ s)) (find_subslice s needle) n e) [
      | inl ((rest, h), z) ↦ omega (arith, z, strip_prefix-length needle (b ∷ s) rest h)
      | inr (h, (m, h', z)) ↦ omega (arith, z, find_subslice-length s needle m h')
    ]

find_subslice-append :
    (s needle more : Text) (n : ℕ)
    → find_subslice s needle ≡ some n
    → find_subslice (s ++ more) needle ≡ some n
unfolding find_subslice
find_subslice-append [] needle more n e = ground (arith, e)
find_subslice-append (b ∷ s) needle more n e =
    elim (here_or-some (strip_prefix needle (b ∷ s)) (find_subslice s needle) n e) [
      | inl ((rest, h), z) ↦ rw (strip_prefix-append needle (b ∷ s) more rest h, z) refl
      | inr (h, (m, h', z)) ↦
          let fits = find_subslice-length s needle m h' in
          rw
            (
              strip_prefix-none needle (b ∷ s) more (omega (arith, fits)) h,
              find_subslice-append s needle more m h',
              z,
            )
            refl
    ]

slice-append :
    (start end : ℕ) (buf more : Text)
    → start ≤ length buf
    → end ≤ length buf
    → take (end - start) (drop start (buf ++ more)) ≡ take (end - start) (drop start buf)
slice-append start end buf more h h' =
    rw (drop-append_le start buf more h)
      (take-append_le (end - start) (drop start buf) more (omega (arith, length-drop start buf)))

-- A decision on a buffer that it does not wait for more of is the same on every longer buffer.
read_body-append :
    (h : Head) (header_end : ℕ) (buf more : Text)
    → header_end ≤ length buf
    → read_body h header_end buf ≢ failed incomplete
    → read_body h header_end (buf ++ more) ≡ read_body h header_end buf
unfolding read_body
read_body-append (rejected e) header_end buf more fits n = refl
read_body-append (head r body_len) header_end buf more fits n =
    let end = (header_end + body_len) % 2 ^ 64 in
    elim (Bool-cases (ltb (length buf) end)) [
      | inl b ↦ absurd (n (rw (b) refl))
      | inr b ↦
          let there : end ≤ length buf = ground (arith, b) in
          let later : ltb (length (buf ++ more)) end ≡ false =
            ground (arith, there, length-append buf more) in
          rw (b, later, slice-append header_end end buf more fits there) refl
    ]

-- A request, an error or a panic that a buffer gives is what every longer buffer with these bytes in
-- front gives: only an incomplete request waits for more bytes, so the pieces in which the bytes
-- arrive do not matter.
pub parse_request-append :
    (buf more : Text)
    → parse_request buf ≢ failed incomplete
    → parse_request (buf ++ more) ≡ parse_request buf
unfolding parse_request behind_head
parse_request-append buf more n = elim (Option-cases (find_subslice buf blank_line)) [
  | inl h ↦ absurd (n (rw (h) refl))
  | inr (idx, h) ↦
      let fits : idx + 4 ≤ length buf = find_subslice-length buf blank_line idx h in
      rw
        (
          h,
          find_subslice-append buf blank_line more idx h,
          take-append_le idx buf more (omega (arith, fits)),
        )
        (read_body-append (read_head (take idx buf)) (idx + 4) buf more fits
          (λ e. n (ap (λ o. behind_head o buf) h ∙ e)))
]
