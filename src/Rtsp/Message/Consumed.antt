-- ===== src/Rtsp/Message/Consumed.antt =====
-- src/rtsp/message.rs: how many bytes a request takes, and the length that makes the slice panic.
use buddy3d_proxy.Prelude.{
  ℕ, ◌+◌, ◌-◌, ◌%◌, ◌^◌, ◌≤◌, ◌<◌, ◌≡◌, ◌↔◌, refl, ltb, if◌then◌else◌, Bool, true, false, Option,
  none, some, [], length, take, drop, arith, length-take,
}
use buddy3d_proxy.Prelude.Text.{Text, find_subslice}
use buddy3d_proxy.Rtsp.Message.{
  Request, ParseResult, parsed, failed, panicked, Head, head, rejected, read_head, read_body,
  behind_head, blank_line, parse_request,
}
use buddy3d_proxy.Rtsp.Message.Parsing.{find_subslice-length}

abbrev taken : ParseResult → ℕ → ℕ
taken (parsed r n) other = n
taken (failed e) other = other
taken panicked other = other

abbrev body_of : ParseResult → Text
body_of (parsed r n) = r.body
body_of (failed e) = []
body_of panicked = []

-- What a request takes: the blank line at least, no more than is there, and its body besides.
abbrev pub IsWithin : ParseResult → Text → Type 0
IsWithin (parsed r n) buf = (4 + length r.body ≤ n) × (n ≤ length buf)
IsWithin (failed e) buf = Unit {0}
IsWithin panicked buf = Unit {0}

if-IsWithin :
    (b : Bool) (x y : ParseResult) (buf : Text)
    → (b ≡ true → IsWithin x buf)
    → (b ≡ false → IsWithin y buf)
    → IsWithin (if b then x else y) buf
if-IsWithin true x y buf f g = f refl
if-IsWithin false x y buf f g = g refl

read_body-IsWithin :
    (h : Head) (header_end : ℕ) (buf : Text)
    → 4 ≤ header_end
    → header_end ≤ length buf
    → IsWithin (read_body h header_end buf) buf
unfolding read_body
read_body-IsWithin (rejected e) header_end buf m fits = tt
read_body-IsWithin (head r body_len) header_end buf m fits =
    let end = (header_end + body_len) % 2 ^ 64 in
    if-IsWithin (ltb (length buf) end) _ _ buf (λ b. tt)
      (λ b.
        if-IsWithin (ltb end header_end) _ _ buf (λ c. tt)
          (λ c. (
            ground (arith, b, c, m, length-take (end - header_end) (drop header_end buf)),
            ground (arith, b),
          )))

behind_head-IsWithin :
    (o : Option ℕ) (buf : Text)
    → find_subslice buf blank_line ≡ o
    → IsWithin (behind_head o buf) buf
unfolding behind_head
behind_head-IsWithin none buf e = tt
behind_head-IsWithin (some idx) buf e =
    let fits = find_subslice-length buf blank_line idx e in
    read_body-IsWithin (read_head (take idx buf)) (idx + 4) buf (omega arith) fits

-- A request takes at least the four bytes of the blank line and its own body from the buffer, and
-- never more than the buffer holds: so a loop that takes requests off the buffer ends.
pub parse_request-IsWithin : (buf : Text) → IsWithin (parse_request buf) buf
unfolding parse_request
parse_request-IsWithin buf = behind_head-IsWithin (find_subslice buf blank_line) buf refl

-- A buffer with a whole header that gives a length: the slice of the body panics exactly if the end
-- of the body does not fit in 64 bits. The header's length does, and the buffer is shorter than 2^64.
pub parse_request_panics :
    (buf : Text) (idx : ℕ) (r : Request) (body_len : ℕ)
    → find_subslice buf blank_line ≡ some idx
    → read_head (take idx buf) ≡ head r body_len
    → body_len < 2 ^ 64
    → length buf < 2 ^ 64
    → (parse_request buf ≡ panicked) ↔ (2 ^ 64 ≤ idx + 4 + body_len)
unfolding parse_request behind_head read_body
parse_request_panics buf idx r body_len e e' small short =
    let fits : idx + 4 ≤ length buf = find_subslice-length buf blank_line idx e in
    rw (e, e')
      ((λ p. ground (arith, p, fits, small, short)), (λ q. ground (arith, q, fits, small, short)))
