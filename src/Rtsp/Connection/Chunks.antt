-- ===== src/Rtsp/Connection/Chunks.antt =====
-- src/rtsp/server.rs: the pieces in which a connection's bytes arrive.
use buddy3d_proxy.Prelude.{
  ℕ, zero, suc, ◌+◌, ◌<◌, ◌≡◌, ◌≢◌, ◌⊎◌, inl, inr, refl, sym, ap, ◌∙◌, List, [], ◌∷◌, ◌++◌, length,
  drop, arith, length-append, length-drop, drop-append_le, append_assoc, append-nil,
}
use buddy3d_proxy.Prelude.Text.{Text}
use buddy3d_proxy.Rtsp.Message.{
  incomplete, bad_request_line, bad_header_line, utf8, bad_content_length, ParseResult, parsed,
  failed, panicked, parse_request,
}
use buddy3d_proxy.Rtsp.Message.Parsing.{parse_request-append}
use buddy3d_proxy.Rtsp.Message.Consumed.{IsWithin, parse_request-IsWithin}
use buddy3d_proxy.Rtsp.Connection.{
  Flow, reading, streaming, ended, aborted, disconnected, crashed, Source, Connection,
  serve_request, proceed, consume, drain, extended, receive, receive_all,
}

-- The bytes of reads, none of which is empty.
abbrev pub joined : List (ℕ × Text) → Text
joined [] = []
joined ((b, bytes) ∷ more) = (b ∷ bytes) ++ joined more

abbrev pub reads : List (ℕ × Text) → List Text
reads [] = []
reads ((b, bytes) ∷ more) = (b ∷ bytes) ∷ reads more

module _ (source : Source) where
  proceed-same :
      (c : Connection) (flow : Flow) (rest : Text) (k k' : Text → Connection → Text × Connection)
      → k rest c ≡ k' rest c
      → proceed c flow rest k ≡ proceed c flow rest k'
  proceed-same c reading rest k k' e = e
  proceed-same c (streaming channel) rest k k' e = refl
  proceed-same c ended rest k k' e = refl
  proceed-same c aborted rest k k' e = refl
  proceed-same c disconnected rest k k' e = refl
  proceed-same c crashed rest k k' e = refl

  consume-same :
      (buf : Text) (c : Connection) (result : ParseResult)
      (k k' : Text → Connection → Text × Connection)
      → IsWithin result buf
      → ((rest : Text) (c' : Connection) → length rest < length buf → k rest c' ≡ k' rest c')
      → consume source buf c result k ≡ consume source buf c result k'
  unfolding consume
  consume-same buf c (failed e) k k' w h = refl
  consume-same buf c panicked k k' w h = refl
  consume-same buf c (parsed r n) k k' (w, w') h =
      let c' = serve_request source c r in
      proceed-same c' c'.flow (drop n buf) k k'
        (h (drop n buf) c' (omega (arith, w, w', length-drop n buf)))

  -- Fuel beyond the bytes that are there changes nothing.
  drain-fuel :
      (fuel fuel' : ℕ) (buf : Text) (c : Connection)
      → length buf < fuel
      → length buf < fuel'
      → drain source fuel buf c ≡ drain source fuel' buf c
  unfolding drain
  drain-fuel zero fuel' buf c h h' = absurd (omega (arith, h))
  drain-fuel (suc fuel) zero buf c h h' = absurd (omega (arith, h'))
  drain-fuel (suc fuel) (suc fuel') buf c h h' =
      consume-same buf c (parse_request buf) (drain source fuel) (drain source fuel')
        (parse_request-IsWithin buf)
        (λ rest c' l. drain-fuel fuel fuel' rest c' (omega (arith, h, l)) (omega (arith, h', l)))

  -- What more bytes do behind a round of the inner loop.
  abbrev resume : ℕ → Flow → Text × Connection → Text → Text × Connection
  resume fuel reading (buf, c) more = drain source fuel (buf ++ more) c
  resume fuel _ (buf, c) more = ([], c)

  proceed-append :
      (fuel : ℕ) (c : Connection) (flow : Flow) (rest more : Text)
      (k k' : Text → Connection → Text × Connection)
      → c.flow ≡ flow
      → (c.flow ≡ reading → k' (rest ++ more) c ≡ resume fuel (k rest c).1.flow (k rest c) more)
      → proceed c flow (rest ++ more) k'
        ≡ resume fuel (proceed c flow rest k).1.flow (proceed c flow rest k) more
  proceed-append fuel c reading rest more k k' e h = h e
  proceed-append fuel c (streaming channel) rest more k k' e h = rw (e) refl
  proceed-append fuel c ended rest more k k' e h = rw (e) refl
  proceed-append fuel c aborted rest more k k' e h = rw (e) refl
  proceed-append fuel c disconnected rest more k k' e h = rw (e) refl
  proceed-append fuel c crashed rest more k k' e h = rw (e) refl

  consume-append :
      (fuel : ℕ) (buf more : Text) (c : Connection) (result : ParseResult)
      (k k' : Text → Connection → Text × Connection)
      → IsWithin result buf
      → result ≢ failed incomplete
      → ((rest : Text) (c' : Connection)
          → c'.flow ≡ reading
          → length rest < length buf
          → k' (rest ++ more) c' ≡ resume fuel (k rest c').1.flow (k rest c') more)
      → consume source (buf ++ more) c result k'
        ≡ resume fuel (consume source buf c result k).1.flow (consume source buf c result k) more
  unfolding consume
  consume-append fuel buf more c (failed incomplete) k k' w n h = absurd (n refl)
  consume-append fuel buf more c (failed (bad_request_line s)) k k' w n h = refl
  consume-append fuel buf more c (failed (bad_header_line s)) k k' w n h = refl
  consume-append fuel buf more c (failed utf8) k k' w n h = refl
  consume-append fuel buf more c (failed (bad_content_length s)) k k' w n h = refl
  consume-append fuel buf more c panicked k k' w n h = refl
  consume-append fuel buf more c (parsed r m) k k' (w, w') n h =
      let c' = serve_request source c r in
      rw (drop-append_le m buf more w') (
        proceed-append fuel c' c'.flow (drop m buf) more k k' refl
          (λ e. h (drop m buf) c' e (omega (arith, w, w', length-drop m buf))))

  -- Either the request is incomplete, or it is decided.
  decided : (result : ParseResult) → (result ≡ failed incomplete) ⊎ (result ≢ failed incomplete)
  decided (failed incomplete) = inl refl
  decided (failed (bad_request_line s)) = inr (λ e. ground (arith, e))
  decided (failed (bad_header_line s)) = inr (λ e. ground (arith, e))
  decided (failed utf8) = inr (λ e. ground (arith, e))
  decided (failed (bad_content_length s)) = inr (λ e. ground (arith, e))
  decided panicked = inr (λ e. ground (arith, e))
  decided (parsed r n) = inr (λ e. ground (arith, e))

  waits :
      (last : ℕ) (k : Text → Connection → Text × Connection) (buf more : Text) (c : Connection)
      (result : ParseResult)
      → c.flow ≡ reading
      → result ≡ failed incomplete
      → resume last (consume source buf c result k).1.flow (consume source buf c result k) more
        ≡ drain source last (buf ++ more) c
  unfolding consume
  waits last k buf more c result e w = rw (w, e) refl

  drain-append :
      (last fuel fuel' : ℕ) (buf more : Text) (c : Connection)
      → c.flow ≡ reading
      → length buf < fuel
      → length (buf ++ more) < fuel'
      → length (buf ++ more) < last
      → drain source fuel' (buf ++ more) c
        ≡ resume last (drain source fuel buf c).1.flow (drain source fuel buf c) more
  unfolding drain
  drain-append last zero fuel' buf more c e h h' l = absurd (omega (arith, h))
  drain-append last (suc fuel) zero buf more c e h h' l = absurd (omega (arith, h'))
  drain-append last (suc fuel) (suc fuel') buf more c e h h' l =
      elim (decided (parse_request buf)) [
        | inl w ↦
            drain-fuel (suc fuel') last (buf ++ more) c h' l
            ∙ sym (waits last (drain source fuel) buf more c (parse_request buf) e w)
        | inr d ↦ rw (parse_request-append buf more d) (
            consume-append last buf more c (parse_request buf) (drain source fuel)
              (drain source fuel') (parse_request-IsWithin buf) d
              (λ rest c' e' s.
                drain-append last fuel fuel' rest more c' e' (omega (arith, s, h))
                  (omega (arith, s, h', length-append buf more, length-append rest more))
                  (omega (arith, s, l, length-append buf more, length-append rest more))))
      ]

  resume-extended :
      (last : ℕ) (flow : Flow) (buf more : Text) (c : Connection)
      → length (buf ++ more) < last
      → extended source (buf ++ more) c flow ≡ resume last flow (buf, c) more
  resume-extended last reading buf more c h =
      drain-fuel (suc (length (buf ++ more))) last (buf ++ more) c (omega arith) h
  resume-extended last (streaming channel) buf more c h = refl
  resume-extended last ended buf more c h = refl
  resume-extended last aborted buf more c h = refl
  resume-extended last disconnected buf more c h = refl
  resume-extended last crashed buf more c h = refl

  extended-append :
      (buf more : Text) (c : Connection) (flow : Flow)
      → c.flow ≡ flow
      → extended source
          ((extended source buf c flow).0 ++ more)
          (extended source buf c flow).1
          (extended source buf c flow).1.flow
        ≡ extended source (buf ++ more) c flow
  extended-append buf more c reading e =
      let (rest, c') = drain source (suc (length buf)) buf c in
      let last = suc (length (buf ++ more) + length (rest ++ more)) in
      resume-extended last c'.flow rest more c' (omega arith)
      ∙ sym (
          drain-append last (suc (length buf)) (suc (length (buf ++ more))) buf more c e
            (omega arith) (omega arith) (omega arith))
  extended-append buf more c (streaming channel) e = ap (extended source more c) e
  extended-append buf more c ended e = ap (extended source more c) e
  extended-append buf more c aborted e = ap (extended source more c) e
  extended-append buf more c disconnected e = ap (extended source more c) e
  extended-append buf more c crashed e = ap (extended source more c) e

  -- Two reads are one read of the bytes of both.
  receive-append :
      (buf : Text) (c : Connection) (a b : ℕ) (xs ys : Text)
      → receive source (receive source (buf, c) (a ∷ xs)) (b ∷ ys)
        ≡ receive source (buf, c) ((a ∷ xs) ++ (b ∷ ys))
  unfolding receive
  receive-append buf c a b xs ys =
      extended-append (buf ++ (a ∷ xs)) (b ∷ ys) c c.flow refl
      ∙ ap (λ t. extended source t c c.flow) (append_assoc buf (a ∷ xs) (b ∷ ys))

  -- However the bytes of a connection are cut into reads, none of them empty, what the connection has
  -- written, its session, its subscription, what is left in its buffer and where its task stands are
  -- those after a single read of all the bytes.
  pub receive_all-reads :
      (buf : Text) (c : Connection) (b : ℕ) (bytes : Text) (more : List (ℕ × Text))
      → receive_all source (buf, c) (reads ((b, bytes) ∷ more))
        ≡ receive source (buf, c) (joined ((b, bytes) ∷ more))
  unfolding receive_all
  receive_all-reads buf c b bytes [] =
      ap (λ t. receive source (buf, c) (b ∷ t)) (sym (append-nil bytes))
  receive_all-reads buf c b bytes ((b', bytes') ∷ more) =
      ap (λ s. receive_all source s (reads more)) (receive-append buf c b b' bytes bytes')
      ∙ (receive_all-reads buf c b (bytes ++ (b' ∷ bytes')) more
          ∙ ap (λ t. receive source (buf, c) (b ∷ t))
              (append_assoc bytes (b' ∷ bytes') (joined more)))
