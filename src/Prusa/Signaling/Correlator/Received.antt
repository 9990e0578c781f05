-- ===== src/Prusa/Signaling/Correlator/Received.antt =====
-- The payloads of an event as a hash map: they stand under their numbers, and come out in their order.
use buddy3d_proxy.Prelude.{
  ℕ, ◌+◌, ◌≡◌, refl, ap, ◌==◌, false, some, List, [], ◌∷◌, ◌++◌, length, arith, subst,
  length-append, append_assoc,
}
use buddy3d_proxy.Prelude.Text.{Text}
use buddy3d_proxy.Prusa.Signaling.Correlator.{insert, lookup, attachments_from}

unfoldable pub numbered : ℕ → List Text → List (ℕ × Text)
numbered i [] = []
numbered i (x ∷ xs) = (i, x) ∷ numbered (i + 1) xs

pub length-numbered : (i : ℕ) (xs : List Text) → length (numbered i xs) ≡ length xs
unfolding numbered
length-numbered i [] = refl
length-numbered i (x ∷ xs) = omega (arith, length-numbered (i + 1) xs)

insert-numbered :
    (i k : ℕ) (xs : List Text) (x : Text)
    → k ≡ i + length xs
    → insert k x (numbered i xs) ≡ numbered i (xs ++ (x ∷ []))
unfolding insert numbered
insert-numbered i k [] x h = rw (h) (ground arith)
insert-numbered i k (y ∷ xs) x h =
    let other : (i == k) ≡ false = ground (arith, h) in
    rw (other) (ap (◌∷◌ (i, y)) (insert-numbered (i + 1) k xs x (omega (arith, h))))

lookup-numbered :
    (i k : ℕ) (before : List Text) (x : Text) (behind : List Text)
    → k ≡ i + length before
    → lookup k (numbered i (before ++ (x ∷ behind))) ≡ some x
unfolding lookup numbered
lookup-numbered i k [] x behind h = ground (arith, h)
lookup-numbered i k (y ∷ before) x behind h =
    let other : (i == k) ≡ false = ground (arith, h) in
    rw (other) (lookup-numbered (i + 1) k before x behind (omega (arith, h)))

pub insert-last :
    (xs : List Text) (x : Text) → insert (length xs) x (numbered 0 xs) ≡ numbered 0 (xs ++ (x ∷ []))
insert-last xs x = insert-numbered 0 (length xs) xs x (omega arith)

attachments_from-numbered :
    (before xs : List Text)
    → attachments_from (numbered 0 (before ++ xs)) (length before) (length xs) ≡ xs
unfolding attachments_from
attachments_from-numbered before [] = refl
attachments_from-numbered before (x ∷ xs) =
    let first = lookup-numbered 0 (length before) before x xs (omega arith) in
    let further : attachments_from (numbered 0 (before ++ (x ∷ xs))) (length before + 1) (length xs)
        ≡ xs =
      subst (λ l. attachments_from (numbered 0 l) (length before + 1) (length xs) ≡ xs)
        (append_assoc before (x ∷ []) xs)
        (subst (λ k. attachments_from (numbered 0 ((before ++ (x ∷ [])) ++ xs)) k (length xs) ≡ xs)
          (length-append before (x ∷ [])) (attachments_from-numbered (before ++ (x ∷ [])) xs)) in
    rw (first, further) refl

pub attachments_from-all : (xs : List Text) → attachments_from (numbered 0 xs) 0 (length xs) ≡ xs
attachments_from-all xs = attachments_from-numbered [] xs
