-- ===== src/Wire/Sending.antt =====
-- What send_message writes to the stream.
use mathlib.Core.List.{append-nil, append_assoc}
use cezfuzzer.Base.{
  ℕ, zero, suc, ◌+◌, ◌^◌, ◌≤◌, ◌<◌, ◌≡◌, refl, sym, ap, ◌∙◌, inl, inr, List, [], ◌∷◌, ◌++◌, arith,
  none, some, length, take, drop, take_all, length-drop, Option-cases, take-append-drop,
}
use mathlib.Core.Path.{subst}
use cezfuzzer.Wire.Stream.{
  Kernel, Sender, Sending, finished, exited, looping, send_all, then_send, send_message, le_bytes,
  size_bytes, int_bound,
}
use cezfuzzer.Wire.Length.{length-le_bytes}

-- A send() that does not fail takes a byte at least.
abbrev pub IsMoving : Kernel → Type 0
IsMoving k = (i n : ℕ) → k.accepts i ≡ some n → 0 < n

-- The bytes of `xs` are in the stream behind what was there; if the program ended in between, a
-- first part of them.
abbrev pub Sends : List ℕ → List ℕ → Sending → Type 0
Sends before xs (finished s) = s.output ≡ before ++ xs
Sends before xs (exited s) = (ys zs : List ℕ) × (xs ≡ ys ++ zs) × (s.output ≡ before ++ ys)
Sends before xs looping = ⊥

pub send_step :
    (k : Kernel) (fuel n : ℕ) (x : ℕ) (xs : List ℕ) (s : Sender)
    → k.accepts s.calls ≡ some n
    → send_all k (suc fuel) (x ∷ xs) s
      ≡ send_all k fuel
          (drop n (x ∷ xs))
          (record { calls = suc s.calls; output = s.output ++ take n (x ∷ xs) })
unfolding send_all
send_step k fuel n x xs s h = ground arith

send_fails :
    (k : Kernel) (fuel : ℕ) (x : ℕ) (xs : List ℕ) (s : Sender)
    → k.accepts s.calls ≡ none
    → send_all k (suc fuel) (x ∷ xs) s ≡ exited (record s { calls = suc s.calls })
unfolding send_all
send_fails k fuel x xs s h = ground arith

-- More bytes in front.
Sends-shift :
    (before xs ys : List ℕ) (o : Sending) → Sends (before ++ xs) ys o → Sends before (xs ++ ys) o
Sends-shift before xs ys (finished s) h = h ∙ append_assoc before xs ys
Sends-shift before xs ys (exited s) (us, vs, q, h) =
    (xs ++ us, vs, ap (◌++◌ xs) q ∙ sym (append_assoc xs us vs), h ∙ append_assoc before xs us)
Sends-shift before xs ys looping h = h

pub send_all-Sends :
    (k : Kernel) (fuel : ℕ) (xs : List ℕ) (s : Sender)
    → IsMoving k
    → length xs ≤ fuel
    → Sends s.output xs (send_all k fuel xs s)
send_all-Sends k fuel [] s mv h = unfold send_all in sym (append-nil s.output)
send_all-Sends k zero (x ∷ xs) s mv h = absurd (omega arith)
send_all-Sends k (suc fuel) (x ∷ xs) s mv h = elim (Option-cases (k.accepts s.calls)) [
  | inl fails ↦ rw (send_fails k fuel x xs s fails) ([], x ∷ xs, refl, sym (append-nil s.output))
  | inr (n, takes) ↦
      let front : List ℕ = take n (x ∷ xs) in
      let back : List ℕ = drop n (x ∷ xs) in
      let s' : Sender = record { calls = suc s.calls; output = s.output ++ front } in
      let shorter : length back ≤ fuel =
        omega (arith, length-drop n (x ∷ xs), mv s.calls n takes) in
      rw (send_step k fuel n x xs s takes) (
        subst (λ ys. Sends s.output ys (send_all k fuel back s')) (take-append-drop n (x ∷ xs))
          (Sends-shift s.output front back _ (send_all-Sends k fuel back s' mv shorter)))
]

-- The length of a message as a size_t, then its bytes.
abbrev pub frame : List ℕ → List ℕ
frame msg = le_bytes size_bytes (length msg) ++ msg

then_send-Sends :
    (k : Kernel) (fuel : ℕ) (before xs ys : List ℕ) (o : Sending)
    → IsMoving k
    → length ys ≤ fuel
    → Sends before xs o
    → Sends before (xs ++ ys) (then_send k fuel ys o)
then_send-Sends k fuel before xs ys (finished s) mv h q =
    Sends-shift before xs ys _
      (subst (λ zs. Sends zs ys (send_all k fuel ys s)) q (send_all-Sends k fuel ys s mv h))
then_send-Sends k fuel before xs ys (exited s) mv h (us, vs, q, r) =
    (us, vs ++ ys, ap (λ (zs : List ℕ). zs ++ ys) q ∙ append_assoc us vs ys, r)
then_send-Sends k fuel before xs ys looping mv h q = q

-- However send() splits the bytes: for a message of fewer than 2^31 bytes, send_message writes the
-- length in eight bytes and the message behind what was in the stream, or it exits with a first
-- part of these bytes written. A send() that does not fail is taken to move a byte or more.
pub send_message-Sends :
    (k : Kernel) (fuel : ℕ) (msg : List ℕ) (s : Sender)
    → IsMoving k
    → length msg < 2 ^ 31
    → size_bytes + length msg ≤ fuel
    → Sends s.output (frame msg) (send_message k fuel msg s)
unfolding send_message
send_message-Sends k fuel msg s mv small h =
    let bound : int_bound (length msg) ≡ length msg = ground arith in
    rw (bound, take_all (length msg) msg (omega arith))
      (then_send-Sends k fuel s.output (le_bytes size_bytes (length msg)) msg
        (send_all k fuel (le_bytes size_bytes (length msg)) s) mv (omega arith)
        (send_all-Sends k fuel (le_bytes size_bytes (length msg)) s mv
          (omega (arith, length-le_bytes size_bytes (length msg)))))
