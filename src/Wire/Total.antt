-- ===== src/Wire/Total.antt =====
-- send_message on a socket that never fails: it returns, with the whole frame written.
use cezfuzzer.Base.{
  ℕ, zero, suc, ◌+◌, ◌≤◌, ◌<◌, ◌^◌, ◌≡◌, refl, ap, ◌∙◌, List, [], ◌∷◌, ◌++◌, some, arith, length,
  take_all, drop, length-drop,
}
use cezfuzzer.Wire.Stream.{
  Kernel, Sender, finished, send_all, then_send, send_message, le_bytes, size_bytes, int_bound,
}
use cezfuzzer.Wire.Length.{length-le_bytes}
use cezfuzzer.Wire.Sending.{IsMoving, Sends, frame, send_message-Sends, send_step}

-- Every send() takes a byte at least.
abbrev pub IsWilling : Kernel → Type 0
IsWilling k = (i : ℕ) → (n : ℕ) × (k.accepts i ≡ some (suc n))

pub IsWilling-IsMoving : (k : Kernel) → IsWilling k → IsMoving k
IsWilling-IsMoving k w i n e = let (m, q) = w i in ground arith

send_all_returns :
    (k : Kernel) (fuel : ℕ) (xs : List ℕ) (s : Sender)
    → IsWilling k
    → length xs ≤ fuel
    → (t : Sender) × (send_all k fuel xs s ≡ finished t)
unfolding send_all
send_all_returns k fuel [] s w h = (s, refl)
send_all_returns k zero (x ∷ xs) s w h = absurd (omega arith)
send_all_returns k (suc fuel) (x ∷ xs) s w h =
    let (n, q) = w s.calls in
    let (t, r) =
      send_all_returns k fuel (drop (suc n) (x ∷ xs)) _ w
        (omega (arith, length-drop (suc n) (x ∷ xs))) in
    (t, send_step k fuel (suc n) x xs s q ∙ r)

send_message_parts :
    (k : Kernel) (fuel : ℕ) (msg : List ℕ) (s : Sender)
    → length msg < 2 ^ 31
    → send_message k fuel msg s
      ≡ then_send k fuel msg (send_all k fuel (le_bytes size_bytes (length msg)) s)
unfolding send_message
send_message_parts k fuel msg s small =
    let bound : int_bound (length msg) ≡ length msg = ground arith in
    rw (bound, take_all (length msg) msg (omega arith))

pub send_message_returns :
    (k : Kernel) (fuel : ℕ) (msg : List ℕ) (s : Sender)
    → IsWilling k
    → length msg < 2 ^ 31
    → size_bytes + length msg ≤ fuel
    → (t : Sender) × (send_message k fuel msg s ≡ finished t) × (t.output ≡ s.output ++ frame msg)
send_message_returns k fuel msg s w small h =
    let head : List ℕ = le_bytes size_bytes (length msg) in
    let (t, p) =
      send_all_returns k fuel head s w (omega (arith, length-le_bytes size_bytes (length msg))) in
    let (u, q) = send_all_returns k fuel msg t w (omega arith) in
    let whole : send_message k fuel msg s ≡ finished u =
      send_message_parts k fuel msg s small ∙ ap (then_send k fuel msg) p ∙ q in
    let sent : Sends s.output (frame msg) (finished u) =
      rw whole at (send_message-Sends k fuel msg s (IsWilling-IsMoving k w) small h) in
    (u, whole, sent)
