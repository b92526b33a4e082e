-- ===== src/Wire/Stream.antt =====
-- The two functions, over a stream socket whose calls may take or give any part of what is asked.
-- The server and the client have the same text.
use cezfuzzer.Base.{
  ℕ, zero, suc, ◌+◌, ◌-◌, ◌*◌, ◌/◌, ◌%◌, ◌^◌, Bool, true, false, List, [], ◌∷◌, ◌++◌, Option, none,
  some, if◌then◌else◌, ltb, ◌==◌, length, take, drop, min,
}

-- send() fails, or takes some of the bytes; recv() fails, or gives up to `n + 1` of the bytes there.
-- The number of the call decides which. At the end of the stream recv() gives 0.
pub record Kernel : Type 0 where
  pub accepts : ℕ → Option ℕ
  pub offers : ℕ → Option ℕ

-- A size_t as it lies in memory: eight bytes, the lowest first.
unfoldable pub le_bytes : ℕ → ℕ → List ℕ
le_bytes zero n = []
le_bytes (suc k) n = n % 256 ∷ le_bytes k (n / 256)

unfoldable pub of_le_bytes : List ℕ → ℕ
of_le_bytes [] = 0
of_le_bytes (x ∷ xs) = x + 256 * of_le_bytes xs

abbrev pub size_bytes : ℕ
size_bytes = 8

abbrev pub max_msg_size : ℕ
max_msg_size = 4096

-- `int total_bytes = len`, as a bound of a loop that counts up from 0.
abbrev pub int_bound : ℕ → ℕ
int_bound len = if ltb (len % 2 ^ 32) (2 ^ 31) then len % 2 ^ 32 else 0

-- The calls of send() so far, and the bytes that they took.
pub record Sender : Type 0 where
  pub calls : ℕ
  pub output : List ℕ

-- exit(EXIT_FAILURE) ends the program; `looping` means that the fuel ran out.
pub data Sending : Type 0 where
  finished exited : Sender → Sending
  looping : Sending

module _ (k : Kernel) where
  -- while (total_bytes > bytes_sent) …, where `rest` is what has not been sent.
  unfoldable pub send_all : ℕ → List ℕ → Sender → Sending
  send_all fuel [] s = finished s
  send_all zero (x ∷ xs) s = looping
  send_all (suc fuel) (x ∷ xs) s = elim (k.accepts s.calls) [
    | none ↦ exited (record s { calls = suc s.calls })
    | some n ↦
        send_all fuel (drop n (x ∷ xs))
          (record { calls = suc s.calls; output = s.output ++ take n (x ∷ xs) })
  ]

  abbrev pub then_send : ℕ → List ℕ → Sending → Sending
  then_send fuel xs (finished s) = send_all fuel xs s
  then_send fuel xs (exited s) = exited s
  then_send fuel xs looping = looping

  -- `fuel` rounds for each loop. The length of a list is below 2^64.
  unfoldable pub send_message : ℕ → List ℕ → Sender → Sending
  send_message fuel msg s =
      then_send fuel (take (int_bound (length msg)) msg)
        (send_all fuel (le_bytes size_bytes (length msg)) s)

-- The calls of recv() so far, and the bytes that are still to come before the end of the stream.
pub record Receiver : Type 0 where
  pub calls : ℕ
  pub input : List ℕ

-- What a loop has written, and whether it came to its end.
pub record Received : Type 0 where
  pub complete : Bool
  pub bytes : List ℕ
  pub state : Receiver

module _ (k : Kernel) where
  -- What one call of recv() takes from the stream when `n` bytes are asked for.
  abbrev pub gives : ℕ → ℕ → List ℕ → List ℕ
  gives offer n input = take (min n (suc offer)) input

  -- A round takes a byte at least, so as many rounds as bytes are enough.
  -- while (bytes_received < total_bytes) …, where `n` bytes are missing and `got` is the buffer.
  unfoldable pub recv_all : ℕ → ℕ → List ℕ → Receiver → Received
  recv_all fuel zero got r = record { complete = true; bytes = got; state = r }
  recv_all zero (suc n) got r = record { complete = false; bytes = got; state = r }
  recv_all (suc fuel) (suc n) got r = elim (k.offers r.calls) [
    | none ↦ record { complete = false; bytes = got; state = record r { calls = suc r.calls } }
    | some offer ↦
        let xs = gives offer (suc n) r.input in
        let r' : Receiver = record { calls = suc r.calls; input = drop (length xs) r.input } in
        let more = recv_all fuel (suc n - length xs) (got ++ xs) r' in
        if length xs == 0 then record { complete = false; bytes = got; state = r' } else more
  ]

  -- The result is -1 (`none`) or the length; the bytes are what the caller's buffer has been given.
  abbrev body : ℕ → Received → Option ℕ × List ℕ × Receiver
  body len r = ((if r.complete then some len else none), r.bytes, r.state)

  abbrev pub after_length : Received → Option ℕ × List ℕ × Receiver
  after_length r =
      let len = of_le_bytes r.bytes in
      let rest = body len (recv_all len len [] r.state) in
      if r.complete
      then (if ltb max_msg_size len then (none, [], r.state) else rest)
      else (none, [], r.state)

  unfoldable pub recv_message : Receiver → Option ℕ × List ℕ × Receiver
  recv_message r = after_length (recv_all size_bytes size_bytes [] r)
