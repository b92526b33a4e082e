-- ===== src/Wire/Receiving.antt =====
-- What recv_message makes of a stream, and that it reads back what send_message wrote.
use mathlib.Core.List.{append-nil, append_assoc}
use cezfuzzer.Base.{
  ℕ, zero, suc, ◌+◌, ◌-◌, ◌^◌, ◌≤◌, ◌<◌, ◌≡◌, refl, ap, ◌∙◌, List, [], ◌∷◌, ◌++◌, arith, none, some,
  length, take, take_all, drop, length-drop, length-take, take-append-drop, take-append_le,
  drop-append_le, min, true, false, ltb,
}
use cezfuzzer.Wire.Stream.{
  Kernel, Received, recv_all, recv_message, le_bytes, of_le_bytes, size_bytes, max_msg_size,
  after_length, Sender, finished, send_message,
}
use cezfuzzer.Wire.Length.{length-le_bytes, of_le_bytes-le_bytes}
use cezfuzzer.Wire.Sending.{IsMoving, Sends, frame, send_message-Sends}

-- No recv() fails.
abbrev pub IsOffering : Kernel → Type 0
IsOffering k = (i : ℕ) → (n : ℕ) × (k.offers i ≡ some n)

abbrev result : List ℕ → ℕ → List ℕ → Received
result bytes calls input = record {
  complete = true;
  bytes = bytes;
  state = record { calls = calls; input = input };
}

-- The loop has read just `xs`, and left `rest`.
abbrev pub Reads : List ℕ → List ℕ → List ℕ → Received → Type 0
Reads got xs rest o = (c : ℕ) × (o ≡ result (got ++ xs) c rest)

recv_step :
    (k : Kernel) (fuel n offer : ℕ) (got xs rest : List ℕ) (calls : ℕ)
    → k.offers calls ≡ some offer
    → length xs ≡ suc n
    → let j : ℕ = min (suc n) (suc offer) in
      recv_all k (suc fuel) (suc n) got (record { calls = calls; input = xs ++ rest })
      ≡ recv_all k fuel
          (suc n - j)
          (got ++ take j xs)
          (record { calls = suc calls; input = drop j xs ++ rest })
unfolding recv_all
recv_step k fuel n offer got xs rest calls h l =
    let j : ℕ = min (suc n) (suc offer) in
    let front : take j (xs ++ rest) ≡ take j xs = take-append_le j xs rest (omega arith) in
    let size : length (take j xs) ≡ j = omega (arith, length-take j xs) in
    ground (arith, front, size, drop-append_le j xs rest (omega arith))

pub recv_all-Reads :
    (k : Kernel) (fuel n : ℕ) (got xs rest : List ℕ) (calls : ℕ)
    → IsOffering k
    → length xs ≡ n
    → n ≤ fuel
    → Reads got xs rest (recv_all k fuel n got (record { calls = calls; input = xs ++ rest }))
recv_all-Reads k fuel zero got [] rest calls off l h =
    (calls, unfold recv_all in rw (append-nil got))
recv_all-Reads k fuel zero got (x ∷ xs) rest calls off l h = absurd (omega arith)
recv_all-Reads k zero (suc n) got xs rest calls off l h = absurd (omega arith)
recv_all-Reads k (suc fuel) (suc n) got xs rest calls off l h =
    let (offer, o) = off calls in
    let j : ℕ = min (suc n) (suc offer) in
    let (c, q) =
      recv_all-Reads k fuel (suc n - j) (got ++ take j xs) (drop j xs) rest (suc calls) off
        (omega (arith, length-drop j xs)) (omega arith) in
    rw (recv_step k fuel n offer got xs rest calls o l) (
      c,
      q
          ∙ ap (λ (bs : List ℕ). result bs c rest)
              (append_assoc got (take j xs) (drop j xs) ∙ ap (◌++◌ got) (take-append-drop j xs)),
    )

-- The length of a frame is read first.
recv_length :
    (k : Kernel) (msg rest : List ℕ) (calls : ℕ)
    → IsOffering k
    → (c : ℕ) × (recv_message k (record { calls = calls; input = frame msg ++ rest })
        ≡ after_length k (result (le_bytes size_bytes (length msg)) c (msg ++ rest)))
unfolding recv_message
recv_length k msg rest calls off =
    let head : List ℕ = le_bytes size_bytes (length msg) in
    let (c, q) =
      recv_all-Reads k size_bytes size_bytes [] head (msg ++ rest) calls off
        (length-le_bytes size_bytes (length msg)) (omega arith) in
    (c, rw (append_assoc head msg rest, q))

-- However recv() splits the bytes: recv_message reads the length and the bytes of a message of at
-- most 4096 bytes at the front of the stream as that message, and leaves what follows. recv() is
-- taken to give a byte or more while there are some.
pub recv_message-frame :
    (k : Kernel) (msg rest : List ℕ) (calls : ℕ)
    → IsOffering k
    → length msg ≤ max_msg_size
    → (c : ℕ) × (recv_message k (record { calls = calls; input = frame msg ++ rest })
        ≡ (some (length msg), msg, record { calls = c; input = rest }))
recv_message-frame k msg rest calls off short =
    let (b, p) = recv_length k msg rest calls off in
    let (c, q) = recv_all-Reads k (length msg) (length msg) [] msg rest b off refl (omega arith) in
    let len : of_le_bytes (le_bytes size_bytes (length msg)) ≡ length msg =
      of_le_bytes-le_bytes size_bytes (length msg) (omega arith) in
    let fits : ltb max_msg_size (length msg) ≡ false = ground arith in (c, p ∙ rw (len, fits, q))

-- However recv() splits the bytes: of a message of more than 4096 and fewer than 2^64 bytes
-- recv_message takes the eight bytes of its length and fails, and leaves the message in the
-- stream. recv() is taken to give a byte or more while there are some.
pub recv_message_oversize :
    (k : Kernel) (msg rest : List ℕ) (calls : ℕ)
    → IsOffering k
    → max_msg_size < length msg
    → length msg < 2 ^ 64
    → (c : ℕ) × (recv_message k (record { calls = calls; input = frame msg ++ rest })
        ≡ (none, [], record { calls = c; input = msg ++ rest }))
recv_message_oversize k msg rest calls off long fits =
    let (c, p) = recv_length k msg rest calls off in
    let len : of_le_bytes (le_bytes size_bytes (length msg)) ≡ length msg =
      of_le_bytes-le_bytes size_bytes (length msg) (omega arith) in
    let over : ltb max_msg_size (length msg) ≡ true = ground arith in (c, p ∙ rw (len, over))

-- However send() and recv() split the bytes: what send_message wrote to an empty stream, when it
-- has returned, is what recv_message gives, for a message of at most 4096 bytes; nothing is left
-- in the stream. A send() that does not fail is taken to move a byte or more, and recv() to give a
-- byte or more while there are some.
pub recv_message-send_message :
    (sends takes : Kernel) (fuel calls : ℕ) (msg : List ℕ) (s t : Sender)
    → IsMoving sends
    → IsOffering takes
    → length msg ≤ max_msg_size
    → size_bytes + length msg ≤ fuel
    → s.output ≡ []
    → send_message sends fuel msg s ≡ finished t
    → (c : ℕ) × (recv_message takes (record { calls = calls; input = t.output })
        ≡ (some (length msg), msg, record { calls = c; input = [] }))
recv_message-send_message sends takes fuel calls msg s t mv off short h e q =
    let sent : Sends s.output (frame msg) (finished t) =
      rw q at (send_message-Sends sends fuel msg s mv (omega arith) h) in
    let whole : t.output ≡ frame msg ++ [] = sent ∙ rw (e, append-nil (frame msg)) in
    rw whole (recv_message-frame takes msg [] calls off short)

recv_all_end :
    (k : Kernel) (fuel n calls offer : ℕ)
    → k.offers calls ≡ some offer
    → recv_all k (suc fuel) (suc n) [] (record { calls = calls; input = [] })
      ≡ record { complete = false; bytes = []; state = record { calls = suc calls; input = [] } }
unfolding recv_all
recv_all_end k fuel n calls offer q =
    let nothing : take {A = ℕ} (min (suc n) (suc offer)) [] ≡ [] =
      take_all (min (suc n) (suc offer)) [] (omega arith) in
    ground (arith, nothing)

-- At the end of the stream recv() gives 0 at the first byte of the length.
pub recv_message_end :
    (k : Kernel) (calls : ℕ)
    → IsOffering k
    → recv_message k (record { calls = calls; input = [] })
      ≡ (none, [], record { calls = suc calls; input = [] })
unfolding recv_message
recv_message_end k calls off =
    let (offer, q) = off calls in ap (after_length k) (recv_all_end k 7 7 calls offer q)
