-- ===== src/Wire/Tests.antt =====
-- The framing at concrete inputs, with a kernel that splits what is sent and received.
use cezfuzzer.Base.{
  ℕ, zero, suc, ◌<◌, ◌≡◌, refl, List, [], ◌∷◌, ◌++◌, none, some, arith, length, replicate,
  length-replicate,
}
use cezfuzzer.Wire.Stream.{
  Kernel, Sender, finished, exited, send_all, send_message, recv_all, recv_message, le_bytes,
  of_le_bytes,
}
use cezfuzzer.Wire.Sending.{Sends, frame, send_message-Sends}
use cezfuzzer.Wire.Receiving.{recv_message_oversize, recv_message-send_message}

-- Three bytes at a time.
abbrev threes : Kernel
threes = record { accepts = λ i. some 3; offers = λ i. some 2 }

-- The second send() fails.
abbrev broken : Kernel
broken = record { accepts = λ i. elim i [ zero ↦ some 3 | suc j ↦ none ]; offers = λ i. some 2 }

abbrev start : Sender
start = record { calls = 0; output = [] }

abbrev crash : List ℕ
crash = 67 ∷ 82 ∷ 65 ∷ 83 ∷ 72 ∷ []

abbrev crash_frame : List ℕ
crash_frame = 5 ∷ 0 ∷ 0 ∷ 0 ∷ 0 ∷ 0 ∷ 0 ∷ 0 ∷ crash

send_test :
    send_message threes 20 crash start ≡ finished (record { calls = 5; output = crash_frame })
unfolding send_message send_all le_bytes
send_test = refl

send_fails_test :
    send_message broken 20 crash start ≡ exited (record { calls = 2; output = 5 ∷ 0 ∷ 0 ∷ [] })
unfolding send_message send_all le_bytes
send_fails_test = refl

cut_off_test :
    recv_message threes (record { calls = 0; input = 5 ∷ 0 ∷ 0 ∷ 0 ∷ 0 ∷ 0 ∷ 0 ∷ 0 ∷ 67 ∷ 82 ∷ [] })
    ≡ (none, 67 ∷ 82 ∷ [], record { calls = 5; input = [] })
unfolding recv_message recv_all of_le_bytes
cut_off_test = refl

threes_moves : (i n : ℕ) → threes.accepts i ≡ some n → 0 < n
threes_moves i n h = ground arith

threes_offers : (i : ℕ) → (n : ℕ) × (threes.offers i ≡ some n)
threes_offers i = (2, refl)

send_message-Sends_example : Sends [] (frame crash) (send_message threes 20 crash start)
send_message-Sends_example =
    send_message-Sends threes 20 crash start threes_moves (omega arith) (omega arith)

abbrev long : List ℕ
long = replicate 5000 0

long_size : length long ≡ 5000
long_size = length-replicate {A = ℕ} 5000 0

recv_message_oversize_example :
    (c : ℕ) × (recv_message threes (record { calls = 0; input = frame long ++ [] })
      ≡ (none, [], record { calls = c; input = long ++ [] }))
recv_message_oversize_example =
    recv_message_oversize threes long [] 0 threes_offers (omega (arith, long_size))
      (omega (arith, long_size))

recv_message-send_message_example :
    (c : ℕ) × (recv_message threes (record { calls = 0; input = crash_frame })
      ≡ (some 5, crash, record { calls = c; input = [] }))
recv_message-send_message_example =
    recv_message-send_message threes threes 20 0 crash start
      (record { calls = 5; output = crash_frame }) threes_moves threes_offers (omega arith)
      (omega arith) refl send_test
