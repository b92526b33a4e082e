-- ===== src/Launcher/Reports.antt =====
-- luncher/server/src/Server.cpp: what the rounds of handle_client_connection make of a stream.
use cezfuzzer.Base.{arith, ℕ, zero, suc, ◌+◌, ◌≤◌, ◌≡◌, refl, ap, ◌∙◌, List, [], ◌∷◌, ◌++◌, length}
use cezfuzzer.Wire.Stream.{Kernel, max_msg_size}
use cezfuzzer.Wire.Sending.{frame}
use cezfuzzer.Wire.Receiving.{IsOffering, recv_message-frame, recv_message_end}
use cezfuzzer.Launcher.Messages.{buffer_of, strncmp_eq}
use cezfuzzer.Launcher.Server.{Server, handle_message}
use cezfuzzer.Launcher.Handling.{Handling, handle_on, handle_turn, handle_rounds}
use cezfuzzer.Launcher.Rounds.{frames, AreShort}

-- The messages as the server acts on them, with no stream in between.
abbrev pub handle_all : List (List ℕ) → Server → Server
handle_all [] s = s
handle_all (msg ∷ msgs) s = handle_all msgs (handle_message s (buffer_of msg))

abbrev pub left : Server → ℕ → List ℕ → Handling
left s calls input = record { server = s; stream = record { calls = calls; input = input } }

-- A buffer of zeros is no message.
no_report : (s : Server) → handle_message s (buffer_of []) ≡ s
unfolding buffer_of handle_message strncmp_eq
no_report s = refl

module _ (k : Kernel) (off : IsOffering k) where
  pub handle_turn-frame :
      (s : Server) (calls : ℕ) (msg rest : List ℕ)
      → length msg ≤ max_msg_size
      → (calls' : ℕ) × (handle_turn k (left s calls (frame msg ++ rest))
          ≡ left (handle_message s (buffer_of msg)) calls' rest)
  unfolding handle_turn
  handle_turn-frame s calls msg rest short =
      let (calls', q) = recv_message-frame k msg rest calls off short in
      (calls', ap (handle_on (left s calls (frame msg ++ rest))) q)

  handle_rounds_end :
      (n : ℕ) (s : Server) (calls : ℕ)
      → (calls' : ℕ) × (handle_rounds k n (left s calls []) ≡ left s calls' [])
  unfolding handle_rounds handle_turn
  handle_rounds_end zero s calls = (calls, refl)
  handle_rounds_end (suc n) s calls =
      let (calls', q) = handle_rounds_end n s (suc calls) in
      (
        calls',
        ap (handle_rounds k n) (
              ap (handle_on (left s calls [])) (recv_message_end k calls off)
              ∙ ap (λ t. left t (suc calls) []) (no_report s))
            ∙ q,
      )

  -- However recv() splits the bytes: on a stream that is the frames of some messages, each of at
  -- most 4096 bytes, and then ends, the rounds of handle_client_connection do to the server what
  -- handle_message does with the messages in order, and any number of further rounds leaves the
  -- server as it is: the end of the stream does not end the loop. recv() is taken to give a byte
  -- or more while there are some, and else 0.
  pub handle_rounds-frames :
      (msgs : List (List ℕ)) (more : ℕ) (s : Server) (calls : ℕ)
      → AreShort msgs
      → (calls' : ℕ) × (handle_rounds k (length msgs + more) (left s calls (frames msgs))
          ≡ left (handle_all msgs s) calls' [])
  unfolding handle_rounds
  handle_rounds-frames [] more s calls h =
      let (calls', q) = handle_rounds_end more s calls in
      let same : 0 + more ≡ more = omega arith in
      (calls', ap (λ n. handle_rounds k n (left s calls [])) same ∙ q)
  handle_rounds-frames (msg ∷ msgs) more s calls (short, h) =
      let next : suc (length msgs) + more ≡ suc (length msgs + more) = omega arith in
      let (calls_1, q) = handle_turn-frame s calls msg (frames msgs) short in
      let (calls_2, q') =
        handle_rounds-frames msgs more (handle_message s (buffer_of msg)) calls_1 h in
      (
        calls_2,
        ap (λ n. handle_rounds k n (left s calls (frames (msg ∷ msgs)))) next
            ∙ ap (handle_rounds k (length msgs + more)) q
            ∙ q',
      )
