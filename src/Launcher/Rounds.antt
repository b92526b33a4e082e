-- ===== src/Launcher/Rounds.antt =====
-- What the rounds of client_loop make of a stream of messages, and of the end of a stream.
use mathlib.Core.List.{append_assoc, append-nil}
use cezfuzzer.Base.{
  arith, ℕ, zero, suc, ◌+◌, sym, ◌≤◌, ◌≡◌, refl, ap, ◌∙◌, Bool, List, [], ◌∷◌, ◌++◌, length,
}
use cezfuzzer.Wire.Stream.{Kernel, recv_message, max_msg_size}
use cezfuzzer.Wire.Sending.{frame}
use cezfuzzer.Wire.Receiving.{IsOffering, recv_message-frame, recv_message_end}
use cezfuzzer.Launcher.Messages.{buffer_of, strncmp_eq}
use cezfuzzer.Launcher.Client.{Client, multiplex_message}
use cezfuzzer.Launcher.Session.{Session, act_on, client_turn, client_rounds}

-- The frames of some messages, one behind the other.
abbrev pub frames : List (List ℕ) → List ℕ
frames [] = []
frames (msg ∷ msgs) = frame msg ++ frames msgs

-- The messages as the client acts on them, with no stream in between.
abbrev pub act_on_all : (ℕ → Bool) → ℕ → List (List ℕ) → Client → Client
act_on_all forks_ok n [] c = c
act_on_all forks_ok n (msg ∷ msgs) c =
    act_on_all forks_ok n msgs (multiplex_message forks_ok n (buffer_of msg) c)

abbrev pub AreShort : List (List ℕ) → Type 0
AreShort [] = Unit {0}
AreShort (msg ∷ msgs) = (length msg ≤ max_msg_size) × AreShort msgs

no_message :
    (forks_ok : ℕ → Bool) (n : ℕ) (c : Client) → multiplex_message forks_ok n (buffer_of []) c ≡ c
unfolding buffer_of multiplex_message strncmp_eq
no_message forks_ok n c = refl

-- The session after its processes have changed and a part of its stream is left.
abbrev pub after : Session → Client → ℕ → List ℕ → Session
after c processes calls input = record c {
  processes = processes;
  stream = record { calls = calls; input = input };
}

module _ (k : Kernel) (off : IsOffering k) (forks_ok : ℕ → Bool) where
  pub client_turn-frame :
      (c : Session) (msg rest : List ℕ)
      → length msg ≤ max_msg_size
      → c.stream.input ≡ frame msg ++ rest
      → (calls : ℕ) × (client_turn k forks_ok c
          ≡ after c
              (multiplex_message forks_ok (length c.entities) (buffer_of msg) c.processes)
              calls
              rest)
  unfolding client_turn
  client_turn-frame c msg rest short e =
      let (calls, q) = recv_message-frame k msg rest c.stream.calls off short in
      (
        calls,
        ap (act_on k forks_ok c)
            (ap (λ i. recv_message k (record { calls = c.stream.calls; input = i })) e ∙ q),
      )

  -- However recv() splits the bytes: on a stream of the frames of some messages, each of at most
  -- 4096 bytes, as many rounds of client_loop do to the client's processes what multiplex_message
  -- does with the messages in order, and leave what follows the frames in the stream. recv() is
  -- taken to give a byte or more while there are some.
  pub client_rounds-frames :
      (msgs : List (List ℕ)) (c : Session) (rest : List ℕ)
      → AreShort msgs
      → c.stream.input ≡ frames msgs ++ rest
      → (calls : ℕ) × (client_rounds k (length msgs) forks_ok c
          ≡ after c (act_on_all forks_ok (length c.entities) msgs c.processes) calls rest)
  unfolding client_rounds
  client_rounds-frames [] c rest h e =
      (c.stream.calls, ap (λ i. after c c.processes c.stream.calls i) e)
  client_rounds-frames (msg ∷ msgs) c rest (short, h) e =
      let (calls, q) =
        client_turn-frame c msg (frames msgs ++ rest) short
          (e ∙ append_assoc (frame msg) (frames msgs) rest) in
      let (calls', q') =
        client_rounds-frames msgs (after c _ calls (frames msgs ++ rest)) rest h refl in
      (calls', ap (client_rounds k (length msgs) forks_ok) q ∙ q')

  -- A buffer of zeros is no message.
  client_turn_end :
      (c : Session)
      → c.stream.input ≡ []
      → (calls : ℕ) × (client_turn k forks_ok c ≡ after c c.processes calls [])
  unfolding client_turn
  client_turn_end c e = (
    suc c.stream.calls,
    ap (act_on k forks_ok c) (
          ap (λ i. recv_message k (record { calls = c.stream.calls; input = i })) e
          ∙ recv_message_end k c.stream.calls off)
        ∙ ap (λ p. after c p (suc c.stream.calls) [])
            (no_message forks_ok (length c.entities) c.processes),
  )

  -- Once the stream from the server has ended, any number of rounds of client_loop leaves the
  -- client as it is: no round ends the loop. recv() is taken to give a byte or more while there
  -- are some, and else 0.
  pub client_rounds_end :
      (n : ℕ) (c : Session)
      → c.stream.input ≡ []
      → (calls : ℕ) × (client_rounds k n forks_ok c ≡ after c c.processes calls [])
  unfolding client_rounds
  client_rounds_end zero c e = (c.stream.calls, ap (λ i. after c c.processes c.stream.calls i) e)
  client_rounds_end (suc n) c e =
      let (calls, q) = client_turn_end c e in
      let (calls', q') = client_rounds_end n (after c c.processes calls []) refl in
      (calls', ap (client_rounds k n forks_ok) q ∙ q')

  client_rounds_add :
      (n m : ℕ) (c : Session)
      → client_rounds k (n + m) forks_ok c
        ≡ client_rounds k m forks_ok (client_rounds k n forks_ok c)
  unfolding client_rounds
  client_rounds_add zero m c =
      let same : 0 + m ≡ m = omega arith in ap (λ n. client_rounds k n forks_ok c) same
  client_rounds_add (suc n) m c =
      let next : suc n + m ≡ suc (n + m) = omega arith in
      ap (λ t. client_rounds k t forks_ok c) next ∙ client_rounds_add n m (client_turn k forks_ok c)

  -- However recv() splits the bytes: on a stream that is the frames of some messages, each of at
  -- most 4096 bytes, and then ends, the rounds of client_loop do to the client's processes what
  -- multiplex_message does with the messages in order, and any number of further rounds leaves the
  -- client as it is: the end of the stream does not end the loop. recv() is taken to give a byte
  -- or more while there are some, and else 0.
  pub client_rounds-stream :
      (msgs : List (List ℕ)) (more : ℕ) (c : Session)
      → AreShort msgs
      → c.stream.input ≡ frames msgs
      → (calls : ℕ) × (client_rounds k (length msgs + more) forks_ok c
          ≡ after c (act_on_all forks_ok (length c.entities) msgs c.processes) calls [])
  client_rounds-stream msgs more c h e =
      let processes : Client = act_on_all forks_ok (length c.entities) msgs c.processes in
      let (calls, q) = client_rounds-frames msgs c [] h (e ∙ sym (append-nil (frames msgs))) in
      let (calls', q') = client_rounds_end more (after c processes calls []) refl in
      (calls', client_rounds_add (length msgs) more c ∙ ap (client_rounds k more forks_ok) q ∙ q')
