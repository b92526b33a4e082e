-- ===== src/Launcher/Welcome.antt =====
-- A new client, from the server's list of clients to the processes that the client starts.
use mathlib.Core.List.{append-nil}
use cezfuzzer.Base.{
  ℕ, suc, ◌-◌, ◌≤◌, ◌<◌, ◌≡◌, refl, ap, ◌∙◌, sym, ℤ, Bool, true, false, List, [], ◌∷◌, ◌++◌, Option,
  none, some, inl, inr, ◌⊎◌, ◌↔◌, length, replicate, arith, elem, ltb, ◌==◌, Bool-cases, c_string,
  NoZero, c_string_self, c_string_unended,
}
use cezfuzzer.Wire.Stream.{Kernel, Sender, finished, Receiver, recv_message, max_msg_size}
use cezfuzzer.Wire.Sending.{frame}
use cezfuzzer.Wire.Total.{IsWilling, send_message_returns}
use cezfuzzer.Wire.Receiving.{IsOffering, recv_message-frame}
use cezfuzzer.Launcher.Messages.{start_text, buffer_of, strncmp_eq}
use cezfuzzer.Launcher.Config.{EntityConfig, get_entities}
use cezfuzzer.Launcher.Client.{Client, start_entities, multiplex_message}
use cezfuzzer.Launcher.Clients.{
  ClientInfo, add_new_client, send_client_ip, send_client_ip-add_new_client,
}
use cezfuzzer.Launcher.Session.{
  Session, ip_size, take_ip, into_buffer, with_message, set_entities_list, client_turn,
  greet_client, send_start_signal,
}
use cezfuzzer.Launcher.Rounds.{after, client_turn-frame}

get_entities_same :
    (a b : List ℕ) (all : List EntityConfig)
    → c_string a ≡ c_string b
    → get_entities a all ≡ get_entities b all
unfolding get_entities
get_entities_same a b [] e = refl
get_entities_same a b (entity ∷ all) e = rw (e, get_entities_same a b all e)

-- 64 bytes that hold a text of fewer bytes.
with_message_lem :
    (all : List EntityConfig) (c : Client) (ret : Option ℕ) (bytes ip : List ℕ) (r : Receiver)
    → length bytes ≡ 64
    → c_string bytes ≡ ip
    → NoZero ip
    → length ip ≤ 15
    → with_message all c (ret, bytes, r)
      ≡ some (record { ip = ip; entities = get_entities ip all; processes = c; stream = r })
with_message_lem all c ret bytes ip r size text plain short =
    let same : c_string bytes ≡ c_string ip = text ∙ sym (c_string_self ip plain) in
    let filled : into_buffer bytes ≡ some bytes = rw size (ap some (append-nil bytes)) in
    let ended : elem 0 bytes ≡ true = elim (Bool-cases (elem 0 bytes)) [
      | inl e ↦ e
      | inr e ↦ absurd (omega (arith, ap length (c_string_unended bytes e), ap length text))
    ] in
    rw (filled, ended, text, get_entities_same bytes ip all same)

module _ (k : Kernel) (w : IsWilling k) (fuel : ℕ) where
  greeting :
      (fd : ℤ) (clients : List ClientInfo) (bytes : List ℕ) (s : Sender)
      → send_client_ip fd clients ≡ some bytes
      → length bytes ≡ 64
      → 72 ≤ fuel
      → s.output ≡ []
      → (t : Sender) × (greet_client k fuel fd clients s ≡ some (finished t))
        × (t.output ≡ frame bytes ++ (frame start_text ++ []))
  unfolding greet_client send_start_signal
  greeting fd clients bytes s q size enough empty =
      let (t, p, out) = send_message_returns k fuel bytes s w (omega arith) (omega arith) in
      let (u, p', out') = send_message_returns k fuel start_text t w (omega arith) (omega arith) in
      (
        u,
        rw (q, p, p'),
        out'
            ∙ ap (λ o. o ++ frame start_text) (out ∙ ap (λ o. o ++ frame bytes) empty)
            ∙ ap (λ o. frame bytes ++ o) (sym (append-nil (frame start_text))),
      )

start_message :
    (forks_ok : ℕ → Bool) (n : ℕ) (c : Client)
    → multiplex_message forks_ok n (buffer_of start_text) c ≡ start_entities forks_ok n c
unfolding multiplex_message strncmp_eq buffer_of
start_message forks_ok n c = refl

-- The client on a stream of a greeting: 64 bytes with its address, and START.
greeted :
    (k : Kernel) (off : IsOffering k) (forks_ok : ℕ → Bool) (all : List EntityConfig) (c : Client)
    (bytes ip : List ℕ) (r : Receiver)
    → length bytes ≡ 64
    → c_string bytes ≡ ip
    → NoZero ip
    → length ip ≤ 15
    → r.input ≡ frame bytes ++ (frame start_text ++ [])
    → (d : Session) × (calls : ℕ) × (set_entities_list k all c r ≡ some d)
      × (client_turn k forks_ok d ≡ record {
        ip = ip;
        entities = get_entities ip all;
        processes = start_entities forks_ok (length (get_entities ip all)) c;
        stream = record { calls = calls; input = [] };
      })
unfolding set_entities_list
greeted k off forks_ok all c bytes ip r size text plain short e =
    let (read, p) = recv_message-frame k bytes (frame start_text ++ []) r.calls off (omega arith) in
    let d : Session = record {
      ip = ip;
      entities = get_entities ip all;
      processes = c;
      stream = record { calls = read; input = frame start_text ++ [] };
    } in
    let (calls, q) = client_turn-frame k off forks_ok d start_text [] (omega arith) refl in
    (
      d,
      calls,
      ap (with_message all c)
            (ap (λ i. recv_message k (record { calls = r.calls; input = i })) e ∙ p)
          ∙ with_message_lem all c (some (length bytes)) bytes ip d.stream size text plain short,
      q ∙ ap (λ t. after d t calls []) (start_message forks_ok (length (get_entities ip all)) c),
    )

-- What a client has become after its first round.
abbrev pub Starts : (ℕ → Bool) → List EntityConfig → Client → List ℕ → Session → Type 0
Starts forks_ok all c ip d =
    (d.ip ≡ ip)
    × (d.entities ≡ get_entities ip all)
    × (d.processes ≡ start_entities forks_ok (length (get_entities ip all)) c)
    × (d.stream.input ≡ [])

-- A client whose descriptor is not in the server's list, and whose address has at most 15 bytes,
-- none of them 0, is added with memory granted and greeted on an empty stream, with fuel for 72
-- bytes. Then the greeting is sent; the client's set_entities_list reads it within its buffer; and
-- after its first round the client knows its address and its entities, has started them, and has
-- used up the stream. Every send() is taken to take a byte or more, recv() to give a byte or more
-- while there are some.
pub client_turn-greet_client :
    (sends takes : Kernel) (fuel : ℕ) (forks_ok : ℕ → Bool) (clients : List ClientInfo)
    (junk ip : List ℕ) (fd : ℤ) (port calls : ℕ) (s : Sender) (all : List EntityConfig) (c : Client)
    → IsWilling sends
    → IsOffering takes
    → 72 ≤ fuel
    → send_client_ip fd clients ≡ none
    → length junk ≡ 64
    → NoZero ip
    → length ip ≤ 15
    → s.output ≡ []
    → (t : Sender) × (d : Session) × (greet_client sends fuel fd
          (add_new_client true junk fd ip port clients).0
          s
        ≡ some (finished t))
      × (set_entities_list takes all c (record { calls = calls; input = t.output }) ≡ some d)
      × Starts forks_ok all c ip (client_turn takes forks_ok d)
client_turn-greet_client sends takes fuel forks_ok clients junk ip fd port calls s all c w off
      enough new size plain short empty =
    elim (send_client_ip-add_new_client true junk ip fd port clients new size plain short) [
      | inr (wrong, e) ↦ cc wrong
      | inl (granted, (bytes, sent, len, text)) ↦
          let (t, p, out) = greeting sends w fuel fd _ bytes s sent len enough empty in
          let (d, read, q, turn) =
            greeted takes off forks_ok all c bytes ip (record { calls = calls; input = t.output })
              len text plain short out in
          (t, d, p, q, rw turn (refl, refl, refl, refl))
    ]

elem-append_zeros : (bytes : List ℕ) (n : ℕ) → elem 0 (bytes ++ replicate (suc n) 0) ≡ true
elem-append_zeros [] n = refl
elem-append_zeros (x ∷ xs) n = ground (arith, elem-append_zeros xs n)

-- The messages that set_entities_list cannot hold.
abbrev pub IsTooLong : List ℕ → Type 0
IsTooLong msg = (ip_size < length msg) ⊎ ((length msg ≡ ip_size) × (elem 0 msg ≡ false))

take_ip_cases :
    (all : List EntityConfig) (buffer : List ℕ) (c : Client) (r : Receiver)
    → (take_ip all buffer c r ≡ none) ↔ (elem 0 buffer ≡ false)
take_ip_cases all buffer c r = elim (Bool-cases (elem 0 buffer)) [
  | inl ended ↦ rw ended (λ e. cc, λ e. cc)
  | inr open_end ↦ rw open_end (λ e. refl, λ e. refl)
]

with_message_cases :
    (all : List EntityConfig) (c : Client) (ret : Option ℕ) (msg : List ℕ) (r : Receiver)
    → (with_message all c (ret, msg, r) ≡ none) ↔ IsTooLong msg
with_message_cases all c ret msg r = elim (Bool-cases (ltb ip_size (length msg))) [
  | inl over ↦ rw over (λ e. inl (ground arith), λ e. refl)
  | inr fits ↦ elim (Bool-cases (length msg == ip_size)) [
    | inl full ↦
        let size : length msg ≡ ip_size = ground arith in
        let filled : into_buffer msg ≡ some msg = rw size (ap some (append-nil msg)) in
        let (to, from) = take_ip_cases all msg c r in
        rw filled (λ e. inr (size, to e), λ e. from (ground (arith, e)))
    | inr less ↦
        let (n, gap) : (n : ℕ) × (ip_size - length msg ≡ suc n) =
          (ip_size - length msg - 1, ground arith) in
        let ended : elem 0 (msg ++ replicate (ip_size - length msg) 0) ≡ true =
          rw gap (elem-append_zeros msg n) in
        rw (fits, ended) (λ e. cc, λ e. ground arith)
  ]
]

-- For a first message of at most 4096 bytes, set_entities_list writes or reads behind its buffers
-- exactly when the message has more than 64 bytes, or has 64 and none of them is 0. recv() is
-- taken to give a byte or more while there are some.
pub set_entities_list_overflow :
    (k : Kernel) (all : List EntityConfig) (c : Client) (msg rest : List ℕ) (calls : ℕ)
    → IsOffering k
    → length msg ≤ max_msg_size
    → (set_entities_list k all c (record { calls = calls; input = frame msg ++ rest }) ≡ none)
      ↔ IsTooLong msg
unfolding set_entities_list
set_entities_list_overflow k all c msg rest calls off short =
    let (read, p) = recv_message-frame k msg rest calls off short in
    rw p (with_message_cases all c (some (length msg)) msg (record { calls = read; input = rest }))
