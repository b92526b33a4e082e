-- ===== src/Launcher/Session.antt =====
-- What the server sends to a new client, and what the client does with what it receives:
-- handle_client_connection of luncher/server/src/Server.cpp, set_entities_list and client_loop of
-- luncher/client/src/Client.cpp.
use cezfuzzer.Base.{
  ℕ, zero, suc, ◌-◌, ℤ, Bool, List, ◌++◌, Option, none, some, if◌then◌else◌, ltb, elem, length,
  replicate, c_string,
}
use cezfuzzer.Wire.Stream.{
  Kernel, Sender, Sending, finished, exited, looping, send_message, Receiver, recv_message,
}
use cezfuzzer.Launcher.Messages.{start_text, buffer_of}
use cezfuzzer.Launcher.Config.{EntityConfig, get_entities}
use cezfuzzer.Launcher.Clients.{ClientInfo, send_client_ip}
use cezfuzzer.Launcher.Client.{Client, multiplex_message}

module _ (k : Kernel) (fuel : ℕ) where
  -- send_start_signal
  unfoldable pub send_start_signal : Sender → Sending
  send_start_signal s = send_message k fuel start_text s

  abbrev then_start : Sending → Sending
  then_start (finished s) = send_start_signal s
  then_start (exited s) = exited s
  then_start looping = looping

  abbrev pub greet_at : Option (List ℕ) → Sender → Option Sending
  greet_at none s = none
  greet_at (some bytes) s = some (then_start (send_message k fuel bytes s))

  -- handle_client_connection before its loop. Reading the unset pointer of send_client_ip is none.
  unfoldable pub greet_client : ℤ → List ClientInfo → Sender → Option Sending
  greet_client client_fd clients s = greet_at (send_client_ip client_fd clients) s

-- char buffer[64], char IP[64]
abbrev pub ip_size : ℕ
ip_size = 64

-- The client: what it knows of itself, its processes, and the stream from the server.
pub record Session : Type 0 where
  pub ip : List ℕ
  pub entities : List EntityConfig
  pub processes : Client
  pub stream : Receiver

-- strcpy(IP, buffer) and getEntities(buffer); none if the text does not end in the buffer.
abbrev pub take_ip : List EntityConfig → List ℕ → Client → Receiver → Option Session
take_ip all buffer processes r =
    if elem 0 buffer
    then some (record {
      ip = c_string buffer;
      entities = get_entities buffer all;
      processes = processes;
      stream = r;
    })
    else none

-- Bytes in front of a buffer of zeros; none if they write behind its end.
abbrev pub into_buffer : List ℕ → Option (List ℕ)
into_buffer bytes =
    if ltb ip_size (length bytes)
    then none
    else some (bytes ++ replicate (ip_size - length bytes) 0)

abbrev pub fill_ip : List EntityConfig → Option (List ℕ) → Client → Receiver → Option Session
fill_ip all none processes r = none
fill_ip all (some buffer) processes r = take_ip all buffer processes r

abbrev pub with_message : List EntityConfig → Client → Option ℕ × List ℕ × Receiver → Option Session
with_message all processes (ret, bytes, r) = fill_ip all (into_buffer bytes) processes r

module _ (k : Kernel) where
  -- The result is none where memory behind a buffer is written or read. `all` are the entities of the
  -- client's configuration.
  unfoldable pub set_entities_list : List EntityConfig → Client → Receiver → Option Session
  set_entities_list all processes r = with_message all processes (recv_message k r)

  -- A message in the buffer of client_loop; the result of recv_message is not looked at.
  abbrev pub act_on : (ℕ → Bool) → Session → Option ℕ × List ℕ × Receiver → Session
  act_on forks_ok c (ret, bytes, r) = record c {
    processes = multiplex_message forks_ok (length c.entities) (buffer_of bytes) c.processes;
    stream = r;
  }

  -- One round of the loop of client_loop.
  unfoldable pub client_turn : (ℕ → Bool) → Session → Session
  client_turn forks_ok c = act_on forks_ok c (recv_message k c.stream)

  -- The first rounds of the loop, which has no end.
  unfoldable pub client_rounds : ℕ → (ℕ → Bool) → Session → Session
  client_rounds zero forks_ok c = c
  client_rounds (suc n) forks_ok c = client_rounds n forks_ok (client_turn forks_ok c)
