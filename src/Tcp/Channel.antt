-- ===== src/Tcp/Channel.antt =====
-- proxy/src/TCPConnection.cpp and proxy/src/TCPHandler.cpp: the two sides of a channel, and the
-- start of its threads. The system's calls are a parameter.
use cezfuzzer.Base.{
  ℕ, suc, ℤ, pos, negsuc, minus_one, eq_ℤ, Bool, true, false, List, [], ◌∷◌, ◌++◌, Option, String,
  if◌then◌else◌,
}

-- TCP_Connection
pub record TcpConnection : Type 0 where
  pub socket_fd : ℤ
  pub ip : String
  pub port : ℕ

abbrev pub tcp_connection : TcpConnection
tcp_connection = record { socket_fd = minus_one; ip = ""; port = 0 }

-- TCP_ChannelPair
pub record ChannelPair : Type 0 where
  pub client_side : TcpConnection
  pub server_side : TcpConnection

abbrev pub channel_pair : ChannelPair
channel_pair = record { client_side = tcp_connection; server_side = tcp_connection }

-- ListenThreadArgs, less the pointer to the only handler.
pub record Listener : Type 0 where
  pub port : ℕ
  pub ip : String
  pub proxy_port : ℕ
  pub listen_fd : ℕ

-- The handler, with the open descriptors of the process and the threads that were started: those
-- that listen, and those of channels with the descriptors they receive from and send to.
pub record TcpHandler : Type 0 where
  pub calls : ℕ
  pub open_fds : List ℕ
  pub listen_sockets : List ℕ
  pub channel_pairs : List ChannelPair
  pub listeners : List Listener
  pub channel_threads : List (ℤ × ℤ)

-- The first argument of each call counts the calls, so each may go otherwise. socket() and accept()
-- see the open descriptors; accept() gives a descriptor and the client's address and port.
-- pthread_create() gives its result.
pub record TcpSystem : Type 0 where
  pub socket : ℕ → List ℕ → Option ℕ
  pub bind : ℕ → ℕ → Bool
  pub listen : ℕ → Bool
  pub accept : ℕ → ℕ → List ℕ → Option (ℕ × String × ℕ)
  pub connect : ℕ → ℕ → String → ℕ → Bool
  pub create_thread : ℕ → ℤ

-- A step of the handler, or the end of the process.
pub data Outcome : Type 0 where
  continued : TcpHandler → Outcome
  exited : Outcome

abbrev pub then_do : Outcome → (TcpHandler → Outcome) → Outcome
then_do (continued h) next = next h
then_do exited next = exited

abbrev pub is_negative : ℤ → Bool
is_negative (pos n) = false
is_negative (negsuc n) = true

module _ (sys : TcpSystem) where
  -- startConnectionThread. A positive result of pthread_create(), a failure, is not looked at.
  unfoldable pub start_connection_thread : TcpConnection → ℤ → TcpHandler → Outcome
  start_connection_thread conn forward_fd h =
      let ret : ℤ = sys.create_thread h.calls in
      if is_negative ret
      then exited
      else continued (record h {
        calls = suc h.calls;
        channel_threads =
            h.channel_threads
            ++ (if eq_ℤ ret (pos 0) then (conn.socket_fd, forward_fd) ∷ [] else []);
      })

  -- startChannelThreads
  unfoldable pub start_channel_threads : ChannelPair → TcpHandler → Outcome
  start_channel_threads pair h =
      then_do (start_connection_thread pair.client_side pair.server_side.socket_fd h)
        (start_connection_thread pair.server_side pair.client_side.socket_fd)
