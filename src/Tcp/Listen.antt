-- ===== src/Tcp/Listen.antt =====
-- proxy/src/TCPHandler.cpp: the constructor, which opens the listening sockets, and a round of the
-- loop of _listen_thread.
use cezfuzzer.Base.{
  ℕ, suc, ◌%◌, ◌^◌, pos, eq_ℤ, List, [], ◌∷◌, ◌++◌, Option, none, some, String, delete,
  if◌then◌else◌, ◌&&◌,
}
use cezfuzzer.Config.Entity.{TcpRedirection}
use cezfuzzer.Tcp.Channel.{
  TcpConnection, ChannelPair, channel_pair, Listener, TcpHandler, TcpSystem, Outcome, continued,
  exited, then_do, start_channel_threads,
}

-- A new handler.
abbrev pub no_channels : ℕ → List ℕ → TcpHandler
no_channels calls open_fds = record {
  calls = calls;
  open_fds = open_fds;
  listen_sockets = [];
  channel_pairs = [];
  listeners = [];
  channel_threads = [];
}

-- addChannelPair
unfoldable pub add_channel_pair : ChannelPair → TcpHandler → TcpHandler
add_channel_pair pair h = record h { channel_pairs = h.channel_pairs ++ pair ∷ [] }

-- A descriptor that a call has opened.
abbrev pub with_fd : ℕ → TcpHandler → TcpHandler
with_fd fd h = record h { open_fds = fd ∷ h.open_fds }

abbrev pub close : ℕ → TcpHandler → TcpHandler
close fd h = record h { open_fds = delete fd h.open_fds }

-- setClientSide and setServerSide on a new pair.
abbrev pub sides : TcpConnection → TcpConnection → ChannelPair
sides from_client to_server = record (record channel_pair { client_side = from_client }) {
  server_side = to_server;
}

module _ (sys : TcpSystem) where
  -- The start of the listening thread.
  unfoldable pub start_listener : TcpRedirection → ℕ → TcpHandler → TcpHandler
  start_listener redir listen_fd h =
      let thread_args : Listener = record {
        port = redir.server_port;
        ip = redir.server_ip;
        proxy_port = redir.proxy_port;
        listen_fd = listen_fd;
      } in
      if eq_ℤ (sys.create_thread h.calls) (pos 0)
      then record h { listeners = h.listeners ++ thread_args ∷ [] }
      else close listen_fd h

  abbrev pub set_up_listener : TcpRedirection → Option ℕ → TcpHandler → TcpHandler
  set_up_listener redir none h = h
  set_up_listener redir (some listen_fd) h =
      let opened : TcpHandler = with_fd listen_fd h in
      if sys.bind h.calls redir.proxy_port && sys.listen h.calls
      then start_listener redir listen_fd
          (record opened { listen_sockets = opened.listen_sockets ++ listen_fd ∷ [] })
      else close listen_fd opened

  -- A round of the loop of the constructor.
  unfoldable pub listen_on : TcpRedirection → TcpHandler → TcpHandler
  listen_on redir h =
      set_up_listener redir (sys.socket h.calls h.open_fds) (record h { calls = suc h.calls })

  unfoldable pub tcp_handler : List TcpRedirection → TcpHandler → TcpHandler
  tcp_handler [] h = h
  tcp_handler (redir ∷ redirs) h = tcp_handler redirs (listen_on redir h)

  -- _pair with its threads, in the handler.
  unfoldable pub start_channel : TcpConnection → TcpConnection → TcpHandler → Outcome
  start_channel from_client to_server h =
      let pair : ChannelPair = sides from_client to_server in
      then_do (start_channel_threads sys pair h) (λ h'. continued (add_channel_pair pair h'))

  abbrev pub with_server : Listener → TcpConnection → Option ℕ → TcpHandler → Outcome
  with_server args from_client none h = exited
  with_server args from_client (some fd) h =
      if sys.connect h.calls fd args.ip (args.port % 2 ^ 16)
      then start_channel from_client
          (record { socket_fd = pos fd; ip = args.ip; port = args.port % 2 ^ 16 }) (with_fd fd h)
      else exited

  abbrev pub with_client : Listener → Option (ℕ × String × ℕ) → TcpHandler → Outcome
  with_client args none h = continued h
  with_client args (some (fd, client_ip, client_port)) h =
      with_server args (record { socket_fd = pos fd; ip = client_ip; port = client_port })
        (sys.socket h.calls (fd ∷ h.open_fds)) (with_fd fd h)

  -- A round of the loop of _listen_thread.
  unfoldable pub listen_turn : Listener → TcpHandler → Outcome
  listen_turn args h =
      with_client args (sys.accept h.calls args.listen_fd h.open_fds)
        (record h { calls = suc h.calls })
