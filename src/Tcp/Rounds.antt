-- ===== src/Tcp/Rounds.antt =====
-- A round of _listen_thread, whatever the calls that it makes give.
use cezfuzzer.Base.{
  ℕ, suc, ◌%◌, ◌^◌, ◌≡◌, ◌⊎◌, inl, inr, refl, ℤ, pos, eq_ℤ, true, false, List, [], ◌∷◌, ◌++◌, none,
  some, String, if◌then◌else◌, Bool-cases, Option-cases,
}
use cezfuzzer.Tcp.Channel.{
  ChannelPair, Listener, TcpHandler, TcpSystem, continued, exited, is_negative,
  start_connection_thread, start_channel_threads,
}
use cezfuzzer.Tcp.Listen.{add_channel_pair, start_channel, listen_turn}

-- A thread with its two descriptors, if pthread_create() gives 0.
abbrev pub started_thread : TcpSystem → ℕ → ℤ × ℤ → List (ℤ × ℤ)
started_thread sys n t = if eq_ℤ (sys.create_thread n) (pos 0) then t ∷ [] else []

-- A channel more, with the threads of its two directions that pthread_create() started.
pub record AddsChannel (sys : TcpSystem) (l : Listener) (a b : ℕ) (h h' : TcpHandler) : Type 0 where
  pub pair : ChannelPair
  pub fds : (pair.client_side.socket_fd ≡ pos a) × (pair.server_side.socket_fd ≡ pos b)
  pub added : h'.channel_pairs ≡ h.channel_pairs ++ pair ∷ []
  pub server : (pair.server_side.ip ≡ l.ip) × (pair.server_side.port ≡ l.port % 2 ^ 16)
  pub started :
      h'.channel_threads
      ≡ (h.channel_threads
          ++ started_thread sys
              (suc h.calls)
              (pair.client_side.socket_fd, pair.server_side.socket_fd))
        ++ started_thread sys
            (suc (suc h.calls))
            (pair.server_side.socket_fd, pair.client_side.socket_fd)

-- Whether accept() gives a client, and socket() and connect() a connection to the server for it.
pub data Reaches (sys : TcpSystem) (l : Listener) (h : TcpHandler) : Type 0 where
  nobody : sys.accept h.calls l.listen_fd h.open_fds ≡ none → Reaches sys l h
  unconnected :
      (a : ℕ) (ip : String) (port : ℕ)
      → sys.accept h.calls l.listen_fd h.open_fds ≡ some (a, ip, port)
      → (sys.socket (suc h.calls) (a ∷ h.open_fds) ≡ none)
        ⊎ ((b : ℕ) × (sys.socket (suc h.calls) (a ∷ h.open_fds) ≡ some b)
            × (sys.connect (suc h.calls) b l.ip (l.port % 2 ^ 16) ≡ false))
      → Reaches sys l h
  connected :
      (a b : ℕ) (ip : String) (port : ℕ)
      → sys.accept h.calls l.listen_fd h.open_fds ≡ some (a, ip, port)
      → sys.socket (suc h.calls) (a ∷ h.open_fds) ≡ some b
      → sys.connect (suc h.calls) b l.ip (l.port % 2 ^ 16) ≡ true
      → Reaches sys l h

-- The round that follows.
abbrev pub IsRound : (sys : TcpSystem) (l : Listener) (h : TcpHandler) → Reaches sys l h → Type 0
IsRound sys l h (nobody e) = listen_turn sys l h ≡ continued (record h { calls = suc h.calls })
IsRound sys l h (unconnected a ip port e why) = listen_turn sys l h ≡ exited
IsRound sys l h (connected a b ip port e q r) =
    (h' : TcpHandler) × (listen_turn sys l h ≡ continued h') × AddsChannel sys l a b h h'

module _ (sys : TcpSystem) (unheeded : (n : ℕ) → is_negative (sys.create_thread n) ≡ false) where
  IsRound-given : (l : Listener) (h : TcpHandler) (r : Reaches sys l h) → IsRound sys l h r
  unfolding listen_turn start_channel start_channel_threads start_connection_thread add_channel_pair
  IsRound-given l h (nobody e) = rw e refl
  IsRound-given l h (unconnected a ip port e (inl q)) = rw (e, q) refl
  IsRound-given l h (unconnected a ip port e (inr (b, q, r))) = rw (e, q, r) refl
  IsRound-given l h (connected a b ip port e q r) =
      rw (e, q, r, unheeded (suc h.calls), unheeded (suc (suc h.calls)))
        (
          _,
          refl,
          record {
            pair = _;
            fds = (refl, refl);
            added = refl;
            server = (refl, refl);
            started = refl;
          },
        )

  reaches : (l : Listener) (h : TcpHandler) → Reaches sys l h
  reaches l h = elim (Option-cases (sys.accept h.calls l.listen_fd h.open_fds)) [
    | inl e ↦ nobody e
    | inr ((a, ip, port), e) ↦ elim (Option-cases (sys.socket (suc h.calls) (a ∷ h.open_fds))) [
      | inl q ↦ unconnected a ip port e (inl q)
      | inr (b, q) ↦ elim (Bool-cases (sys.connect (suc h.calls) b l.ip (l.port % 2 ^ 16))) [
        | inl r ↦ connected a b ip port e q r
        | inr r ↦ unconnected a ip port e (inr (b, q, r))
      ]
    ]
  ]

  -- A round of _listen_thread goes on with nothing added exactly where accept() fails, and ends
  -- the process exactly where accept() succeeds and socket() or connect() fails. Else it adds the
  -- channel of the two descriptors to the handler, with the threads of the two directions that
  -- pthread_create() started, even if there are none. pthread_create() is taken never to give a
  -- negative number.
  pub listen_turn_cases :
      (l : Listener) (h : TcpHandler) → (r : Reaches sys l h) × IsRound sys l h r
  listen_turn_cases l h = (reaches l h, IsRound-given l h (reaches l h))
