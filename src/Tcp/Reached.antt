-- ===== src/Tcp/Reached.antt =====
-- The TCP side of the proxy under any order of the steps of its constructor and of its listening
-- threads.
use mathlib.Core.List.{append_assoc, map-append}
use cezfuzzer.Base.{
  ℕ, suc, ◌%◌, ◌^◌, ◌≡◌, ◌⊎◌, refl, inl, inr, ℤ, pos, false, List, [], ◌∷◌, ◌++◌, Option, none,
  some, String, map, elem, elem-delete, delete, ◌&&◌, arith, Bool-cases,
}
use cezfuzzer.Config.Entity.{TcpRedirection}
use cezfuzzer.Tcp.Channel.{
  TcpConnection, ChannelPair, Listener, TcpHandler, TcpSystem, Outcome, continued, exited,
  start_connection_thread, start_channel_threads,
}
use cezfuzzer.Tcp.Listen.{
  no_channels, listen_on, set_up_listener, start_listener, add_channel_pair, start_channel, with_fd,
  with_server, with_client, listen_turn,
}
use cezfuzzer.Tcp.Distinct.{
  Distinct, last-Distinct, last-AllIn, AllIn, AllIn-new, insert_two-Distinct, insert_two-AllIn,
}

-- A listening thread of the handler.
abbrev pub Listens : Listener → List Listener → Type 0
Listens l [] = ⊥
Listens l (m ∷ ms) = (l ≡ m) ⊎ Listens l ms

pub data Reachable (sys : TcpSystem) : TcpHandler → Type 0 where
  begin : (calls : ℕ) (open_fds : List ℕ) → Reachable sys (no_channels calls open_fds)
  redirect :
      (h : TcpHandler) (redir : TcpRedirection)
      → Reachable sys h
      → Reachable sys (listen_on sys redir h)
  accepted :
      (h h' : TcpHandler) (l : Listener)
      → Listens l h.listeners
      → listen_turn sys l h ≡ continued h'
      → Reachable sys h
      → Reachable sys h'

-- socket() and accept() give descriptors that are not open yet.
pub record IsFresh (sys : TcpSystem) : Type 0 where
  pub socket_fresh :
      (n : ℕ) (fds : List ℕ) (fd : ℕ) → sys.socket n fds ≡ some fd → elem fd fds ≡ false
  pub accept_fresh :
      (n l : ℕ) (fds : List ℕ) (fd : ℕ) (ip : String) (port : ℕ)
      → sys.accept n l fds ≡ some (fd, ip, port)
      → elem fd fds ≡ false

abbrev pub listen_fds : List Listener → List ℕ
listen_fds [] = []
listen_fds (l ∷ ls) = l.listen_fd ∷ listen_fds ls

-- The two descriptors of channels, in one list.
abbrev pub ends : List (ℕ × ℕ) → List ℕ
ends [] = []
ends ((a, b) ∷ rest) = a ∷ b ∷ ends rest

-- The threads that channels need: one for each direction.
abbrev pub directions : List (ℕ × ℕ) → List (ℤ × ℤ)
directions [] = []
directions ((a, b) ∷ rest) = (pos a, pos b) ∷ (pos b, pos a) ∷ directions rest

abbrev pub pair_fds : ChannelPair → ℤ × ℤ
pair_fds p = (p.client_side.socket_fd, p.server_side.socket_fd)

abbrev pub as_ints : ℕ × ℕ → ℤ × ℤ
as_ints (a, b) = (pos a, pos b)

ends-append :
    (xs : List (ℕ × ℕ)) (a b : ℕ) (ys : List ℕ)
    → ends (xs ++ (a, b) ∷ []) ++ ys ≡ ends xs ++ a ∷ b ∷ ys
ends-append [] a b ys = refl
ends-append ((x, y) ∷ xs) a b ys = rw (ends-append xs a b ys)

directions-append :
    (xs : List (ℕ × ℕ)) (a b : ℕ)
    → directions (xs ++ (a, b) ∷ []) ≡ directions xs ++ (pos a, pos b) ∷ (pos b, pos a) ∷ []
directions-append [] a b = refl
directions-append ((x, y) ∷ xs) a b = rw (directions-append xs a b)

listen_fds-append :
    (ls : List Listener) (l : Listener)
    → listen_fds (ls ++ l ∷ []) ≡ listen_fds ls ++ l.listen_fd ∷ []
listen_fds-append [] l = refl
listen_fds-append (m ∷ ls) l = rw (listen_fds-append ls l)

-- The descriptors in use: those of the channels `cs`, and those that threads listen on.
abbrev pub in_use : List (ℕ × ℕ) → TcpHandler → List ℕ
in_use cs h = ends cs ++ listen_fds h.listeners

more_listen_fds :
    (ls : List Listener) (l : Listener) (cs : List (ℕ × ℕ))
    → ends cs ++ listen_fds (ls ++ l ∷ []) ≡ (ends cs ++ listen_fds ls) ++ l.listen_fd ∷ []
more_listen_fds ls l cs =
    rw (listen_fds-append ls l, append_assoc (ends cs) (listen_fds ls) (l.listen_fd ∷ [])) refl

-- The handler has the channels `cs`, each with a thread in both directions, and no descriptor that is
-- in use is in use twice or closed.
pub record IsPaired (h : TcpHandler) (cs : List (ℕ × ℕ)) : Type 0 where
  pub channels : map pair_fds h.channel_pairs ≡ map as_ints cs
  pub threads : h.channel_threads ≡ directions cs
  pub distinct : Distinct (in_use cs h)
  pub still_open : AllIn (in_use cs h) h.open_fds

module _ (sys : TcpSystem) (f : IsFresh sys) (starts : (n : ℕ) → sys.create_thread n ≡ pos 0) where
  -- What start_channel does to the handler.
  abbrev channel_started : TcpConnection → TcpConnection → TcpHandler → TcpHandler
  channel_started c s h = record h {
    calls = suc (suc h.calls);
    channel_threads =
        (h.channel_threads ++ (c.socket_fd, s.socket_fd) ∷ []) ++ (s.socket_fd, c.socket_fd) ∷ [];
    channel_pairs = h.channel_pairs ++ record { client_side = c; server_side = s } ∷ [];
  }

  start_channel_lem :
      (c s : TcpConnection) (h : TcpHandler)
      → start_channel sys c s h ≡ continued (channel_started c s h)
  unfolding start_channel start_channel_threads start_connection_thread add_channel_pair
  start_channel_lem c s h = rw (starts h.calls, starts (suc h.calls)) refl

  start_channel-IsPaired :
      (a b : ℕ) (c s : TcpConnection) (h : TcpHandler) (cs : List (ℕ × ℕ))
      → c.socket_fd ≡ pos a
      → s.socket_fd ≡ pos b
      → elem a h.open_fds ≡ false
      → elem b (a ∷ h.open_fds) ≡ false
      → IsPaired h cs
      → IsPaired (channel_started c s (with_fd b (with_fd a h))) (cs ++ (a, b) ∷ [])
  start_channel-IsPaired a b c s h cs ca sb new_a new_b w = record {
    channels =
        rw
          (
            map-append pair_fds h.channel_pairs (record { client_side = c; server_side = s } ∷ []),
            map-append as_ints cs ((a, b) ∷ []),
            w.channels,
            ca,
            sb,
          )
          refl;
    threads =
        rw (directions-append cs a b, w.threads, ca, sb)
          (append_assoc (directions cs) ((pos a, pos b) ∷ []) ((pos b, pos a) ∷ []));
    distinct = rw (ends-append cs a b (listen_fds h.listeners)) (
        insert_two-Distinct a b (ends cs) (listen_fds h.listeners) h.open_fds w.still_open new_a
          new_b w.distinct);
    still_open = rw (ends-append cs a b (listen_fds h.listeners)) (
        insert_two-AllIn a b (ends cs) (listen_fds h.listeners) h.open_fds w.still_open new_a
          new_b);
  }

  -- Some channels that the handler has after a round, if the process goes on.
  abbrev Keeps : Outcome → Type 0
  Keeps (continued h) = (cs : List (ℕ × ℕ)) × IsPaired h cs
  Keeps exited = Unit {0}

  counted-IsPaired :
      (h : TcpHandler) (n : ℕ) (cs : List (ℕ × ℕ))
      → IsPaired h cs
      → IsPaired (record h { calls = n }) cs
  counted-IsPaired h n cs w = record {
    channels = w.channels;
    threads = w.threads;
    distinct = w.distinct;
    still_open = w.still_open;
  }

  with_server-Keeps :
      (l : Listener) (a : ℕ) (c : TcpConnection) (o : Option ℕ) (h : TcpHandler) (cs : List (ℕ × ℕ))
      → c.socket_fd ≡ pos a
      → elem a h.open_fds ≡ false
      → ((b : ℕ) → o ≡ some b → elem b (a ∷ h.open_fds) ≡ false)
      → IsPaired h cs
      → Keeps (with_server sys l c o (with_fd a h))
  with_server-Keeps l a c none h cs ca new_a new_b w = tt
  with_server-Keeps l a c (some b) h cs ca new_a new_b w =
      elim (Bool-cases (sys.connect h.calls b l.ip (l.port % 2 ^ 16))) [
        | inr refused ↦ rw refused tt
        | inl connected ↦
            let s : TcpConnection = record {
              socket_fd = pos b;
              ip = l.ip;
              port = l.port % 2 ^ 16;
            } in
            rw (connected, start_channel_lem c s (with_fd b (with_fd a h)))
              (
                cs ++ (a, b) ∷ [],
                start_channel-IsPaired a b c s h cs ca refl new_a (new_b b refl) w,
              )
      ]

  with_client-Keeps :
      (l : Listener) (o : Option (ℕ × String × ℕ)) (h : TcpHandler) (cs : List (ℕ × ℕ))
      → ((fd : ℕ) (ip : String) (port : ℕ) → o ≡ some (fd, ip, port) → elem fd h.open_fds ≡ false)
      → IsPaired h cs
      → Keeps (with_client sys l o h)
  with_client-Keeps l none h cs new w = (cs, w)
  with_client-Keeps l (some (a, ip, port)) h cs new w =
      with_server-Keeps l a _ (sys.socket h.calls (a ∷ h.open_fds)) h cs refl (new a ip port refl)
        (λ b q. f.socket_fresh h.calls (a ∷ h.open_fds) b q) w

  listen_turn-Keeps :
      (l : Listener) (h : TcpHandler) (cs : List (ℕ × ℕ))
      → IsPaired h cs
      → Keeps (listen_turn sys l h)
  unfolding listen_turn
  listen_turn-Keeps l h cs w =
      with_client-Keeps l (sys.accept h.calls l.listen_fd h.open_fds) _ cs
        (λ fd ip port q. f.accept_fresh h.calls l.listen_fd h.open_fds fd ip port q)
        (counted-IsPaired h (suc h.calls) cs w)

  close_new :
      (fd : ℕ) (xs others : List ℕ)
      → AllIn xs others
      → elem fd others ≡ false
      → AllIn xs (delete fd (fd ∷ others))
  close_new fd xs others h new p e = ground (arith, elem-delete p fd others, h p e, new)

  set_up_listener-IsPaired :
      (redir : TcpRedirection) (o : Option ℕ) (h : TcpHandler) (cs : List (ℕ × ℕ))
      → ((fd : ℕ) → o ≡ some fd → elem fd h.open_fds ≡ false)
      → IsPaired h cs
      → IsPaired (set_up_listener sys redir o h) cs
  unfolding start_listener
  set_up_listener-IsPaired redir none h cs new w = w
  set_up_listener-IsPaired redir (some fd) h cs new w =
      elim (Bool-cases (sys.bind h.calls redir.proxy_port && sys.listen h.calls)) [
        | inr failed ↦ rw failed (record {
          channels = w.channels;
          threads = w.threads;
          distinct = w.distinct;
          still_open = close_new fd (in_use cs h) h.open_fds w.still_open (new fd refl);
        })
        | inl listening ↦
            rw (listening, starts h.calls)
              (record {
                channels = w.channels;
                threads = w.threads;
                distinct = rw (more_listen_fds h.listeners _ cs) (
                    last-Distinct fd (in_use cs h) w.distinct
                      (AllIn-new fd (in_use cs h) h.open_fds w.still_open (new fd refl)));
                still_open =
                    rw (more_listen_fds h.listeners _ cs)
                      (last-AllIn fd (in_use cs h) h.open_fds w.still_open);
              })
      ]

  listen_on-IsPaired :
      (redir : TcpRedirection) (h : TcpHandler) (cs : List (ℕ × ℕ))
      → IsPaired h cs
      → IsPaired (listen_on sys redir h) cs
  unfolding listen_on
  listen_on-IsPaired redir h cs w =
      set_up_listener-IsPaired redir (sys.socket h.calls h.open_fds) _ cs
        (λ fd q. f.socket_fresh h.calls h.open_fds fd q) (counted-IsPaired h (suc h.calls) cs w)

  -- In every state that the TCP handler reaches by rounds of its constructor and of its listening
  -- threads, in any order: there are channels of two descriptors each, those of the handler's
  -- pairs in order, whose threads are exactly one for each direction of each channel; no
  -- descriptor of a channel or of a listening thread is used twice, and all are open. socket() and
  -- accept() are taken to give only descriptors that are not open, and pthread_create() to
  -- succeed.
  pub Reachable-IsPaired : (h : TcpHandler) → Reachable sys h → (cs : List (ℕ × ℕ)) × IsPaired h cs
  Reachable-IsPaired _ (begin calls fds) =
      ([], record { channels = refl; threads = refl; distinct = tt; still_open = λ p e. cc })
  Reachable-IsPaired _ (redirect h redir r) =
      let (cs, w) = Reachable-IsPaired h r in (cs, listen_on-IsPaired redir h cs w)
  Reachable-IsPaired _ (accepted h h' l there e r) =
      let (cs, w) = Reachable-IsPaired h r in rw e at (listen_turn-Keeps l h cs w)
