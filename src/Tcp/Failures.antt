-- ===== src/Tcp/Failures.antt =====
-- What becomes of a listening socket when no thread can be started for it.
use cezfuzzer.Base.{
  ℕ, suc, ◌≡◌, ◌≢◌, ◌⊎◌, refl, inl, inr, pos, eq_ℤ, eq_ℤ_iff, true, false, List, [], ◌∷◌, ◌++◌,
  some, elem, elem-append, elem-delete, delete, ◌&&◌, arith, Bool-cases,
}
use cezfuzzer.Config.Entity.{TcpRedirection}
use cezfuzzer.Tcp.Channel.{Listener, TcpHandler, TcpSystem}
use cezfuzzer.Tcp.Listen.{listen_on, set_up_listener, start_listener}

-- A socket of the handler that is closed.
abbrev pub IsStale : ℕ → TcpHandler → Type 0
IsStale fd h = (elem fd h.listen_sockets ≡ true) × (elem fd h.open_fds ≡ false)

-- No thread, and no descriptor more than before.
abbrev pub AddsNothing : List Listener → List ℕ → TcpHandler → Type 0
AddsNothing listeners fds h' =
    (h'.listeners ≡ listeners) × ((p : ℕ) → elem p fds ≡ false → elem p h'.open_fds ≡ false)

-- One listening thread more, on an open socket of the handler.
pub record AddsListener (redir : TcpRedirection) (listeners : List Listener) (h' : TcpHandler)
    : Type 0 where
  pub listener : Listener
  pub last : h'.listeners ≡ listeners ++ listener ∷ []
  pub server : (listener.ip ≡ redir.server_ip) × (listener.port ≡ redir.server_port)
  pub open_now : elem listener.listen_fd h'.open_fds ≡ true
  pub kept : elem listener.listen_fd h'.listen_sockets ≡ true

still_absent :
    (p fd : ℕ) (fds : List ℕ) → elem p fds ≡ false → elem p (delete fd (fd ∷ fds)) ≡ false
still_absent p fd fds absent = ground (arith, elem-delete p fd fds)

module _ (sys : TcpSystem) where
  set_up_listener_cases :
      (redir : TcpRedirection) (fd : ℕ) (h : TcpHandler)
      → elem fd h.open_fds ≡ false
      → (AddsListener redir h.listeners (set_up_listener sys redir (some fd) h)
          × (sys.bind h.calls redir.proxy_port && sys.listen h.calls ≡ true)
          × (sys.create_thread h.calls ≡ pos 0))
        ⊎ (AddsNothing h.listeners h.open_fds (set_up_listener sys redir (some fd) h)
            × ((sys.bind h.calls redir.proxy_port && sys.listen h.calls ≡ false)
                ⊎ ((sys.create_thread h.calls ≢ pos 0)
                    × IsStale fd (set_up_listener sys redir (some fd) h))))
  unfolding start_listener
  set_up_listener_cases redir fd h new =
      elim (Bool-cases (sys.bind h.calls redir.proxy_port && sys.listen h.calls)) [
        | inr failed ↦ rw failed (inr ((refl, λ p e. still_absent p fd h.open_fds e), inl refl))
        | inl listening ↦ elim (Bool-cases (eq_ℤ (sys.create_thread h.calls) (pos 0))) [
          | inl started ↦
              rw (listening, started)
                (inl (
                  (
                    record {
                      listener = _;
                      last = refl;
                      server = (refl, refl);
                      open_now = ground arith;
                      kept = ground (arith, elem-append fd fd h.listen_sockets);
                    },
                    refl,
                    (eq_ℤ_iff (sys.create_thread h.calls) (pos 0)).0 started,
                  )))
          | inr refused ↦
              rw (listening, refused)
                (inr (
                  (refl, λ p e. still_absent p fd h.open_fds e),
                  inr (
                    λ e. cc ((eq_ℤ_iff (sys.create_thread h.calls) (pos 0)).1 e, refused),
                    (
                      ground (arith, elem-append fd fd h.listen_sockets),
                      still_absent fd fd h.open_fds new,
                    ),
                  ),
                ))
        ]
      ]

  -- A round of the constructor of TCPHandler on a socket that was not open starts a thread that
  -- listens on it, for the server of the redirection, and then bind(), listen() and
  -- pthread_create() have all succeeded; or it starts none and leaves nothing open that was not,
  -- and then bind() or listen() has failed, or pthread_create() has, and in that case the handler
  -- keeps the socket that it has closed.
  pub listen_on_cases :
      (redir : TcpRedirection) (fd : ℕ) (h : TcpHandler)
      → sys.socket h.calls h.open_fds ≡ some fd
      → elem fd h.open_fds ≡ false
      → (AddsListener redir h.listeners (listen_on sys redir h)
          × (sys.bind (suc h.calls) redir.proxy_port && sys.listen (suc h.calls) ≡ true)
          × (sys.create_thread (suc h.calls) ≡ pos 0))
        ⊎ (AddsNothing h.listeners h.open_fds (listen_on sys redir h)
            × ((sys.bind (suc h.calls) redir.proxy_port && sys.listen (suc h.calls) ≡ false)
                ⊎ ((sys.create_thread (suc h.calls) ≢ pos 0) × IsStale fd (listen_on sys redir h))))
  unfolding listen_on
  listen_on_cases redir fd h q new =
      rw q (set_up_listener_cases redir fd (record h { calls = suc h.calls }) new)
