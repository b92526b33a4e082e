-- ===== src/Launcher/Turns.antt =====
-- The server's notification over any order of messages, new clients and turns of main.
use cezfuzzer.Base.{
  inl, inr, ℕ, ◌≡◌, ◌≢◌, ◌↔◌, refl, ℤ, Bool, true, false, List, [], ◌∷◌, map, ap, Option, none,
  some, Bool-cases,
}
use cezfuzzer.Launcher.Messages.{crash_text, restart_text, literal, strncmp_eq}
use cezfuzzer.Launcher.Server.{
  Server, Message, cleared, restart, waiting, locked, thrown, restarted, sent_texts, all_sent,
  handle_message, add_client, main_turn,
}

-- The server before its first client, once the proxy was started.
abbrev pub fresh_server : Option ℕ → Server
fresh_server launched = record {
  notification = false;
  message = cleared;
  client_fd_list = [];
  proxy_pid = launched;
}

-- The states of the server, each step being atomic under the mutex.
pub data Reachable : Server → Type 0 where
  begin : (launched : Option ℕ) → Reachable (fresh_server launched)
  receive : (s : Server) (buffer : List ℕ) → Reachable s → Reachable (handle_message s buffer)
  accept : (s : Server) (fd : ℤ) → Reachable s → Reachable (add_client s fd)
  turn :
      (s s' : Server) (delivers : ℤ → Bool) (launched : Option ℕ) (sent : List (ℤ × List ℕ))
      → main_turn delivers launched s ≡ restarted s' sent
      → Reachable s
      → Reachable s'

-- The notification is set with the text RESTART, and they are reset together.
abbrev pub message_of : Bool → Message
message_of true = restart
message_of false = cleared

pub record IsCoherent (s : Server) : Type 0 where
  pub message_is : s.message ≡ message_of s.notification

-- If every send_message() returns, each client was sent the text.
pub sent_texts_all :
    (delivers : ℤ → Bool) (fds : List ℤ)
    → all_sent delivers fds ≡ true
    → sent_texts delivers fds ≡ map (λ fd. (fd, literal restart_text)) fds
sent_texts_all delivers [] h = refl
sent_texts_all delivers (fd ∷ fds) h = elim (Bool-cases (delivers fd)) [
  | inl ok ↦
      rw ok (ap (λ t. (fd, literal restart_text) ∷ t) (sent_texts_all delivers fds (rw ok at h)))
  | inr failed ↦ absurd cc
]

handle_message-IsCoherent :
    (s : Server) (buffer : List ℕ) → IsCoherent s → IsCoherent (handle_message s buffer)
unfolding handle_message
handle_message-IsCoherent s buffer h =
    elim (Bool-cases (strncmp_eq 5 buffer (literal crash_text))) [
      | inl crash ↦ rw crash (record { message_is = refl })
      | inr other ↦ rw other h
    ]

main_turn_idle :
    (delivers : ℤ → Bool) (launched : Option ℕ) (s : Server) (b : Bool) (m : Message)
    (known : Option ℕ)
    → s.notification ≡ b
    → s.message ≡ m
    → s.proxy_pid ≡ known
    → (s' : Server) (sent : List (ℤ × List ℕ)) → main_turn delivers launched s ≡ restarted s' sent
    → IsCoherent s'
unfolding main_turn
main_turn_idle delivers launched s false m known hb hm hk s' sent e = cc
main_turn_idle delivers launched s true cleared known hb hm hk s' sent e = cc
main_turn_idle delivers launched s true restart none hb hm hk s' sent e = cc
main_turn_idle delivers launched s true restart (some pid) hb hm hk s' sent e =
    elim (Bool-cases (all_sent delivers s.client_fd_list)) [
      | inl done_all ↦ record { message_is = cc }
      | inr failed ↦ cc
    ]

pub Reachable-IsCoherent : (s : Server) → Reachable s → IsCoherent s
unfolding add_client
Reachable-IsCoherent _ (begin launched) = record { message_is = refl }
Reachable-IsCoherent _ (receive s buffer r) =
    handle_message-IsCoherent s buffer (Reachable-IsCoherent s r)
Reachable-IsCoherent _ (accept s fd r) = record {
  message_is = (Reachable-IsCoherent s r).message_is;
}
Reachable-IsCoherent _ (turn s s' delivers launched sent e r) =
    main_turn_idle delivers launched s s.notification s.message s.proxy_pid refl refl refl s' sent e

main_turn_cases :
    (delivers : ℤ → Bool) (launched : Option ℕ) (s : Server) (b : Bool) (m : Message)
    (known : Option ℕ)
    → s.notification ≡ b
    → s.message ≡ m
    → s.proxy_pid ≡ known
    → s.message ≡ message_of s.notification
    → (main_turn delivers launched s ≢ locked)
      × ((main_turn delivers launched s ≡ thrown)
          ↔ ((s.notification ≡ true) × (s.proxy_pid ≡ none)))
      × ((main_turn delivers launched s ≡ waiting) ↔ (s.notification ≡ false))
unfolding main_turn
main_turn_cases delivers launched s false m known hb hm hk h =
    ((λ e. cc), ((λ e. (cc, cc)), (λ e. cc (e.0))), ((λ e. cc), (λ e. cc)))
main_turn_cases delivers launched s true cleared known hb hm hk h = cc
main_turn_cases delivers launched s true restart none hb hm hk h =
    ((λ e. cc), ((λ e. (hb, hk)), (λ e. cc)), ((λ e. cc), (λ e. cc)))
main_turn_cases delivers launched s true restart (some pid) hb hm hk h =
    elim (Bool-cases (all_sent delivers s.client_fd_list)) [
      | inl done_all ↦ ((λ e. cc), ((λ e. (cc, cc)), (λ e. cc (e.1))), ((λ e. cc), (λ e. cc)))
      | inr failed ↦ ((λ e. cc), ((λ e. (cc, cc)), (λ e. cc (e.1))), ((λ e. cc), (λ e. cc)))
    ]

-- In a state that the server reaches from its start by messages, new clients and turns of main: a
-- turn waits exactly when no notification is set, it throws exactly when one is set and the
-- proxy's process is not known, and it never keeps the mutex with nothing done.
pub main_turn-Reachable :
    (delivers : ℤ → Bool) (launched : Option ℕ) (s : Server)
    → Reachable s
    → (main_turn delivers launched s ≢ locked)
      × ((main_turn delivers launched s ≡ thrown)
          ↔ ((s.notification ≡ true) × (s.proxy_pid ≡ none)))
      × ((main_turn delivers launched s ≡ waiting) ↔ (s.notification ≡ false))
unfolding main_turn
main_turn-Reachable delivers launched s r =
    main_turn_cases delivers launched s s.notification s.message s.proxy_pid refl refl refl
      (Reachable-IsCoherent s r).message_is
