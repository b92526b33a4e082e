-- ===== src/Launcher/Relaunch.antt =====
-- A restart, from the server's notification to the processes of a client.
use cezfuzzer.Base.{
  ℕ, ◌≤◌, ◌≡◌, ◌⊎◌, inl, inr, refl, ap, ◌∙◌, sym, ℤ, Bool, true, false, List, [], ◌∷◌, ◌++◌, Option,
  none, some, Bool-cases, map, length, arith, c_string,
}
use mathlib.Core.List.{append-nil}
use cezfuzzer.Wire.Stream.{Kernel, Sender, finished, send_message}
use cezfuzzer.Wire.Sending.{frame}
use cezfuzzer.Wire.Total.{IsWilling, send_message_returns}
use cezfuzzer.Wire.Receiving.{IsOffering}
use cezfuzzer.Launcher.Messages.{restart_text, literal}
use cezfuzzer.Launcher.Server.{
  Server, Message, cleared, restart, sent_texts, all_sent, main_turn, restarted,
}
use cezfuzzer.Launcher.Turns.{sent_texts_all}
use cezfuzzer.Launcher.Session.{Session, client_turn}
use cezfuzzer.Launcher.Rounds.{client_turn-frame}
use cezfuzzer.Launcher.Processes.{Reachable, IsExact, restart-IsExact}

-- The text that is sent to a client.
abbrev pub IsSent : ℤ × List ℕ → List (ℤ × List ℕ) → Type 0
IsSent m [] = ⊥
IsSent m (n ∷ ns) = (m ≡ n) ⊎ IsSent m ns

to_each : List ℤ → List (ℤ × List ℕ)
to_each fds = map (λ fd. (fd, literal restart_text)) fds

to_each-fds : (fds : List ℤ) → map (λ m. m.0) (to_each fds) ≡ fds
unfolding to_each
to_each-fds [] = refl
to_each-fds (fd ∷ fds) = ap (λ t. fd ∷ t) (to_each-fds fds)

to_each_text :
    (fds : List ℤ) (fd : ℤ) (bytes : List ℕ)
    → IsSent (fd, bytes) (to_each fds)
    → bytes ≡ literal restart_text
unfolding to_each
to_each_text [] fd bytes h = absurd h
to_each_text (x ∷ xs) fd bytes (inl e) = ap (λ m. m.1) e
to_each_text (x ∷ xs) fd bytes (inr h) = to_each_text xs fd bytes h

main_turn_sent :
    (delivers : ℤ → Bool) (launched : Option ℕ) (s : Server) (b : Bool) (m : Message)
    (known : Option ℕ)
    → s.notification ≡ b
    → s.message ≡ m
    → s.proxy_pid ≡ known
    → (s' : Server) (sent : List (ℤ × List ℕ)) → main_turn delivers launched s ≡ restarted s' sent
    → sent ≡ to_each s.client_fd_list
unfolding main_turn to_each
main_turn_sent delivers launched s false m known hb hm hk s' sent e = cc
main_turn_sent delivers launched s true cleared known hb hm hk s' sent e = cc
main_turn_sent delivers launched s true restart none hb hm hk s' sent e = cc
main_turn_sent delivers launched s true restart (some pid) hb hm hk s' sent e =
    elim (Bool-cases (all_sent delivers s.client_fd_list)) [
      | inl done_all ↦
          let texts : sent ≡ sent_texts delivers s.client_fd_list = cc in
          texts ∙ sent_texts_all delivers s.client_fd_list done_all
      | inr failed ↦ cc
    ]

-- When a turn of the server's main restarts, it sends a text to every client of the list, in
-- order. Each text, sent whole on an empty stream with fuel for 16 bytes to a client in a state
-- that it reaches, has the effect on the client's next round that the live processes are exactly
-- those of its list, all forked after the text came. Every send() is taken to take a byte or more,
-- recv() to give a byte or more while there are some.
pub client_turn-main_turn :
    (sends takes : Kernel) (fuel calls : ℕ) (forks_ok : ℕ → Bool) (delivers : ℤ → Bool)
    (launched : Option ℕ) (s s' : Server) (sent : List (ℤ × List ℕ)) (fd : ℤ) (bytes : List ℕ)
    (out : Sender) (c : Session)
    → IsWilling sends
    → IsOffering takes
    → 16 ≤ fuel
    → main_turn delivers launched s ≡ restarted s' sent
    → IsSent (fd, bytes) sent
    → out.output ≡ []
    → Reachable c.processes
    → (map (λ m. m.0) sent ≡ s.client_fd_list)
      × ((t : Sender) × (send_message sends fuel bytes out ≡ finished t)
          × IsExact c.processes.forks
              (client_turn takes forks_ok
                (record c { stream = record { calls = calls; input = t.output } })).processes)
unfolding c_string
client_turn-main_turn sends takes fuel calls forks_ok delivers launched s s' sent fd bytes out c w
      off enough e h empty r =
    let all : sent ≡ to_each s.client_fd_list =
      main_turn_sent delivers launched s s.notification s.message s.proxy_pid refl refl refl s' sent
        e in
    let text : bytes ≡ literal restart_text =
      to_each_text s.client_fd_list fd bytes (rw all at h) in
    let (t, p, q) =
      send_message_returns sends fuel bytes out w (rw text (omega arith)) (rw text (omega arith)) in
    let stream : t.output ≡ frame bytes ++ [] =
      q ∙ ap (λ o. o ++ frame bytes) empty ∙ sym (append-nil (frame bytes)) in
    let (calls', turn) =
      client_turn-frame takes off forks_ok
        (record c { stream = record { calls = calls; input = t.output } }) bytes []
        (rw text (omega arith)) stream in
    (
      rw all (to_each-fds s.client_fd_list),
      (
        t,
        p,
        rw turn
            (restart-IsExact c.processes forks_ok (length c.entities) bytes r (ap c_string text)),
      ),
    )
