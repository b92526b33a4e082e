-- ===== src/Launcher/Dispatch.antt =====
-- Which messages the launchers act on.
use cezfuzzer.Base.{
  c_string, NoZero, c_string-zeros, ℕ, suc, ◌-◌, ◌≡◌, ◌≢◌, ◌↔◌, ◌⊎◌, inl, inr, refl, Bool, true,
  List, [], ◌∷◌, ◌++◌, length, replicate, arith, Bool-cases,
}
use cezfuzzer.Wire.Stream.{max_msg_size}
use cezfuzzer.Launcher.Messages.{start_text, restart_text, literal, buffer_of, strncmp_eq}
use cezfuzzer.Launcher.Client.{Client, start_entities, stop_processes, multiplex_message}

-- A comparison that reaches the literal's byte 0 is a comparison of texts.
pub strncmp_eq-literal :
    (buffer text : List ℕ)
    → NoZero text
    → (strncmp_eq (suc (length text)) buffer (literal text) ≡ true) ↔ (c_string buffer ≡ text)
unfolding strncmp_eq c_string
strncmp_eq-literal [] [] h = (λ e. refl, λ e. refl)
strncmp_eq-literal [] (y ∷ ys) h = (λ e. ground arith, λ e. cc)
strncmp_eq-literal (x ∷ xs) [] h = ground arith
strncmp_eq-literal (x ∷ xs) (y ∷ ys) h =
    let (to, from) = strncmp_eq-literal xs ys h.1 in (λ e. ground arith, λ e. ground arith)

pub buffer_of_text :
    (msg text : List ℕ)
    → NoZero text
    → (strncmp_eq (suc (length text)) (buffer_of msg) (literal text) ≡ true) ↔ (c_string msg ≡ text)
unfolding buffer_of
buffer_of_text msg text h =
    rw (← c_string-zeros msg (max_msg_size - length msg))
      (strncmp_eq-literal (msg ++ replicate (max_msg_size - length msg) 0) text h)

-- On the text START the client starts its entities; on the text RESTART it stops its processes and
-- starts its entities; any other text changes nothing. The text of a message is what comes before
-- its first byte 0.
pub multiplex_message_cases :
    (forks_ok : ℕ → Bool) (n : ℕ) (msg : List ℕ) (c : Client)
    → ((c_string msg ≡ start_text)
        × (multiplex_message forks_ok n (buffer_of msg) c ≡ start_entities forks_ok n c))
      ⊎ ((c_string msg ≡ restart_text)
          × (multiplex_message forks_ok n (buffer_of msg) c
              ≡ start_entities forks_ok n (stop_processes c)))
      ⊎ ((c_string msg ≢ start_text)
          × (c_string msg ≢ restart_text)
          × (multiplex_message forks_ok n (buffer_of msg) c ≡ c))
unfolding multiplex_message
multiplex_message_cases forks_ok n msg c =
    let (to_start, from_start) = buffer_of_text msg start_text (omega arith) in
    let (to_restart, from_restart) = buffer_of_text msg restart_text (omega arith) in
    elim (Bool-cases (strncmp_eq 6 (buffer_of msg) (literal start_text))) [
      | inl yes_start ↦ inl (to_start yes_start, rw yes_start)
      | inr no_start ↦ elim (Bool-cases (strncmp_eq 8 (buffer_of msg) (literal restart_text))) [
        | inl yes_restart ↦ inr (inl (to_restart yes_restart, rw (no_start, yes_restart)))
        | inr no_restart ↦ inr (
            inr (
              (λ e. cc (from_start e, no_start)),
              (λ e. cc (from_restart e, no_restart)),
              rw (no_start, no_restart),
            ))
      ]
    ]
