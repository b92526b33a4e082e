-- ===== src/Launcher/Processes.antt =====
-- The processes of a client that are alive, and those that it would stop.
use cezfuzzer.Base.{
  ℕ, zero, suc, ◌≤◌, ◌<◌, ◌≡◌, inl, inr, refl, ap, ◌∙◌, sym, Bool, true, false, List, [], ◌∷◌, ◌++◌,
  elem, elem-append, c_string, elem-delete, if◌then◌else◌, arith, Bool-cases, length,
}
use cezfuzzer.Launcher.Messages.{start_text, restart_text, literal, strncmp_eq, buffer_of}
use cezfuzzer.Launcher.Dispatch.{multiplex_message_cases}
use cezfuzzer.Launcher.Client.{
  Client, start_entity, start_loop, start_entities, stop_process, stop_loop, stop_processes,
  multiplex_message, monitor_child,
}

-- A client before its first message.
abbrev pub new_client : ℕ → Client
new_client forks = record { process_list = []; index = 0; watched = []; live = []; forks = forks }

-- The states of a client under messages, ends of processes, and turns of the threads that wait.
pub data Reachable : Client → Type 0 where
  begin : (forks : ℕ) → Reachable (new_client forks)
  receive :
      (c : Client) (forks_ok : ℕ → Bool) (n : ℕ) (buffer : List ℕ)
      → Reachable c
      → Reachable (multiplex_message forks_ok n buffer c)
  ends : (c : Client) (pid : ℕ) → Reachable c → Reachable (stop_process c pid)
  watch : (c : Client) (pid : ℕ) → Reachable c → Reachable (monitor_child c pid).0

-- Every live process is in the list that RESTART stops, and was forked before.
pub record IsListed (c : Client) : Type 0 where
  pub listed : (p : ℕ) → elem p c.live ≡ true → elem p c.process_list ≡ true
  pub older : (p : ℕ) → elem p c.live ≡ true → p < c.forks

module _ (forks_ok : ℕ → Bool) where
  start_entity-IsListed : (c : Client) → IsListed c → IsListed (start_entity forks_ok c)
  unfolding start_entity
  start_entity-IsListed c w = elim (Bool-cases (forks_ok c.forks)) [
    | inl ok ↦ rw ok (record {
      listed = λ p e.
          ground
            (arith, elem-append p c.forks c.live, elem-append p c.forks c.process_list, w.listed p);
      older = λ p e. ground (arith, elem-append p c.forks c.live, w.older p);
    })
    | inr failed ↦
        rw failed (record { listed = w.listed; older = λ p e. omega (arith, w.older p e) })
  ]

  start_loop-IsListed : (n : ℕ) (c : Client) → IsListed c → IsListed (start_loop forks_ok n c)
  unfolding start_loop
  start_loop-IsListed zero c w = w
  start_loop-IsListed (suc n) c w =
      start_loop-IsListed n (start_entity forks_ok c) (start_entity-IsListed c w)

-- The processes of a list have ended.
stop_loop_live :
    (pids : List ℕ) (c : Client) (p : ℕ)
    → elem p (stop_loop pids c).live ≡ (if elem p pids then false else elem p c.live)
unfolding stop_loop
stop_loop_live [] c p = refl
stop_loop_live (pid ∷ pids) c p =
    stop_loop_live pids (stop_process c pid) p ∙ ground (arith, elem-delete p pid c.live)

none_left : (xs : List ℕ) → ((p : ℕ) → elem p xs ≡ false) → xs ≡ []
none_left [] h = refl
none_left (x ∷ xs) h = let absent = h x in ground (arith, absent)

stop_loop_forks : (pids : List ℕ) (c : Client) → (stop_loop pids c).forks ≡ c.forks
unfolding stop_loop
stop_loop_forks [] c = refl
stop_loop_forks (pid ∷ pids) c = stop_loop_forks pids (stop_process c pid)

stop_processes_lem : (c : Client) → IsListed c → (stop_processes c).live ≡ []
unfolding stop_processes
stop_processes_lem c w = none_left _ (λ p. elim (Bool-cases (elem p c.process_list)) [
  | inl there ↦ rw (stop_loop_live c.process_list c p, there)
  | inr absent ↦ elim (Bool-cases (elem p c.live)) [
    | inl alive ↦ cc (w.listed p alive, absent)
    | inr dead ↦ rw (stop_loop_live c.process_list c p, absent, dead)
  ]
])

stop_processes-IsListed : (c : Client) → IsListed c → IsListed (stop_processes c)
stop_processes-IsListed c w = record {
  listed = λ p e. cc (ap (elem p) (stop_processes_lem c w), e);
  older = λ p e. absurd (nothing p (ap (elem p) (stop_processes_lem c w)) e);
}
  where
    nothing :
        (p : ℕ) → elem p (stop_processes c).live ≡ false → elem p (stop_processes c).live ≡ true → ⊥
    nothing p a b = cc (a, b)

start_entities-IsListed :
    (forks_ok : ℕ → Bool) (n : ℕ) (c : Client) → IsListed c → IsListed (start_entities forks_ok n c)
unfolding start_entities
start_entities-IsListed forks_ok n c w =
    start_loop-IsListed forks_ok n (record c { index = suc c.index })
      (record { listed = w.listed; older = w.older })

multiplex_message-IsListed :
    (forks_ok : ℕ → Bool) (n : ℕ) (buffer : List ℕ) (c : Client)
    → IsListed c
    → IsListed (multiplex_message forks_ok n buffer c)
unfolding multiplex_message
multiplex_message-IsListed forks_ok n buffer c w =
    elim (Bool-cases (strncmp_eq (suc (length start_text)) buffer (literal start_text))) [
      | inl start ↦ rw start (start_entities-IsListed forks_ok n c w)
      | inr other ↦
          elim (Bool-cases (strncmp_eq (suc (length restart_text)) buffer (literal restart_text))) [
            | inl restart ↦
                rw (other, restart)
                  (start_entities-IsListed forks_ok n (stop_processes c)
                    (stop_processes-IsListed c w))
            | inr unknown ↦ rw (other, unknown) w
          ]
    ]

pub Reachable-IsListed : (c : Client) → Reachable c → IsListed c
unfolding monitor_child
Reachable-IsListed _ (begin forks) = record { listed = λ p e. cc; older = λ p e. cc }
Reachable-IsListed _ (receive c forks_ok n buffer r) =
    multiplex_message-IsListed forks_ok n buffer c (Reachable-IsListed c r)
Reachable-IsListed _ (ends c pid r) =
    let w = Reachable-IsListed c r in
    record {
      listed = λ p e. ground (arith, elem-delete p pid c.live, w.listed p);
      older = λ p e. ground (arith, elem-delete p pid c.live, w.older p);
    }
Reachable-IsListed _ (watch c pid r) =
    let w = Reachable-IsListed c r in record { listed = w.listed; older = w.older }

-- The live processes are exactly those of the list, and all were forked from `first` on.
pub record IsExact (first : ℕ) (c : Client) : Type 0 where
  pub exact : c.live ≡ c.process_list
  pub new : (p : ℕ) → elem p c.live ≡ true → first ≤ p
  pub later : first ≤ c.forks

start_entity-IsExact :
    (forks_ok : ℕ → Bool) (first : ℕ) (c : Client)
    → IsExact first c
    → IsExact first (start_entity forks_ok c)
unfolding start_entity
start_entity-IsExact forks_ok first c w = elim (Bool-cases (forks_ok c.forks)) [
  | inl ok ↦ rw ok (record {
    exact = ap (λ xs. xs ++ c.forks ∷ []) w.exact;
    new = λ p e. ground (arith, elem-append p c.forks c.live, w.new p, w.later);
    later = omega (arith, w.later);
  })
  | inr failed ↦ rw failed (record { exact = w.exact; new = w.new; later = omega (arith, w.later) })
]

start_loop-IsExact :
    (forks_ok : ℕ → Bool) (first n : ℕ) (c : Client)
    → IsExact first c
    → IsExact first (start_loop forks_ok n c)
unfolding start_loop
start_loop-IsExact forks_ok first zero c w = w
start_loop-IsExact forks_ok first (suc n) c w =
    start_loop-IsExact forks_ok first n (start_entity forks_ok c)
      (start_entity-IsExact forks_ok first c w)

restart_message :
    (forks_ok : ℕ → Bool) (n : ℕ) (msg : List ℕ) (c : Client)
    → c_string msg ≡ restart_text
    → multiplex_message forks_ok n (buffer_of msg) c ≡ start_entities forks_ok n (stop_processes c)
restart_message forks_ok n msg c text = elim (multiplex_message_cases forks_ok n msg c) [
  | inl (start, e) ↦ absurd (two_texts (sym start ∙ text))
  | inr (inl (restart, e)) ↦ e
  | inr (inr (not_start, not_restart, e)) ↦ absurd (not_restart text)
]
  where
    two_texts : start_text ≡ restart_text → ⊥
    two_texts e = omega (arith, ap length e)

stopped-IsExact : (c : Client) → IsListed c → IsExact c.forks (stop_processes c)
unfolding stop_processes
stopped-IsExact c w = record {
  exact = stop_processes_lem c w;
  new = λ p e. cc (ap (elem p) (stop_processes_lem c w), e);
  later = omega (arith, stop_loop_forks c.process_list c);
}

-- In every state that a client reaches by messages, ends of processes and turns of the threads
-- that wait for them, a message with the text RESTART leaves as live processes exactly those of
-- the client's list, in order, and none that was forked before. Process ids are taken not to be
-- used again.
pub restart-IsExact :
    (c : Client) (forks_ok : ℕ → Bool) (n : ℕ) (msg : List ℕ)
    → Reachable c
    → c_string msg ≡ restart_text
    → IsExact c.forks (multiplex_message forks_ok n (buffer_of msg) c)
unfolding start_entities
restart-IsExact c forks_ok n msg r text =
    let w : IsExact c.forks (stop_processes c) = stopped-IsExact c (Reachable-IsListed c r) in
    rw (restart_message forks_ok n msg c text) (
      start_loop-IsExact forks_ok c.forks n _
        (record { exact = w.exact; new = w.new; later = w.later }))
