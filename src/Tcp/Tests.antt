-- ===== src/Tcp/Tests.antt =====
-- The theorems about the TCP thread at concrete inputs.
use cezfuzzer.Base.{
  ℕ, ◌≡◌, refl, List, [], ◌∷◌, arith, true, replicate, inl, zero, suc, false, elem, length,
  length-replicate, take_all,
}
use cezfuzzer.Fuzzer.Memory.{World, done, fault, hang}
use cezfuzzer.Fuzzer.Core.{Env, wrote, shipped}
use cezfuzzer.Fuzzer.Normalize.{IsSane}
use cezfuzzer.Tcp.Relay.{
  relay_buffer_size, Incoming, chunk, failed, RelayEffect, connection_thread_loop,
}
use cezfuzzer.Tcp.Streams.{
  Relays, connection_thread_loop-Relays, connection_thread_loop_end_hangs,
  connection_thread_loop_overread,
}
use cezfuzzer.Tcp.Printed.{IsUnprintable}

abbrev env : Env
env = shipped (λ k n. true) (λ args k stdin. wrote (7 ∷ []))

abbrev silent_env : Env
silent_env = shipped (λ k n. true) (λ args k stdin. wrote [])

abbrev zeros : List ℕ
zeros = replicate relay_buffer_size 0

abbrev world : World
world = record {
  next = 1;
  blocks = (0, record { cap = relay_buffer_size; bytes = zeros }) ∷ [];
  runs = 0;
  fds = 9;
}

env-IsSane : IsSane env
env-IsSane = omega arith

silent_env-IsSane : IsSane silent_env
silent_env-IsSane = omega arith

-- Two chunks, then an error.
abbrev stream : List Incoming
stream = chunk (1 ∷ 2 ∷ []) ∷ chunk (3 ∷ []) ∷ failed ∷ []

connection_thread_loop-Relays_example :
    (effs : List RelayEffect) × (w : World) × (held : List ℕ) × (connection_thread_loop env []
        stream world
      ≡ done effs w)
    × (w.blocks ≡ (1, record { cap = relay_buffer_size; bytes = held }) ∷ world.blocks)
    × Relays env [] stream effs
connection_thread_loop-Relays_example =
    connection_thread_loop-Relays env env-IsSane [] stream world (
      omega arith,
      inl (unfold relay_buffer_size in omega arith),
      (omega arith, inl (unfold relay_buffer_size in omega arith), tt),
    )

connection_thread_loop_end_hangs_example :
    connection_thread_loop silent_env [] (chunk (1 ∷ 2 ∷ []) ∷ chunk [] ∷ []) world ≡ hang
connection_thread_loop_end_hangs_example =
    connection_thread_loop_end_hangs silent_env silent_env-IsSane [] ((1 ∷ 2 ∷ []) ∷ []) [] world
      (omega arith, inl (unfold relay_buffer_size in omega arith), tt) (λ k. refl) (λ k. refl)

-- 65536 bytes, none of them 0.
abbrev ones : List ℕ
ones = replicate relay_buffer_size 1

elem-replicate : (n : ℕ) → elem 0 (replicate n 1) ≡ false
elem-replicate zero = refl
elem-replicate (suc n) = elem-replicate n

ones-IsUnprintable : IsUnprintable ones
ones-IsUnprintable =
    let size : length ones ≡ relay_buffer_size = length-replicate {A = ℕ} relay_buffer_size 1 in
    (
      omega arith,
      rw (take_all relay_buffer_size ones (omega arith)) (elem-replicate relay_buffer_size),
    )

connection_thread_loop_overread_example :
    connection_thread_loop env [] (chunk (1 ∷ 2 ∷ []) ∷ chunk ones ∷ []) world ≡ fault
connection_thread_loop_overread_example =
    connection_thread_loop_overread env env-IsSane [] ((1 ∷ 2 ∷ []) ∷ []) ones [] world
      (omega arith, inl (unfold relay_buffer_size in omega arith), tt) ones-IsUnprintable
