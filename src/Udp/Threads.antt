-- ===== src/Udp/Threads.antt =====
-- proxy/src/UDPHandler.cpp: the loops of recvThreadEntry and sendThreadEntry. What recvfrom() returns
-- is an argument; the result of sendto() is only logged.
use cezfuzzer.Base.{
  ℕ, ◌-◌, ℤ, Bool, List, [], ◌∷◌, Option, none, some, String, if◌then◌else◌, ltb, ◌==◌, length,
  take, replicate,
}
use cezfuzzer.Fuzzer.Memory.{
  Block, push, done, fault, access, M, pure, ◌>>=◌, ◌>>◌, free_ptr, load, store,
}
use cezfuzzer.Fuzzer.Core.{Env}
use cezfuzzer.Fuzzer.Modes.{post_fuzzing}
use cezfuzzer.Udp.Connection.{UdpConnection}
use cezfuzzer.Udp.Route.{Target, recv_route, send_route}

abbrev pub max_udp_payload_size : ℕ
max_udp_payload_size = 65500

-- char buffer[4096]
abbrev pub recv_buffer_size : ℕ
recv_buffer_size = 4096

-- {0}
abbrev pub zero_buffer : Block
zero_buffer = record { cap = recv_buffer_size; bytes = replicate recv_buffer_size 0 }

pub data Arrival : Type 0 where
  failed : Arrival
  datagram : List ℕ → ℤ → Arrival

-- What the other threads have made of the queue of the connection since the last round, and what
-- recvfrom() gives.
abbrev pub Round : Type 0
Round = (List ℤ → List ℤ) × Arrival

abbrev pub with_ports : UdpConnection → List ℤ → UdpConnection
with_ports c ports = record c { dynamic_ports = ports }

abbrev pub changed : (List ℤ → List ℤ) → UdpConnection → UdpConnection
changed others c = with_ports c (others c.dynamic_ports)

-- What one round of a loop does: it ends the loop, it continues, or it calls sendto().
pub data Effect : Type 0 where
  closed skipped : Effect
  sent : Target → List ℕ → Effect

-- memcpy(payload, p, n)
abbrev pub load_ptr : Option ℕ → ℕ → M (List ℕ)
load_ptr none n w = fault
load_ptr (some p) n w = load p n w

abbrev pub payload_size : ℕ → ℕ
payload_size n = if ltb (max_udp_payload_size - 1) n then max_udp_payload_size - 1 else n

module _ (e : Env) (args : List String) where
  -- From the call of postFuzzing to the free of its result: the bytes that are sent.
  unfoldable pub fuzz_payload : ℕ → ℕ → M (List ℕ)
  fuzz_payload buffer len = do
    (fuzzed, fuzzed_size) ← post_fuzzing e args buffer len
    payload ← load_ptr fuzzed (payload_size fuzzed_size)
    free_ptr fuzzed
    pure payload

  abbrev send_to : ℕ → ℕ → UdpConnection × Target → M (UdpConnection × Effect)
  send_to buffer len (c, target) = do
    payload ← fuzz_payload buffer len
    pure (c, sent target payload)

  abbrev forward :
      ℕ → ℕ → UdpConnection → Option (UdpConnection × Target) → M (UdpConnection × Effect)
  forward buffer len c none = pure (c, skipped)
  forward buffer len c (some route) = send_to buffer len route

  -- One round of recvThreadEntry; `handler` and `buffer` are the addresses of the UDPHandler, whose
  -- connections and fuzzer are parts of it, and of the thread's buffer.
  unfoldable pub recv_turn : ℕ → ℤ → ℕ → UdpConnection → Arrival → M (UdpConnection × Effect)
  recv_turn handler recv_sock buffer c failed = pure (c, closed)
  recv_turn handler recv_sock buffer c (datagram bytes src_port) =
      let got = take recv_buffer_size bytes in
      if length got == 0
      then pure (c, closed)
      else (store buffer 0 got
          >> access handler
          >> forward buffer (length got) c (recv_route c recv_sock src_port))

  -- One round of sendThreadEntry.
  unfoldable pub send_turn : ℕ → Bool → ℕ → UdpConnection → Arrival → M (UdpConnection × Effect)
  send_turn handler is_from_a buffer c failed = pure (c, closed)
  send_turn handler is_from_a buffer c (datagram bytes src_port) =
      let got = take recv_buffer_size bytes in
      if length got == 0
      then pure (c, closed)
      else (store buffer 0 got
          >> access handler
          >> send_to buffer (length got) (send_route c is_from_a src_port))

  -- The end of a round: the loop's `break` closes the socket, any other effect goes on.
  abbrev pub continue_with :
      (UdpConnection → M (List Effect)) → UdpConnection × Effect → M (List Effect)
  continue_with loop (c, closed) w = done (closed ∷ []) (record w { fds = w.fds - 1 })
  continue_with loop (c, skipped) w = (do rest ← loop c; pure (skipped ∷ rest)) w
  continue_with loop (c, sent target payload) w =
      (do rest ← loop c; pure (sent target payload ∷ rest)) w

  -- A loop over its rounds.
  unfoldable pub thread_loop :
      (UdpConnection → Arrival → M (UdpConnection × Effect))
      → UdpConnection
      → List Round
      → M (List Effect)
  thread_loop turn c [] = pure []
  thread_loop turn c ((others, x) ∷ xs) =
      turn (changed others c) x >>= continue_with (λ c'. thread_loop turn c' xs)

  unfoldable pub recv_loop : ℕ → ℤ → ℕ → UdpConnection → List Round → M (List Effect)
  recv_loop handler sock buffer = thread_loop (recv_turn handler sock buffer)

  unfoldable pub send_loop : ℕ → Bool → ℕ → UdpConnection → List Round → M (List Effect)
  send_loop handler is_from_a buffer = thread_loop (send_turn handler is_from_a buffer)

  -- recvThreadEntry and sendThreadEntry: the buffer of zeros, at a new address, and the loop.
  unfoldable pub recv_thread_entry : ℕ → ℤ → UdpConnection → List Round → M (List Effect)
  recv_thread_entry handler recv_sock c xs w =
      recv_loop handler recv_sock w.next c xs (push w zero_buffer)

  unfoldable pub send_thread_entry : ℕ → Bool → UdpConnection → List Round → M (List Effect)
  send_thread_entry handler is_from_a c xs w =
      send_loop handler is_from_a w.next c xs (push w zero_buffer)
