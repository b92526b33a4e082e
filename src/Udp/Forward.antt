-- ===== src/Udp/Forward.antt =====
-- One round of the threads of UDPHandler on a datagram that is not empty.
use cezfuzzer.Base.{
  ℕ, ◌≤◌, ◌<◌, ◌≡◌, refl, ℤ, List, ◌++◌, arith, Bool, true, false, some, String, length,
  length-append, take, drop, ◌==◌, length-take, take_prefix,
}
use cezfuzzer.Fuzzer.Memory.{Block, World, Outcome, done, find, replace, is_live, store}
use cezfuzzer.Fuzzer.Access.{find-replace, is_live-replace}
use cezfuzzer.Fuzzer.Core.{Env}
use cezfuzzer.Fuzzer.Yields.{Grants, with_blocks}
use cezfuzzer.Fuzzer.Posts.{IsMessage}
use cezfuzzer.Udp.Connection.{UdpConnection}
use cezfuzzer.Udp.Route.{Target, recv_route, send_route}
use cezfuzzer.Udp.Threads.{
  recv_buffer_size, fuzz_payload, datagram, Effect, sent, recv_turn, send_turn,
}
use cezfuzzer.Udp.Payload.{IsRoomy, IsPayload, fuzz_payload_lem}

-- The thread's buffer: 4096 bytes, all of them set; and the handler is live.
pub record IsRecvBuffer (handler p : ℕ) (old : List ℕ) (w : World) : Type 0 where
  pub found : find p w.blocks ≡ some (record { cap = recv_buffer_size; bytes = old })
  pub whole : length old ≡ recv_buffer_size
  pub older : p < w.next
  pub alive : is_live handler w.blocks ≡ true

-- The buffer after a datagram came in.
abbrev pub filled : List ℕ → List ℕ → Block
filled got old = record { cap = recv_buffer_size; bytes = got ++ drop (length got) old }

pub store_buffer :
    (handler p : ℕ) (got old : List ℕ) (w : World)
    → IsRecvBuffer handler p old w
    → length got ≤ recv_buffer_size
    → store p 0 got w ≡ done tt (with_blocks w (replace p (filled got old) w.blocks))
unfolding store
store_buffer handler p got old w b h = ground (arith, b.found, b.whole)

-- The datagram is a message in the buffer.
filled-IsMessage :
    (handler p : ℕ) (got old : List ℕ) (w : World)
    → IsRecvBuffer handler p old w
    → 0 < length got
    → length got ≤ recv_buffer_size
    → IsMessage p got (with_blocks w (replace p (filled got old) w.blocks))
filled-IsMessage handler p got old w b pos short = record {
  readable = record {
    block = filled got old;
    found = find-replace p (filled got old) _ w.blocks b.found;
    long = omega (arith, length-append got (drop (length got) old));
    prefix = take_prefix got (drop (length got) old);
  };
  older = b.older;
  some_bytes = pos;
  short = omega arith;
}

-- The outcome of a round that forwards some bytes: the buffer is filled with them, the other blocks
-- are as they were, and a payload for them goes to the target.
abbrev pub Forwards :
    Env
    → List String
    → ℕ
    → List ℕ
    → List ℕ
    → World
    → UdpConnection × Target
    → Outcome (UdpConnection × Effect)
    → Type 0
Forwards e args p bytes old w (c, t) o =
    (payload : List ℕ) × (w' : World) × (o
      ≡ done (c, sent t payload)
          (with_blocks w' (replace p (filled (take recv_buffer_size bytes) old) w.blocks)))
    × (w.next ≤ w'.next)
    × IsPayload e args (take recv_buffer_size bytes) payload

pub got_bounds :
    (bytes : List ℕ)
    → 0 < length bytes
    → (0 < length (take recv_buffer_size bytes))
      × (length (take recv_buffer_size bytes) ≤ recv_buffer_size)
got_bounds bytes pos = omega (arith, length-take recv_buffer_size bytes)

module _ (e : Env) (r : IsRoomy e) (grants : Grants e) (args : List String) where
  filled-IsPayload :
      (handler p : ℕ) (got old : List ℕ) (w : World)
      → IsRecvBuffer handler p old w
      → 0 < length got
      → length got ≤ recv_buffer_size
      → (payload : List ℕ) × (w' : World) × (fuzz_payload e args p
            (length got)
            (with_blocks w (replace p (filled got old) w.blocks))
          ≡ done payload (with_blocks w' (replace p (filled got old) w.blocks)))
        × (w.next ≤ w'.next)
        × IsPayload e args got payload
  filled-IsPayload handler p got old w b pos short =
      fuzz_payload_lem e r grants args p got _ (filled-IsMessage handler p got old w b pos short)
        short

  -- A datagram of one byte or more that a receiving thread gets, with its buffer of 4096 set bytes
  -- in memory and a route for its socket, ends the round in a call of sendto() to that route's
  -- target. The payload is empty, or the bytes received (at most 4096), or 65499 bytes that begin
  -- with them. The thread's buffer holds what was received; every other block is as before, and no
  -- block is left behind. The least size of a fuzzed buffer is taken to be 65500 or more, as it is
  -- in the program.
  pub recv_turn-Forwards :
      (handler : ℕ) (sock : ℤ) (p : ℕ) (c : UdpConnection) (bytes old : List ℕ) (src : ℤ)
      (w : World)
      → IsRecvBuffer handler p old w
      → 0 < length bytes
      → (c' : UdpConnection) (t : Target) → recv_route c sock src ≡ some (c', t)
      → Forwards e args p bytes old w
          (c', t)
          (recv_turn e args handler sock p c (datagram bytes src) w)
  unfolding recv_turn
  recv_turn-Forwards handler sock p c bytes old src w b pos c' t route =
      let got : List ℕ = take recv_buffer_size bytes in
      let (some_bytes, short) = got_bounds bytes pos in
      let not_empty : (length got == 0) ≡ false = ground arith in
      let (payload, w', q, later, h) = filled-IsPayload handler p got old w b some_bytes short in
      rw
        (
          not_empty,
          store_buffer handler p got old w b short,
          is_live-replace handler p (filled got old) w.blocks,
          b.alive,
          route,
          q,
        )
        (payload, w', refl, later, h)

  -- A datagram of one byte or more that a sending thread gets, with its buffer of 4096 set bytes
  -- in memory, ends the round in a call of sendto() to the target of its direction. The payload is
  -- empty, or the bytes received (at most 4096), or 65499 bytes that begin with them. The thread's
  -- buffer holds what was received; every other block is as before, and no block is left behind.
  -- The least size of a fuzzed buffer is taken to be 65500 or more.
  pub send_turn-Forwards :
      (handler : ℕ) (is_from_a : Bool) (p : ℕ) (c : UdpConnection) (bytes old : List ℕ) (src : ℤ)
      (w : World)
      → IsRecvBuffer handler p old w
      → 0 < length bytes
      → Forwards e args p bytes old w
          (send_route c is_from_a src)
          (send_turn e args handler is_from_a p c (datagram bytes src) w)
  unfolding send_turn
  send_turn-Forwards handler is_from_a p c bytes old src w b pos =
      let got : List ℕ = take recv_buffer_size bytes in
      let (some_bytes, short) = got_bounds bytes pos in
      let not_empty : (length got == 0) ≡ false = ground arith in
      let (payload, w', q, later, h) = filled-IsPayload handler p got old w b some_bytes short in
      rw
        (
          not_empty,
          store_buffer handler p got old w b short,
          is_live-replace handler p (filled got old) w.blocks,
          b.alive,
          q,
        )
        (payload, w', refl, later, h)
