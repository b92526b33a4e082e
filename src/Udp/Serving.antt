-- ===== src/Udp/Serving.antt =====
-- proxy/src/UDPHandler.cpp: what a run of a thread's loop is, by a specification that knows the
-- routing and the form of a payload, but no memory; and that rounds make such a run.
use cezfuzzer.Base.{
  ℕ, ◌≤◌, ◌<◌, ◌≡◌, refl, ◌∙◌, inl, inr, ℤ, List, [], ◌∷◌, ◌++◌, arith, true, Option, none, some,
  String, length, length-append, Option-cases, sym, length-replicate, take, drop, length-drop,
}
use cezfuzzer.Fuzzer.Memory.{World, Outcome, done, bind_outcome, M, pure, replace, push, is_live}
use cezfuzzer.Fuzzer.Access.{find-replace, is_live-replace, replace-replace, replace_same}
use cezfuzzer.Fuzzer.Core.{Env}
use cezfuzzer.Fuzzer.Yields.{with_blocks}
use cezfuzzer.Udp.Connection.{UdpConnection}
use cezfuzzer.Udp.Route.{Target}
use cezfuzzer.Udp.Threads.{
  Round, changed, recv_buffer_size, zero_buffer, Arrival, datagram, failed, Effect, sent, skipped,
  closed, thread_loop,
}
use cezfuzzer.Udp.Payload.{IsPayload}
use cezfuzzer.Udp.Forward.{IsRecvBuffer, filled, got_bounds, Forwards}

abbrev pub Routing : Type 0
Routing = UdpConnection → ℤ → Option (UdpConnection × Target)

-- What a thread does in its rounds, whatever the other threads do to the queue: each datagram with
-- a route goes out as a payload for it, in order; one without is passed over; an error and an empty
-- datagram end the thread.
pub data Serves (e : Env) (args : List String) (route : Routing)
    : UdpConnection → List Round → List Effect → Type 0 where
  waits : {c : UdpConnection} → Serves e args route c [] []
  fails :
      {c : UdpConnection} {others : List ℤ → List ℤ} {xs : List Round}
      → Serves e args route c ((others, failed) ∷ xs) (closed ∷ [])
  empties :
      {c : UdpConnection} {others : List ℤ → List ℤ} {xs : List Round} {src : ℤ}
      → Serves e args route c ((others, datagram [] src) ∷ xs) (closed ∷ [])
  forwards :
      {c c' : UdpConnection} {others : List ℤ → List ℤ} {t : Target} {b : ℕ} {bs payload : List ℕ}
      {src : ℤ} {xs : List Round} {rest : List Effect}
      → route (changed others c) src ≡ some (c', t)
      → IsPayload e args (take recv_buffer_size (b ∷ bs)) payload
      → Serves e args route c' xs rest
      → Serves e args route c ((others, datagram (b ∷ bs) src) ∷ xs) (sent t payload ∷ rest)
  skips :
      {c : UdpConnection} {others : List ℤ → List ℤ} {b : ℕ} {bs : List ℕ} {src : ℤ}
      {xs : List Round} {rest : List Effect}
      → route (changed others c) src ≡ none
      → Serves e args route (changed others c) xs rest
      → Serves e args route c ((others, datagram (b ∷ bs) src) ∷ xs) (skipped ∷ rest)

-- The laws of a round, for the thread whose buffer is at `p`.
pub record IsRound (e : Env) (args : List String) (handler : ℕ) (route : Routing) (p : ℕ)
    (turn : UdpConnection → Arrival → M (UdpConnection × Effect)) : Type 0 where
  pub fails : (c : UdpConnection) → turn c failed ≡ pure (c, closed)
  pub empties : (c : UdpConnection) (src : ℤ) → turn c (datagram [] src) ≡ pure (c, closed)
  pub skips :
      (c : UdpConnection) (bytes old : List ℕ) (src : ℤ) (w : World)
      → IsRecvBuffer handler p old w
      → 0 < length bytes
      → route c src ≡ none
      → turn c (datagram bytes src) w
        ≡ done
            (c, skipped)
            (with_blocks w (replace p (filled (take recv_buffer_size bytes) old) w.blocks))
  pub forwards :
      (c : UdpConnection) (bytes old : List ℕ) (src : ℤ) (w : World)
      → IsRecvBuffer handler p old w
      → 0 < length bytes
      → (c' : UdpConnection) (t : Target) → route c src ≡ some (c', t)
      → Forwards e args p bytes old w (c', t) (turn c (datagram bytes src) w)

-- The end of a run: the effects are as specified, and of the memory only the buffer has changed.
abbrev Runs :
    Env
    → List String
    → Routing
    → ℕ
    → UdpConnection
    → List Round
    → World
    → Outcome (List Effect)
    → Type 0
Runs e args route p c xs w o =
    (effs : List Effect) × (w' : World) × (held : List ℕ) × (o ≡ done effs w')
    × (length held ≡ recv_buffer_size)
    × (w'.blocks ≡ replace p (record { cap = recv_buffer_size; bytes = held }) w.blocks)
    × Serves e args route c xs effs

-- The buffer stays a buffer when a datagram is put in it.
filled-IsRecvBuffer :
    (handler p : ℕ) (bytes old : List ℕ) (w w' : World)
    → IsRecvBuffer handler p old w
    → 0 < length bytes
    → w.next ≤ w'.next
    → let got = take recv_buffer_size bytes in
      IsRecvBuffer handler p
        (got ++ drop (length got) old)
        (with_blocks w' (replace p (filled got old) w.blocks))
filled-IsRecvBuffer handler p bytes old w w' b pos later =
    let got : List ℕ = take recv_buffer_size bytes in
    let (some_bytes, short) = got_bounds bytes pos in
    record {
      found = find-replace p (filled got old) _ w.blocks b.found;
      whole =
          omega (
            arith,
            length-append got (drop (length got) old),
            length-drop (length got) old,
            b.whole,
          );
      older = omega (arith, b.older);
      alive = is_live-replace handler p (filled got old) w.blocks ∙ b.alive;
    }

module _ (e : Env) (args : List String) (handler : ℕ) where
  -- A round that forwards or passes over a datagram, and the rest of the run.
  after_round :
      (route : Routing) (p : ℕ) (k : World → Outcome (List Effect)) (x : Effect)
      (bytes old : List ℕ) (c c' : UdpConnection) (others : List ℤ → List ℤ) (xs : List Round)
      (src : ℤ) (w w' : World)
      → let got = take recv_buffer_size bytes in
        let v = with_blocks w' (replace p (filled got old) w.blocks) in
        Runs e args route p c' xs v (k v)
        → ((rest : List Effect)
            → Serves e args route c' xs rest
            → Serves e args route c ((others, datagram bytes src) ∷ xs) (x ∷ rest))
        → Runs e args route p c
            ((others, datagram bytes src) ∷ xs)
            w
            (bind_outcome (k v) (λ rest. pure (x ∷ rest)))
  after_round route p k x bytes old c c' others xs src w w' (effs, w2, held, q, size, same, s)
        more =
      rw q (x ∷ effs, w2, held, refl, size, same ∙ replace-replace p _ _ w.blocks, more effs s)

  thread_loop-Serves :
      (route : Routing) (p : ℕ) (turn : UdpConnection → Arrival → M (UdpConnection × Effect))
      → IsRound e args handler route p turn
      → (c : UdpConnection) (xs : List Round) (old : List ℕ) (w : World)
      → IsRecvBuffer handler p old w
      → Runs e args route p c xs w (thread_loop e args turn c xs w)
  unfolding thread_loop
  thread_loop-Serves route p turn r c [] old w b =
      ([], w, old, refl, b.whole, sym (replace_same p _ w.blocks b.found), waits)
  thread_loop-Serves route p turn r c ((f, failed) ∷ xs) old w b =
      rw (r.fails (changed f c))
        (closed ∷ [], _, old, refl, b.whole, sym (replace_same p _ w.blocks b.found), fails)
  thread_loop-Serves route p turn r c ((f, datagram [] src) ∷ xs) old w b =
      rw (r.empties (changed f c) src)
        (closed ∷ [], _, old, refl, b.whole, sym (replace_same p _ w.blocks b.found), empties)
  thread_loop-Serves route p turn r c ((f, datagram (x ∷ bytes) src) ∷ xs) old w b =
      let d : UdpConnection = changed f c in
      elim (Option-cases (route d src)) [
        | inl none_found ↦ rw (r.skips d (x ∷ bytes) old src w b (omega arith) none_found) (
            after_round route p (λ v. thread_loop e args turn d xs v) skipped (x ∷ bytes) old c d f
              xs src w w
              (thread_loop-Serves route p turn r d xs _ _
                (filled-IsRecvBuffer handler p (x ∷ bytes) old w w b (omega arith) (omega arith)))
              (λ rest. skips none_found))
        | inr ((c', t), found) ↦
            let (payload, w', q, later, h) =
              r.forwards d (x ∷ bytes) old src w b (omega arith) c' t found in
            rw q (
              after_round route p (λ v. thread_loop e args turn c' xs v) (sent t payload)
                (x ∷ bytes) old c c' f xs src w w'
                (thread_loop-Serves route p turn r c' xs _ _
                  (filled-IsRecvBuffer handler p (x ∷ bytes) old w w' b (omega arith) later))
                (λ rest. forwards found h))
      ]

-- The memory at the start of a thread.
push-IsRecvBuffer :
    (handler : ℕ) (w : World)
    → is_live handler w.blocks ≡ true
    → IsRecvBuffer handler w.next zero_buffer.bytes (push w zero_buffer)
push-IsRecvBuffer handler w live = record {
  found = ground arith;
  whole = length-replicate {A = ℕ} recv_buffer_size 0;
  older = omega arith;
  alive = ground (arith, live);
}

-- A thread's whole run: effects as specified, and one block more, the thread's buffer.
abbrev pub IsRun :
    Env
    → List String
    → Routing
    → UdpConnection
    → List Round
    → World
    → Outcome (List Effect)
    → Type 0
IsRun e args route c xs w o =
    (effs : List Effect) × (w' : World) × (held : List ℕ) × (o ≡ done effs w')
    × (length held ≡ recv_buffer_size)
    × (w'.blocks ≡ (w.next, record { cap = recv_buffer_size; bytes = held }) ∷ w.blocks)
    × Serves e args route c xs effs

pub thread-IsRun :
    (e : Env) (args : List String) (handler : ℕ) (route : Routing)
    (turn : UdpConnection → Arrival → M (UdpConnection × Effect)) (c : UdpConnection)
    (xs : List Round) (w : World)
    → IsRound e args handler route w.next turn
    → is_live handler w.blocks ≡ true
    → IsRun e args route c xs w (thread_loop e args turn c xs (push w zero_buffer))
thread-IsRun e args handler route turn c xs w r live =
    let (effs, w', held, q, size, same, s) =
      thread_loop-Serves e args handler route w.next turn r c xs zero_buffer.bytes
        (push w zero_buffer) (push-IsRecvBuffer handler w live) in
    (effs, w', held, q, size, ground (arith, same), s)
