-- ===== src/Udp/Loops.antt =====
-- proxy/src/UDPHandler.cpp: the whole run of a thread of UDPHandler, against a specification that
-- knows the routing and the form of a payload, but no memory.
use cezfuzzer.Base.{ℕ, ◌≡◌, refl, ℤ, true, false, List, arith, String, length, take, ◌==◌}
use cezfuzzer.Fuzzer.Memory.{World, is_live}
use cezfuzzer.Fuzzer.Access.{is_live-replace}
use cezfuzzer.Fuzzer.Yields.{Grants}
use cezfuzzer.Fuzzer.Core.{Env}
use cezfuzzer.Udp.Connection.{UdpConnection}
use cezfuzzer.Udp.Route.{recv_route}
use cezfuzzer.Udp.Threads.{Round, recv_buffer_size, recv_turn, recv_loop, recv_thread_entry}
use cezfuzzer.Udp.Payload.{IsRoomy}
use cezfuzzer.Udp.Forward.{filled, got_bounds, store_buffer, recv_turn-Forwards}
use cezfuzzer.Udp.Serving.{IsRound, IsRun, thread-IsRun}

module _ (e : Env) (r : IsRoomy e) (grants : Grants e) (args : List String) where
  recv_turn-IsRound :
      (handler : ℕ) (sock : ℤ) (p : ℕ)
      → IsRound e args handler (λ c src. recv_route c sock src) p (recv_turn e args handler sock p)
  unfolding recv_turn
  recv_turn-IsRound handler sock p = record {
    fails = λ c. refl;
    empties = λ c src. refl;
    skips = λ c bytes old src w b pos q.
        let got : List ℕ = take recv_buffer_size bytes in
        let (some_bytes, short) = got_bounds bytes pos in
        let not_empty : (length got == 0) ≡ false = ground arith in
        rw
          (
            not_empty,
            store_buffer handler p got old w b short,
            is_live-replace handler p (filled got old) w.blocks,
            b.alive,
            q,
          )
          refl;
    forwards = recv_turn-Forwards e r grants args handler sock p;
  }

  pub recv_thread_entry-Serves :
      (handler : ℕ) (sock : ℤ) (c : UdpConnection) (xs : List Round) (w : World)
      → is_live handler w.blocks ≡ true
      → IsRun e args
          (λ c' src. recv_route c' sock src)
          c
          xs
          w
          (recv_thread_entry e args handler sock c xs w)
  unfolding recv_thread_entry recv_loop
  recv_thread_entry-Serves handler sock c xs w =
      thread-IsRun e args handler _ _ c xs w (recv_turn-IsRound handler sock w.next)
