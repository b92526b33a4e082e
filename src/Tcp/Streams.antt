-- ===== src/Tcp/Streams.antt =====
-- proxy/src/TCPConnection.cpp: the whole run of a TCP thread over a stream, and the end of a stream.
use cezfuzzer.Base.{
  ℕ, ◌≤◌, ◌<◌, ◌≡◌, refl, sym, ◌∙◌, ap, List, [], map, ◌∷◌, ◌++◌, arith, true, String, length,
  length-append, length-replicate, take, drop, length-take, length-drop,
}
use cezfuzzer.Fuzzer.Memory.{World, Outcome, done, fault, hang, replace, push, fresh}
use cezfuzzer.Fuzzer.Access.{find-replace, replace-replace, replace_same}
use cezfuzzer.Fuzzer.Core.{Env}
use cezfuzzer.Fuzzer.Normalize.{IsSane}
use cezfuzzer.Fuzzer.Radamsa.{IsSilent}
use cezfuzzer.Fuzzer.Yields.{with_blocks}
use cezfuzzer.Tcp.Relay.{
  relay_buffer_size, Incoming, failed, chunk, RelayEffect, exited, sent, relay_turn, relay_loop,
  connection_thread_loop,
}
use cezfuzzer.Tcp.Printed.{IsPrintable, IsUnprintable, received, zeros}
use cezfuzzer.Tcp.Relayed.{
  IsRelayBuffer, IsRelayed, memset_lem, relay_failed, relay_unprintable, relay_turn-Relays,
  relay_turn_end_hangs,
}

-- What a thread does with a stream: each chunk goes out as what the fuzzer makes of it, in order;
-- an error ends the process.
pub data Relays (e : Env) (args : List String) : List Incoming → List RelayEffect → Type 0 where
  waits : Relays e args [] []
  exits : {xs : List Incoming} → Relays e args (failed ∷ xs) (exited ∷ [])
  relays :
      {b : ℕ} {bs out : List ℕ} {xs : List Incoming} {rest : List RelayEffect}
      → IsRelayed e args (take relay_buffer_size (b ∷ bs)) out
      → Relays e args xs rest
      → Relays e args (chunk (b ∷ bs) ∷ xs) (sent out ∷ rest)

-- The stream has not ended, and its chunks can be printed: an error, but no empty chunk, is met.
abbrev pub IsOpen : List Incoming → Type 0
IsOpen [] = Unit
IsOpen (failed ∷ xs) = Unit
IsOpen (chunk bytes ∷ xs) = (0 < length bytes) × IsPrintable bytes × IsOpen xs

-- The end of a run: the effects are as specified, and of the memory only the buffer has changed.
abbrev pub IsStream :
    Env → List String → ℕ → List Incoming → World → Outcome (List RelayEffect) → Type 0
IsStream e args p xs w o =
    (effs : List RelayEffect) × (w' : World) × (held : List ℕ) × (o ≡ done effs w')
    × (length held ≤ relay_buffer_size)
    × (w'.blocks ≡ replace p (record { cap = relay_buffer_size; bytes = held }) w.blocks)
    × Relays e args xs effs

-- The buffer stays a buffer when a chunk is put in it.
received-IsRelayBuffer :
    (p : ℕ) (bytes old : List ℕ) (w w' : World)
    → IsRelayBuffer p old w
    → w.next ≤ w'.next
    → let got = take relay_buffer_size bytes in
      IsRelayBuffer p
        (got ++ drop (length got) zeros)
        (with_blocks w' (replace p (received got) w.blocks))
received-IsRelayBuffer p bytes old w w' b later =
    let got : List ℕ = take relay_buffer_size bytes in
    record {
      found = find-replace p (received got) _ w.blocks b.found;
      fits = omega (
        arith,
        length-append got (drop (length got) zeros),
        length-drop (length got) zeros,
        length-take relay_buffer_size bytes,
        length-replicate {A = ℕ} relay_buffer_size 0,
      );
      older = omega (arith, b.older);
    }

module _ (e : Env) (sane : IsSane e) (args : List String) where
  relay_loop-IsStream :
      (p : ℕ) (xs : List Incoming) (old : List ℕ) (w : World)
      → IsRelayBuffer p old w
      → IsOpen xs
      → IsStream e args p xs w (relay_loop e args p xs w)
  unfolding relay_loop
  relay_loop-IsStream p [] old w b live =
      ([], w, old, refl, b.fits, sym (replace_same p _ w.blocks b.found), waits)
  relay_loop-IsStream p (failed ∷ xs) old w b live =
      let (w', q, e', b') = memset_lem p old w b in
      let q2 : relay_turn e args p failed w ≡ done exited w' =
        relay_failed e args p old w w' q b' in
      rw q2 (exited ∷ [], w', zeros, refl, b'.fits, ap (λ v. v.blocks) e', exits)
  relay_loop-IsStream p (chunk [] ∷ xs) old w b live = absurd (omega arith)
  relay_loop-IsStream p (chunk (x ∷ bytes) ∷ xs) old w b live =
      let (out, w', q, later, h) =
        relay_turn-Relays e sane args p (x ∷ bytes) old w b (omega arith) live.1 in
      let (effs, w2, held, q2, fits, same, s) =
        relay_loop-IsStream p xs _ _ (received-IsRelayBuffer p (x ∷ bytes) old w w' b later)
          live.2 in
      rw (q, q2)
        (sent out ∷ effs, w2, held, refl, fits, same ∙ replace-replace p _ _ w.blocks, relays h s)

  push-IsRelayBuffer : (w : World) → IsRelayBuffer w.next [] (push w (fresh relay_buffer_size))
  push-IsRelayBuffer w = record { found = ground arith; fits = omega arith; older = omega arith }

  -- For a stream on which recv() gives chunks of one byte or more, each shorter than 65536 bytes
  -- or with a byte 0 among its first 65536, and perhaps an error after them, and sane sizes, the
  -- run of a TCP thread, from its buffer with no byte set, is without undefined behaviour or an
  -- endless call. Each chunk, in order, goes out by send() as the normal form of the chunk (at
  -- most 65536 bytes) with a fuzz behind it, or, if there is a request that malloc refuses,
  -- perhaps as the chunk alone or as nothing; an error ends the process. All that the run adds to
  -- the memory is the thread's buffer.
  pub connection_thread_loop-Relays :
      (xs : List Incoming) (w : World)
      → IsOpen xs
      → (effs : List RelayEffect) × (w' : World) × (held : List ℕ) × (connection_thread_loop e args
            xs w
          ≡ done effs w')
        × (w'.blocks ≡ (w.next, record { cap = relay_buffer_size; bytes = held }) ∷ w.blocks)
        × Relays e args xs effs
  unfolding connection_thread_loop
  connection_thread_loop-Relays xs w live =
      let (effs, w', held, q, fits, same, s) =
        relay_loop-IsStream w.next xs [] (push w (fresh relay_buffer_size)) (push-IsRelayBuffer w)
          live in
      (effs, w', held, q, ground (arith, same), s)

  relay_loop_end_hangs :
      (p : ℕ) (bs : List (List ℕ)) (later : List Incoming) (old : List ℕ) (w : World)
      → IsRelayBuffer p old w
      → IsOpen (map chunk bs)
      → ((k : ℕ) → e.alloc k e.min_output_size ≡ true)
      → ((k : ℕ) → IsSilent (e.child args k []))
      → relay_loop e args p (map chunk bs ++ chunk [] ∷ later) w ≡ hang
  unfolding relay_loop
  relay_loop_end_hangs p [] later old w b live grants silent =
      rw (relay_turn_end_hangs e sane args p old w b grants (silent w.runs)) refl
  relay_loop_end_hangs p ([] ∷ bs) later old w b live grants silent = absurd (omega arith)
  relay_loop_end_hangs p ((x ∷ bytes) ∷ bs) later old w b live grants silent =
      let (out, w', q, next, h) =
        relay_turn-Relays e sane args p (x ∷ bytes) old w b (omega arith) live.1 in
      rw
        (
          q,
          relay_loop_end_hangs p bs later _ _ (received-IsRelayBuffer p (x ∷ bytes) old w w' b next)
              live.2 grants silent,
        )
        refl

  -- When a stream ends after any chunks of one byte or more, each shorter than 65536 bytes or with
  -- a byte 0 among its first 65536, the run of a TCP thread does not end, if malloc grants the
  -- least size, the child's runs on an empty input give no bytes, and the sizes are sane.
  pub connection_thread_loop_end_hangs :
      (bs : List (List ℕ)) (later : List Incoming) (w : World)
      → IsOpen (map chunk bs)
      → ((k : ℕ) → e.alloc k e.min_output_size ≡ true)
      → ((k : ℕ) → IsSilent (e.child args k []))
      → connection_thread_loop e args (map chunk bs ++ chunk [] ∷ later) w ≡ hang
  unfolding connection_thread_loop
  connection_thread_loop_end_hangs bs later w live =
      relay_loop_end_hangs w.next bs later [] (push w (fresh relay_buffer_size))
        (push-IsRelayBuffer w) live

  relay_loop_overread :
      (p : ℕ) (bs : List (List ℕ)) (bytes : List ℕ) (later : List Incoming) (old : List ℕ)
      (w : World)
      → IsRelayBuffer p old w
      → IsOpen (map chunk bs)
      → IsUnprintable bytes
      → relay_loop e args p (map chunk bs ++ chunk bytes ∷ later) w ≡ fault
  unfolding relay_loop
  relay_loop_overread p [] bytes later old w b live long =
      rw (relay_unprintable e args p bytes old w b long) refl
  relay_loop_overread p ([] ∷ bs) bytes later old w b live long = absurd (omega arith)
  relay_loop_overread p ((x ∷ xs) ∷ bs) bytes later old w b live long =
      let (out, w', q, next, h) =
        relay_turn-Relays e sane args p (x ∷ xs) old w b (omega arith) live.1 in
      rw
        (
          q,
          relay_loop_overread p bs bytes later _ _
              (received-IsRelayBuffer p (x ∷ xs) old w w' b next) live.2 long,
        )
        refl

  -- A stream gives any chunks of one byte or more, each shorter than 65536 bytes or with a byte 0
  -- among its first 65536, and then a chunk of 65536 bytes or more without a byte 0 among the
  -- first 65536. Then, for sane sizes, the run of a TCP thread ends in undefined behaviour: the
  -- buffer that is printed as a string is read behind its end.
  pub connection_thread_loop_overread :
      (bs : List (List ℕ)) (bytes : List ℕ) (later : List Incoming) (w : World)
      → IsOpen (map chunk bs)
      → IsUnprintable bytes
      → connection_thread_loop e args (map chunk bs ++ chunk bytes ∷ later) w ≡ fault
  unfolding connection_thread_loop
  connection_thread_loop_overread bs bytes later w live =
      relay_loop_overread w.next bs bytes later [] (push w (fresh relay_buffer_size))
        (push-IsRelayBuffer w) live
