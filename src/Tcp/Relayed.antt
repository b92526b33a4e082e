-- ===== src/Tcp/Relayed.antt =====
-- One round of a TCP thread, and the end of a stream.
use mathlib.Core.List.{append-nil}
use cezfuzzer.Base.{
  ℕ, ◌≤◌, ◌<◌, ◌≡◌, ◌⊎◌, inl, inr, refl, ap, ◌∙◌, List, [], ◌++◌, arith, true, some, String, length,
  length-append, length-replicate, take, drop, drop_all, length-take, take_prefix, take_all,
}
use cezfuzzer.Fuzzer.Memory.{
  Block, World, Outcome, done, fault, hang, M, pure, ◌>>=◌, ◌>>◌, bind_outcome, find, replace,
  store, free_ptr,
}
use cezfuzzer.Fuzzer.Access.{
  find-replace, replace-replace, Reads, with_top, load_lem, Reads-top, free_top,
}
use cezfuzzer.Fuzzer.Core.{Env}
use cezfuzzer.Fuzzer.Normalize.{IsSane, full}
use cezfuzzer.Fuzzer.Yields.{with_blocks, Refuses, Yields, null, buffer, Buffer}
use cezfuzzer.Fuzzer.Posts.{IsMessage, IsJoined, post_fuzzing-Yields}
use cezfuzzer.Fuzzer.Radamsa.{IsSilent}
use cezfuzzer.Fuzzer.Limits.{post_fuzzing_empty_hangs}
use cezfuzzer.Tcp.Printed.{
  IsPrintable, zeros, received, received_zero, received_no_zero, IsUnprintable, zeros_zero,
}
use cezfuzzer.Tcp.Relay.{
  relay_buffer_size, chunk, failed, exited, RelayEffect, sent, sent_bytes, print_string, fuzz_chunk,
  relay_turn,
}

-- The thread's buffer, with the bytes of it that are set.
pub record IsRelayBuffer (p : ℕ) (old : List ℕ) (w : World) : Type 0 where
  pub found : find p w.blocks ≡ some (record { cap = relay_buffer_size; bytes = old })
  pub fits : length old ≤ relay_buffer_size
  pub older : p < w.next

-- The buffer with some bytes in front of what it held.
abbrev pub holding : List ℕ → List ℕ → Block
holding got old = record { cap = relay_buffer_size; bytes = got ++ drop (length got) old }

store_relay :
    (p : ℕ) (got old : List ℕ) (w : World)
    → IsRelayBuffer p old w
    → length got ≤ relay_buffer_size
    → store p 0 got w ≡ done tt (with_blocks w (replace p (holding got old) w.blocks))
unfolding store
store_relay p got old w b h = ground (arith, b.found)

-- memset(buffer, 0, sizeof(buffer))
pub memset_lem :
    (p : ℕ) (old : List ℕ) (w : World)
    → IsRelayBuffer p old w
    → (w' : World) × (store p 0 zeros w ≡ done tt w')
      × (w'
          ≡ with_blocks w (replace p (record { cap = relay_buffer_size; bytes = zeros }) w.blocks))
      × IsRelayBuffer p zeros w'
memset_lem p old w b =
    let size : length zeros ≡ relay_buffer_size = length-replicate relay_buffer_size 0 in
    let same : zeros ++ drop (length zeros) old ≡ zeros =
      ap (λ t. zeros ++ t) (drop_all (length zeros) old (omega (arith, b.fits)))
      ∙ append-nil zeros in
    let cleared : Block = record { cap = relay_buffer_size; bytes = zeros } in
    (
      with_blocks w (replace p cleared w.blocks),
      store_relay p zeros old w b (omega arith)
          ∙ ap
              (λ t. done tt (
                with_blocks w (replace p (record { cap = relay_buffer_size; bytes = t }) w.blocks)))
              same,
      refl,
      record {
        found = find-replace p cleared _ w.blocks b.found;
        fits = omega arith;
        older = b.older;
      },
    )

receive_lem :
    (e : Env) (args : List String) (p : ℕ) (bytes old : List ℕ) (w : World)
    → IsRelayBuffer p old w
    → IsPrintable bytes
    → relay_turn e args p (chunk bytes) w
      ≡ fuzz_chunk e args p
          (length (take relay_buffer_size bytes))
          (with_blocks w (replace p (received (take relay_buffer_size bytes)) w.blocks))
unfolding relay_turn print_string
receive_lem e args p bytes old w b printable =
    let got : List ℕ = take relay_buffer_size bytes in
    let fits : length got ≤ relay_buffer_size =
      omega (arith, length-take relay_buffer_size bytes) in
    let (w', q, e', b') = memset_lem p old w b in
    rw
      (
        q,
        store_relay p got zeros w' b' fits,
        find-replace p (received got) _ w'.blocks b'.found,
        received_zero bytes printable,
      )
      (ap (λ t. fuzz_chunk e args p (length got) t)
        (ap (λ v. with_blocks v (replace p (received got) v.blocks)) e'
          ∙ ap (λ t. with_blocks w t) (replace-replace p _ (received got) w.blocks)))

pub relay_unprintable :
    (e : Env) (args : List String) (p : ℕ) (bytes old : List ℕ) (w : World)
    → IsRelayBuffer p old w
    → IsUnprintable bytes
    → relay_turn e args p (chunk bytes) w ≡ fault
unfolding relay_turn print_string
relay_unprintable e args p bytes old w b long =
    let got : List ℕ = take relay_buffer_size bytes in
    let fits : length got ≤ relay_buffer_size =
      omega (arith, length-take relay_buffer_size bytes) in
    let (w', q, e', b') = memset_lem p old w b in
    rw
      (
        q,
        store_relay p got zeros w' b' fits,
        find-replace p (received got) _ w'.blocks b'.found,
        received_no_zero bytes long,
      )
      refl

-- After an error the zeros are printed.
pub relay_failed :
    (e : Env) (args : List String) (p : ℕ) (old : List ℕ) (w w' : World)
    → store p 0 zeros w ≡ done tt w'
    → IsRelayBuffer p zeros w'
    → relay_turn e args p failed w ≡ done exited w'
unfolding relay_turn print_string
relay_failed e args p old w w' q b = rw (q, b.found, zeros_zero) refl

-- What is sent for a chunk: nothing, if malloc refuses a request; else what postFuzzing makes of it.
abbrev pub IsRelayed : Env → List String → List ℕ → List ℕ → Type 0
IsRelayed e args msg bytes = (Refuses e × (bytes ≡ [])) ⊎ IsJoined e args (λ m f. m ++ f) msg bytes

module _ (e : Env) (sane : IsSane e) (args : List String) where
  fuzz_chunk_lem :
      (p : ℕ) (msg : List ℕ) (w : World)
      → IsMessage p msg w
      → (bytes : List ℕ) × (w' : World) × (fuzz_chunk e args p (length msg) w
          ≡ done (sent bytes) (with_blocks w' w.blocks))
        × (w.next ≤ w'.next)
        × IsRelayed e args msg bytes
  unfolding fuzz_chunk
  fuzz_chunk_lem p msg w m = from_buffer (post_fuzzing-Yields e sane args p msg w m)
    where
      k : Buffer → M RelayEffect
      k (fuzzed, fuzzed_size) = do
        bytes ← sent_bytes fuzzed fuzzed_size
        free_ptr fuzzed
        pure (sent bytes)

      from_buffer :
          {o : Outcome Buffer}
          → Yields (Refuses e) w.next w.blocks o (IsJoined e args (λ m f. m ++ f) msg)
          → (bytes : List ℕ) × (w' : World) × (bind_outcome o k
              ≡ done (sent bytes) (with_blocks w' w.blocks))
            × (w.next ≤ w'.next)
            × IsRelayed e args msg bytes
      from_buffer (null w' denied h q) = rw q ([], w', refl, h, inl (denied, refl))
      from_buffer (buffer w' f xs h l q j) =
          rw
            (
              q,
              load_lem f (length xs) (length xs) xs (with_top w' f (full xs) w.blocks)
                  (Reads-top f (length xs) xs w.blocks) (omega arith),
              take_all (length xs) xs (omega arith),
              free_top w' f (full xs) w.blocks,
            )
            (xs, w', refl, omega arith, inr j)

  received-IsMessage :
      (p : ℕ) (got old : List ℕ) (w : World)
      → IsRelayBuffer p old w
      → 0 < length got
      → length got ≤ relay_buffer_size
      → IsMessage p got (with_blocks w (replace p (received got) w.blocks))
  unfolding relay_buffer_size
  received-IsMessage p got old w b pos short = record {
    readable = record {
      block = received got;
      found = find-replace p (received got) _ w.blocks b.found;
      long = omega (arith, length-append got (drop (length got) zeros));
      prefix = take_prefix got (drop (length got) zeros);
    };
    older = b.older;
    some_bytes = pos;
    short = omega arith;
  }

  -- For a chunk of one byte or more that recv() gives, with the thread's buffer of 65536 bytes in
  -- memory and sane sizes, a round of the TCP thread ends in a call of send() of nothing, of the
  -- chunk (at most 65536 bytes) alone, or of the normal form of the chunk with a fuzz behind it.
  -- The thread's buffer holds the chunk and zeros; every other block is as before, and no block is
  -- left behind.
  pub relay_turn-Relays :
      (p : ℕ) (bytes old : List ℕ) (w : World)
      → IsRelayBuffer p old w
      → 0 < length bytes
      → IsPrintable bytes
      → (out : List ℕ) × (w' : World) × (relay_turn e args p (chunk bytes) w
          ≡ done
              (sent out)
              (with_blocks w' (replace p (received (take relay_buffer_size bytes)) w.blocks)))
        × (w.next ≤ w'.next)
        × IsRelayed e args (take relay_buffer_size bytes) out
  unfolding relay_buffer_size
  relay_turn-Relays p bytes old w b pos printable =
      let got : List ℕ = take relay_buffer_size bytes in
      let some_bytes : 0 < length got = omega (arith, length-take relay_buffer_size bytes) in
      let short : length got ≤ relay_buffer_size =
        omega (arith, length-take relay_buffer_size bytes) in
      rw (receive_lem e args p bytes old w b printable)
        (fuzz_chunk_lem p got _ (received-IsMessage p got old w b some_bytes short))

  -- At the end of a stream, with the thread's buffer in memory and sane sizes, a round of the TCP
  -- thread does not end if malloc grants the least size and the child's run gives no bytes.
  pub relay_turn_end_hangs :
      (p : ℕ) (old : List ℕ) (w : World)
      → IsRelayBuffer p old w
      → ((k : ℕ) → e.alloc k e.min_output_size ≡ true)
      → IsSilent (e.child args w.runs [])
      → relay_turn e args p (chunk []) w ≡ hang
  unfolding fuzz_chunk
  relay_turn_end_hangs p old w b grants silent =
      let nothing : take {A = ℕ} relay_buffer_size [] ≡ [] =
        take_all relay_buffer_size [] (omega arith) in
      let readable : Reads p 0 [] (replace p (received []) w.blocks) = record {
        block = received [];
        found = find-replace p (received []) _ w.blocks b.found;
        long = omega arith;
        prefix = refl;
      } in
      rw
        (
          receive_lem e args p [] old w b (inl (unfold relay_buffer_size in omega arith)),
          nothing,
          post_fuzzing_empty_hangs e sane args p (with_blocks w (replace p (received []) w.blocks))
              readable b.older grants silent,
        )
        refl
