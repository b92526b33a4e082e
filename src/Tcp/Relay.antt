-- ===== src/Tcp/Relay.antt =====
-- proxy/src/TCPConnection.cpp: _connection_thread_loop. What recv() returns is
-- an argument; the result of send() is not looked at.
use cezfuzzer.Base.{
  ℕ, List, [], ◌∷◌, Option, none, some, String, length, take, replicate, elem, if◌then◌else◌, ◌==◌,
}
use cezfuzzer.Fuzzer.Memory.{
  Block, World, Outcome, done, fault, M, pure, ◌>>=◌, ◌>>◌, free_ptr, find, load, store, push,
  fresh,
}
use cezfuzzer.Fuzzer.Core.{Env}
use cezfuzzer.Fuzzer.Modes.{post_fuzzing}

-- char buffer[65536]
unfoldable pub relay_buffer_size : ℕ
relay_buffer_size = 65536

-- What recv() finds: an error, or bytes of the stream; no bytes at its end.
pub data Incoming : Type 0 where
  failed : Incoming
  chunk : List ℕ → Incoming

-- What a round does: it ends the process, or it calls send().
pub data RelayEffect : Type 0 where
  exited : RelayEffect
  sent : List ℕ → RelayEffect

-- The bytes that send() is given, of a pointer that may be null if there are none.
abbrev pub sent_bytes : Option ℕ → ℕ → M (List ℕ)
sent_bytes none n w = if n == 0 then done [] w else fault
sent_bytes (some p) n w = load p n w

abbrev print_found : World → Option Block → Outcome (Unit {0})
print_found w none = fault
print_found w (some b) = if elem 0 b.bytes then done tt w else fault

-- The buffer is printed as a string: the bytes before the first 0, which has to be in it.
unfoldable pub print_string : ℕ → M (Unit {0})
print_string p w = print_found w (find p w.blocks)

-- From the call of postFuzzing to the free of its result.
unfoldable pub fuzz_chunk : Env → List String → ℕ → ℕ → M RelayEffect
fuzz_chunk e args buffer len = do
  (fuzzed, fuzzed_size) ← post_fuzzing e args buffer len
  bytes ← sent_bytes fuzzed fuzzed_size
  free_ptr fuzzed
  pure (sent bytes)

abbrev pub relay : Env → List String → ℕ → Incoming → M RelayEffect
relay e args buffer failed = (print_string buffer >> pure exited)
relay e args buffer (chunk bytes) =
    let got = take relay_buffer_size bytes in
    (store buffer 0 got >> print_string buffer >> fuzz_chunk e args buffer (length got))

-- `buffer` is the address of the thread's buffer.
unfoldable pub relay_turn : Env → List String → ℕ → Incoming → M RelayEffect
relay_turn e args buffer incoming =
    (store buffer 0 (replicate relay_buffer_size 0) >> relay e args buffer incoming)

abbrev relay_on : (Unit {0} → M (List RelayEffect)) → RelayEffect → M (List RelayEffect)
relay_on loop exited = pure (exited ∷ [])
relay_on loop (sent bytes) = do rest ← loop tt; pure (sent bytes ∷ rest)

-- The loop over what arrives; exit() ends it.
unfoldable pub relay_loop : Env → List String → ℕ → List Incoming → M (List RelayEffect)
relay_loop e args buffer [] = pure []
relay_loop e args buffer (x ∷ xs) =
    relay_turn e args buffer x >>= relay_on (λ _. relay_loop e args buffer xs)

-- The thread: a buffer with no byte set, at a new address, and the loop. The options of its fuzzer
-- are given by `args`.
unfoldable pub connection_thread_loop : Env → List String → List Incoming → M (List RelayEffect)
connection_thread_loop e args xs w = relay_loop e args w.next xs (push w (fresh relay_buffer_size))
