-- ===== src/Udp/Payload.antt =====
-- The datagrams that the proxy sends on.
use cezfuzzer.Base.{
  ℕ, ◌≤◌, ◌<◌, ◌≡◌, refl, inl, inr, List, ◌++◌, arith, String, length, length-append, take,
  length-take,
}
use cezfuzzer.Fuzzer.Memory.{World, Outcome, done, M, bind_outcome, ◌>>=◌, ◌>>◌, pure, free_ptr}
use cezfuzzer.Fuzzer.Access.{Reads-top, with_top, load_lem, free_top}
use cezfuzzer.Fuzzer.Core.{Env}
use cezfuzzer.Fuzzer.Normalize.{IsSane, normal, normal_range, take-normal, full}
use cezfuzzer.Fuzzer.Yields.{Buffer, Grants, Refuses, Yields, null, buffer, with_blocks}
use cezfuzzer.Fuzzer.Radamsa.{IsExpanded, IsExpanded-range}
use cezfuzzer.Fuzzer.Posts.{IsMessage, IsJoined, post_fuzzing-Yields}
use cezfuzzer.Udp.Threads.{
  max_udp_payload_size, recv_buffer_size, payload_size, load_ptr, fuzz_payload,
}

-- What a message is sent on as: the first 65499 bytes of it with a fuzz behind it.
abbrev pub IsPayload : Env → List String → List ℕ → List ℕ → Type 0
IsPayload e args msg payload =
    (fuzz : List ℕ) × IsExpanded e args msg fuzz
    × (length payload ≡ 65499)
    × (payload ≡ take 65499 (msg ++ fuzz))

-- The sizes leave room: all of a datagram fits in a buffer, and a buffer fills a datagram.
pub record IsRoomy (e : Env) : Type 0 where
  pub sane : IsSane e
  pub wide : max_udp_payload_size ≤ e.min_output_size

module _ (e : Env) (r : IsRoomy e) (grants : Grants e) where
  joined-IsPayload :
      (args : List String) (msg xs : List ℕ)
      → 0 < length msg
      → length msg ≤ recv_buffer_size
      → IsJoined e args (λ m f. m ++ f) msg xs
      → IsPayload e args msg (take (payload_size (length xs)) xs)
  joined-IsPayload args msg xs pos short (inl ((k, size, denied), q)) =
      absurd (cc (grants k size, denied))
  joined-IsPayload args msg xs pos short (inr (fuzz, x, q)) =
      let (lo, hi) = IsExpanded-range e r.sane pos x in
      let all : List ℕ = msg ++ fuzz in
      let longer : e.min_output_size ≤ length all = omega (arith, length-append msg fuzz) in
      let (least, most) = normal_range e r.sane all (omega (arith, r.sane.positive)) in
      let cut : payload_size (length (normal e all)) ≡ 65499 = ground (arith, r.wide) in
      rw (q, cut)
        (
          fuzz,
          x,
          omega (arith, length-take 65499 (normal e all), r.wide),
          take-normal e 65499 all (omega (arith, r.wide, r.sane.ordered)) longer,
        )

  -- From postFuzzing to the free of its result: the call ends, leaves no block behind, and gives a
  -- payload for the message.
  pub fuzz_payload_lem :
      (args : List String) (p : ℕ) (msg : List ℕ) (w : World)
      → IsMessage p msg w
      → length msg ≤ recv_buffer_size
      → (payload : List ℕ) × (w' : World) × (fuzz_payload e args p (length msg) w
          ≡ done payload (with_blocks w' w.blocks))
        × (w.next ≤ w'.next)
        × IsPayload e args msg payload
  unfolding fuzz_payload
  fuzz_payload_lem args p msg w m short = from_buffer (post_fuzzing-Yields e r.sane args p msg w m)
    where
      k : Buffer → M (List ℕ)
      k (fuzzed, fuzzed_size) = do
        payload ← load_ptr fuzzed (payload_size fuzzed_size)
        free_ptr fuzzed
        pure payload

      from_buffer :
          {o : Outcome Buffer}
          → Yields (Refuses e) w.next w.blocks o (IsJoined e args (λ m f. m ++ f) msg)
          → (payload : List ℕ) × (w' : World) × (bind_outcome o k
              ≡ done payload (with_blocks w' w.blocks))
            × (w.next ≤ w'.next)
            × IsPayload e args msg payload
      from_buffer (null w' (k, size, denied) h q) = absurd (cc (grants k size, denied))
      from_buffer (buffer w' f xs h l q j) =
          let n : ℕ = payload_size (length xs) in
          let fits : n ≤ length xs = ground arith in
          rw
            (
              q,
              load_lem f n (length xs) xs (with_top w' f (full xs) w.blocks)
                  (Reads-top f (length xs) xs w.blocks) fits,
              free_top w' f (full xs) w.blocks,
            )
            (take n xs, w', refl, omega arith, joined-IsPayload args msg xs m.some_bytes short j)
