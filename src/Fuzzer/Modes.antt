-- ===== src/Fuzzer/Modes.antt =====
-- proxy/src/Fuzzer.cpp: postFuzzing, preFuzzing, fullFuzzing, guidedFuzzing and pass.
use cezfuzzer.Base.{
  ℕ, ◌+◌, ◌-◌, List, Option, none, some, ltb, if◌then◌else◌, replicate, String, min,
}
use cezfuzzer.Fuzzer.Memory.{M, pure, ◌>>=◌, ◌>>◌, if_null, malloc, free, free_ptr, store, memcpy}
use cezfuzzer.Fuzzer.Core.{Env, add_size, run_radamsa_expanded, normalize_and_free, copy_input}

module _ (e : Env) where
  open e use {alloc, min_output_size, max_buffer_size}

  unfoldable pub post_fuzzing : List String → ℕ → ℕ → M (Option ℕ × ℕ)
  post_fuzzing args input size = do
    (fuzzed, fuzz_size) ← run_radamsa_expanded e args input size
    if_null fuzzed (copy_input e input size) (λ f. do
      combined ← malloc alloc (add_size size fuzz_size)
      if_null combined (free f >> pure (none, 0)) (λ c. do
        memcpy c 0 input size
        memcpy c size f fuzz_size
        free f
        normalize_and_free e c (add_size size fuzz_size)))

  unfoldable pub pre_fuzzing : List String → ℕ → ℕ → M (Option ℕ × ℕ)
  pre_fuzzing args input size = do
    (fuzzed, fuzz_size) ← run_radamsa_expanded e args input size
    if_null fuzzed (copy_input e input size) (λ f. do
      combined ← malloc alloc (add_size fuzz_size size)
      if_null combined (free f >> pure (none, 0)) (λ c. do
        memcpy c 0 f fuzz_size
        memcpy c fuzz_size input size
        free f
        normalize_and_free e c (add_size fuzz_size size)))

  -- `if (p && n > 0) memcpy(dst + off, p, n)`: the pointer is not null where the size is not 0.
  abbrev pub copy_fuzz : ℕ → ℕ → Option ℕ → ℕ → M (Unit {0})
  copy_fuzz dst off none n = pure tt
  copy_fuzz dst off (some p) n = if ltb 0 n then memcpy dst off p n else pure tt

  abbrev pub size_of_fuzz : Option ℕ → ℕ → ℕ
  size_of_fuzz none n = 0
  size_of_fuzz (some p) n = n

  -- From the first test on the two fuzz buffers on.
  unfoldable pub join_fuzz : ℕ → ℕ → Option ℕ × ℕ → Option ℕ × ℕ → M (Option ℕ × ℕ)
  join_fuzz input size (none, n1) (none, n2) = copy_input e input size
  join_fuzz input size (fuzz1, n1) (fuzz2, n2) =
      let fuzz1_size = size_of_fuzz fuzz1 n1 in
      let fuzz2_size = size_of_fuzz fuzz2 n2 in
      let combined_len = add_size (add_size fuzz1_size size) fuzz2_size in
      do
        combined ← malloc alloc combined_len
        if_null combined (free_ptr fuzz1 >> (free_ptr fuzz2 >> pure (none, 0))) (λ c. do
          copy_fuzz c 0 fuzz1 fuzz1_size
          memcpy c fuzz1_size input size
          copy_fuzz c (fuzz1_size + size) fuzz2 fuzz2_size
          free_ptr fuzz1
          free_ptr fuzz2
          normalize_and_free e c combined_len)

  unfoldable pub full_fuzzing : List String → ℕ → ℕ → M (Option ℕ × ℕ)
  unfolding join_fuzz
  full_fuzzing args input size = do
    first ← run_radamsa_expanded e args input size
    second ← run_radamsa_expanded e args input size
    join_fuzz input size first second

  abbrev pub clamp_size : ℕ → ℕ
  clamp_size size =
      if ltb size min_output_size
      then min_output_size
      else if ltb max_buffer_size size
      then max_buffer_size
      else size

  unfoldable pub guided_fuzzing : ℕ → ℕ → M (Option ℕ × ℕ)
  guided_fuzzing input size =
      let target = clamp_size size in
      let to_copy = min size target in
      do
        buffer ← malloc alloc target
        if_null buffer (pure (none, 0)) (λ p. do
          memcpy p 0 input to_copy
          if ltb to_copy target
              then (do store p to_copy (replicate (target - to_copy) 0); pure (some p, target))
              else pure (some p, target))

  unfoldable pub pass : ℕ → ℕ → M (Option ℕ × ℕ)
  unfolding copy_input
  pass input size = copy_input e input size
