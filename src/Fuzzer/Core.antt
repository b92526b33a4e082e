-- ===== src/Fuzzer/Core.antt =====
-- proxy/src/Fuzzer.cpp, the functions that build an output buffer. A call of malloc, of the child
-- process and of its pipes has the outcome that the environment gives it.
use cezfuzzer.Base.{
  ℕ, zero, suc, ◌+◌, ◌-◌, ◌*◌, ◌%◌, ◌^◌, Bool, true, false, List, Option, none, some, ◌&&◌, leb,
  ltb, ◌==◌, if◌then◌else◌, length, take, String, min,
}
use cezfuzzer.Fuzzer.Memory.{
  done, hang, M, pure, ◌>>=◌, ◌>>◌, if_null, malloc, free, load, store, memcpy,
}

-- How one start of the child process can go: a pipe() or fork() fails, read() fails, or read() finds
-- the bytes that the child has written, none at the end of its output.
pub data Child : Type 0 where
  no_first_pipe no_second_pipe no_fork read_error : Child
  wrote : List ℕ → Child

-- `child` is given radamsa's arguments, the number of the run and what is written to its stdin.
pub record Env : Type 0 where
  pub alloc : ℕ → ℕ → Bool
  pub child : List String → ℕ → List ℕ → Child
  pub min_output_size : ℕ
  pub max_buffer_size : ℕ

-- MIN_OUTPUT_SIZE and MAX_BUFFER_SIZE of Fuzzer.hpp.
abbrev pub batch : ℕ
batch = 4096

abbrev pub shipped : (ℕ → ℕ → Bool) → (List String → ℕ → List ℕ → Child) → Env
shipped alloc child = record {
  alloc = alloc;
  child = child;
  min_output_size = 100 * batch;
  max_buffer_size = 10000 * batch;
}

-- size_t addition
abbrev pub add_size : ℕ → ℕ → ℕ
add_size a b = (a + b) % 2 ^ 64

-- while (copied < target) { toCopy = min(size, target - copied); memcpy(dst + copied, src, toCopy);
-- copied += toCopy; }. The result is `copied`.
unfoldable pub fill : ℕ → ℕ → ℕ → ℕ → ℕ → ℕ → M ℕ
fill zero dst copied src size target w = if ltb copied target then hang else done copied w
fill (suc fuel) dst copied src size target w = elim (ltb copied target) [
  | true ↦
      (memcpy dst copied src (min size (target - copied)) >>= λ _.
      fill fuel dst (copied + min size (target - copied)) src size target)
        w
  | false ↦ done copied w
]

module _ (e : Env) where
  open e use {alloc, child, min_output_size, max_buffer_size}

  abbrev pub expand_target : ℕ
  expand_target = if ltb max_buffer_size min_output_size then max_buffer_size else min_output_size

  -- The result of a function is the buffer, null or not, and the out-parameter for its length.
  unfoldable pub normalize_output_size : ℕ → ℕ → M (Option ℕ × ℕ)
  normalize_output_size input input_len =
      if leb min_output_size input_len && leb input_len max_buffer_size
      then (do
        copy ← malloc alloc input_len
        if_null copy (pure (none, 0))
            (λ p. do memcpy p 0 input input_len; pure (some p, input_len)))
      else if ltb input_len min_output_size
      then (do
        expanded ← malloc alloc expand_target
        if_null expanded (pure (none, 0)) (λ p. do
          copied ← fill expand_target p 0 input input_len expand_target
          pure (some p, copied)))
      else (do
        truncated ← malloc alloc max_buffer_size
        if_null truncated (pure (none, 0))
            (λ p. do memcpy p 0 input max_buffer_size; pure (some p, max_buffer_size)))

  -- A buffer of its own goes through normalizeOutputSize, is freed, and the copy is returned.
  unfoldable pub normalize_and_free : ℕ → ℕ → M (Option ℕ × ℕ)
  normalize_and_free buffer len = do
    (normalized, normalized_len) ← normalize_output_size buffer len
    free buffer
    pure (normalized, normalized_len)

  -- fds: the pipes opened and closed again on each path.
  abbrev open_fds : ℕ → M (Unit {0})
  open_fds n w = done tt (record w { fds = w.fds + n })

  abbrev close_fds : ℕ → M (Unit {0})
  close_fds n w = done tt (record w { fds = w.fds - n })

  abbrev start_child : List String → List ℕ → M Child
  start_child args stdin w = done (child args w.runs stdin) (record w { runs = suc w.runs })

  -- From the test on what read() returned on.
  unfoldable pub stored : ℕ → List ℕ → M (Option ℕ × ℕ)
  stored p got =
      if length got == 0 then (free p >> pure (none, 0)) else normalize_and_free p (length got)

  -- From the parent's malloc(MAX_BUFFER_SIZE) on. read() hands over at most the bytes asked for.
  unfoldable pub collect_output : Option (List ℕ) → M (Option ℕ × ℕ)
  collect_output out = do
    temp ← malloc alloc max_buffer_size
    if_null temp (close_fds 1 >> pure (none, 0)) (λ p. elim out [
      | none ↦ do close_fds 1; free p; pure (none, 0)
      | some bytes ↦ do
        let got = take max_buffer_size bytes
        store p 0 got
        close_fds 1
        stored p got
    ])

  -- The pipes and the process: what fails leaves the pipes opened so far behind. Otherwise the parent
  -- closes three of the four ends at once.
  unfoldable pub after_start : Child → M (Option ℕ × ℕ)
  after_start no_first_pipe = pure (none, 0)
  after_start no_second_pipe = open_fds 2 >> pure (none, 0)
  after_start no_fork = open_fds 4 >> pure (none, 0)
  after_start read_error = open_fds 4 >> (close_fds 3 >> collect_output none)
  after_start (wrote bytes) = open_fds 4 >> (close_fds 3 >> collect_output (some bytes))

  -- A read of the input changes nothing, so it stands before the start of the child that it feeds.
  unfoldable pub run_radamsa : List String → ℕ → ℕ → M (Option ℕ × ℕ)
  run_radamsa args input size = do
    stdin ← load input size
    outcome ← start_child args stdin
    after_start outcome

  -- The fallback of runRadamsaExpanded: the input again and again.
  unfoldable pub repeat_input : ℕ → ℕ → M (Option ℕ × ℕ)
  repeat_input input size = do
    result ← malloc alloc min_output_size
    if_null result (pure (none, 0)) (λ p. do
      _ ← fill min_output_size p 0 input size min_output_size
      pure (some p, min_output_size))

  -- The last part of runRadamsaExpanded: the fuzz, then the input again and again.
  unfoldable pub expand_fuzz : ℕ → ℕ → ℕ → ℕ → M (Option ℕ × ℕ)
  expand_fuzz first_fuzz first_size input size = do
    expanded ← malloc alloc expand_target
    if_null expanded (free first_fuzz >> pure (none, 0)) (λ p. do
      memcpy p 0 first_fuzz first_size
      free first_fuzz
      copied ← fill expand_target p first_size input size expand_target
      pure (some p, copied))

  -- The copy of the input that a mode returns when there is no fuzz, and what `pass` returns.
  unfoldable pub copy_input : ℕ → ℕ → M (Option ℕ × ℕ)
  copy_input input size = do
    copy ← malloc alloc size
    if_null copy (pure (none, 0)) (λ p. do memcpy p 0 input size; pure (some p, size))

  unfoldable pub run_radamsa_expanded : List String → ℕ → ℕ → M (Option ℕ × ℕ)
  run_radamsa_expanded args input size = do
    (first_fuzz, first_size) ← run_radamsa args input size
    if_null first_fuzz (repeat_input input size) (λ p.
        if first_size == 0
        then (do free p; repeat_input input size)
        else if leb min_output_size first_size
        then normalize_and_free p first_size
        else expand_fuzz p first_size input size)
