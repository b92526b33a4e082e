-- ===== src/Fuzzer/Whole.antt =====
-- fullFuzzing, guidedFuzzing and pass.
use cezfuzzer.Base.{
  ℕ, suc, ◌-◌, ◌≡◌, ◌≢◌, List, [], ◌++◌, arith, length, if◌then◌else◌, take, length-append, ltb,
  min, replicate, take_all, length-take, length-replicate,
}
use cezfuzzer.Fuzzer.Memory.{World, malloc}
use cezfuzzer.Fuzzer.Access.{Reads, memcpy_top, store_top}
use cezfuzzer.Fuzzer.Core.{Env}
use cezfuzzer.Fuzzer.Normalize.{IsSane, give, copy_input_lem}
use cezfuzzer.Fuzzer.Modes.{guided_fuzzing, pass, clamp_size}

-- A message padded with zeros, or cut.
pub clamped : Env → List ℕ → List ℕ
clamped e msg =
    if ltb (length msg) e.min_output_size
    then msg ++ replicate (e.min_output_size - length msg) 0
    else take e.max_buffer_size msg

-- For a message in memory that is not the next address of malloc, and sane sizes, guidedFuzzing
-- gives a new block with the message padded with zeros to the least size or cut to the greatest,
-- or null if malloc refuses.
pub guided_fuzzing_lem :
    (e : Env) (p : ℕ) (msg : List ℕ) (w : World)
    → IsSane e
    → Reads p (length msg) msg w.blocks
    → w.next ≢ p
    → guided_fuzzing e p (length msg) w ≡ give e (clamped e msg) w
unfolding guided_fuzzing clamped malloc
guided_fuzzing_lem e p msg w sane r ne =
    let n : ℕ = clamp_size e (length msg) in
    let m : ℕ = min (length msg) n in
    let w' : World = record w { next = suc w.next } in
    ground (
      arith,
      sane.ordered,
      sane.positive,
      memcpy_top w' w.next n 0 p m (length msg) [] msg w.blocks r ne,
      store_top w' w.next n m (take m msg) (replicate {A = ℕ} (n - m) 0) w.blocks,
      length-take m msg,
      take_all m msg,
      take_all e.max_buffer_size msg,
      length-replicate {A = ℕ} (n - m) 0,
      length-append msg (replicate (n - m) 0),
      length-take e.max_buffer_size msg,
    )

-- For a message in memory that is not the next address of malloc, pass gives a new block with the
-- same bytes, whatever their number, or null if malloc refuses.
pub pass_lem :
    (e : Env) (p : ℕ) (msg : List ℕ) (w : World)
    → Reads p (length msg) msg w.blocks
    → w.next ≢ p
    → pass e p (length msg) w ≡ give e msg w
unfolding pass
pass_lem e p msg w r ne = copy_input_lem e p (length msg) msg w r ne
