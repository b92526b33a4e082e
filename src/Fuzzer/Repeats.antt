-- ===== src/Fuzzer/Repeats.antt =====
-- The bytes that normalizeOutputSize makes of a short buffer.
use cezfuzzer.Base.{ℕ, ◌%◌, ◌<◌, ◌≡◌, List, get_elem?, arith, length, ◌≢◌, ◌∙◌}
use cezfuzzer.Fuzzer.Memory.{World}
use cezfuzzer.Fuzzer.Access.{Reads}
use cezfuzzer.Fuzzer.Core.{Env, expand_target, normalize_output_size}
use cezfuzzer.Fuzzer.Fill.{tile, length-tile, get_elem?-tile}
use cezfuzzer.Fuzzer.Normalize.{IsSane, normal_short, normalize_output_size_lem}
use cezfuzzer.Fuzzer.Yields.{Refuses, Yields, Yields-give}

-- For a buffer of one byte or more, shorter than the least size, that is in memory and not the
-- next address of malloc, and sane sizes: normalizeOutputSize gives null, or a new block of
-- exactly the least size, of which byte i is byte i modulo the buffer's length. The other blocks
-- are as before.
pub normalize_output_size_repeats :
    (e : Env) (p : ℕ) (msg : List ℕ) (w : World)
    → IsSane e
    → Reads p (length msg) msg w.blocks
    → w.next ≢ p
    → 0 < length msg
    → length msg < e.min_output_size
    → Yields (Refuses e) w.next w.blocks (normalize_output_size e p (length msg) w) (λ out.
      (length out ≡ e.min_output_size)
      × ((i : ℕ) → i < e.min_output_size → get_elem? out i ≡ get_elem? msg (i % length msg)))
normalize_output_size_repeats e p msg w sane r ne pos short =
    let n : ℕ = expand_target e in
    let target : n ≡ e.min_output_size = ground (arith, sane.ordered) in
    rw (normalize_output_size_lem e p (length msg) msg w r ne sane pos, normal_short e msg short)
      (Yields-give e w (tile n n msg) (omega arith) (
        length-tile n n msg pos (omega arith) ∙ target,
        λ i h. get_elem?-tile n n i msg pos (omega arith) (omega arith),
      ))
