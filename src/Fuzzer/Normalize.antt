-- ===== src/Fuzzer/Normalize.antt =====
-- What normalizeOutputSize returns, as a function of the bytes.
use mathlib.Core.List.{append-nil}
use cezfuzzer.Base.{
  ℕ, suc, ◌*◌, ◌^◌, ◌≤◌, ◌<◌, ◌≡◌, refl, ◌≢◌, List, [], ◌++◌, Option, none, some, arith, ◌&&◌, leb,
  ltb, if◌then◌else◌, length, take, length-take, take_all, take-take, take-append_ge,
}
use cezfuzzer.Fuzzer.Memory.{Block, World, Outcome, done, malloc, memcpy, push, fresh}
use cezfuzzer.Fuzzer.Access.{Reads, Reads-length, memcpy_top}
use cezfuzzer.Fuzzer.Core.{Env, fill, expand_target, normalize_output_size, copy_input}
use cezfuzzer.Fuzzer.Fill.{tile, length-tile, fill_lem}

-- The sizes make sense: the least is positive, and not above the greatest.
pub record IsSane (e : Env) : Type 0 where
  pub positive : 0 < e.min_output_size
  pub ordered : e.min_output_size ≤ e.max_buffer_size
  pub small : 2 * e.max_buffer_size < 2 ^ 63

pub normal : Env → List ℕ → List ℕ
normal e xs =
    if leb e.min_output_size (length xs) && leb (length xs) e.max_buffer_size
    then xs
    else if ltb (length xs) e.min_output_size
    then tile (expand_target e) (expand_target e) xs
    else take e.max_buffer_size xs

abbrev pub full : List ℕ → Block
full xs = record { cap = length xs; bytes = xs }

-- The specification of a function that returns a new buffer with the bytes `xs`.
abbrev pub give : Env → List ℕ → World → Outcome (Option ℕ × ℕ)
give e xs w =
    if e.alloc w.next (length xs)
    then done (some w.next, length xs) (push w (full xs))
    else done (none, 0) (record w { next = suc w.next })

module _ (e : Env) (sane : IsSane e) where
  pub normal_range :
      (xs : List ℕ)
      → 0 < length xs
      → (e.min_output_size ≤ length (normal e xs)) × (length (normal e xs) ≤ e.max_buffer_size)
  unfolding normal
  normal_range xs h = ground (
    arith,
    sane.positive,
    sane.ordered,
    length-tile (expand_target e) (expand_target e) xs,
    length-take e.max_buffer_size xs,
  )

  pub normal_in_range :
      (xs : List ℕ)
      → e.min_output_size ≤ length xs
      → length xs ≤ e.max_buffer_size
      → normal e xs ≡ xs
  unfolding normal
  normal_in_range xs h k = ground arith

pub normal_short :
    (e : Env) (xs : List ℕ)
    → length xs < e.min_output_size
    → normal e xs ≡ tile (expand_target e) (expand_target e) xs
unfolding normal
normal_short e xs h = ground arith

-- The normal form of what is long enough begins with it.
pub take-normal :
    (e : Env) (n : ℕ) (xs : List ℕ)
    → n ≤ e.max_buffer_size
    → e.min_output_size ≤ length xs
    → take n (normal e xs) ≡ take n xs
unfolding normal
take-normal e n xs h l = ground (arith, take-take n e.max_buffer_size xs h)

-- The first bytes of the normal form of a joined message are the message.
pub normal_prefix :
    (e : Env) (msg fuzz : List ℕ)
    → length msg ≤ e.max_buffer_size
    → e.min_output_size ≤ length (msg ++ fuzz)
    → take (length msg) (normal e (msg ++ fuzz)) ≡ msg
unfolding normal
normal_prefix e msg fuzz h l = ground (
  arith,
  take-append_ge (length msg) msg fuzz,
  take-take (length msg) e.max_buffer_size (msg ++ fuzz) h,
  append-nil msg,
)

-- The world after a call of malloc, without the new block.
abbrev counted : World → World
counted w = record w { next = suc w.next }

module _ (e : Env) (p n : ℕ) (xs : List ℕ) (w : World) (r : Reads p n xs w.blocks)
    (ne : w.next ≢ p) where
  memcpy_new :
      (m size : ℕ)
      → m ≤ n
      → m ≤ size
      → memcpy w.next 0 p m (push w (fresh size))
        ≡ done tt (push w (record { cap = size; bytes = take m xs }))
  memcpy_new m size h k =
      memcpy_top (counted w) w.next size 0 p m n [] xs w.blocks r ne h refl (omega arith)

  pub fill_new :
      (target : ℕ)
      → 0 < n
      → fill target w.next 0 p n target (push w (fresh target))
        ≡ done target (push w (record { cap = target; bytes = tile target target xs }))
  fill_new target h = ground (
    arith,
    fill_lem target w.next 0 p n target [] xs w.blocks (counted w) r ne (Reads-length r) h refl,
  )

  pub copy_input_lem : copy_input e p n w ≡ give e xs w
  unfolding copy_input malloc
  copy_input_lem = ground (arith, Reads-length r, take_all n xs, memcpy_new n n)

  -- For a buffer of one byte or more in memory that is not the next address of malloc, and sane
  -- sizes, normalizeOutputSize is its specification: it asks malloc for the size of the normal
  -- form of the bytes, and gives a new block with this normal form, or null if malloc refuses.
  pub normalize_output_size_lem :
      IsSane e → 0 < n → normalize_output_size e p n w ≡ give e (normal e xs) w
  unfolding normalize_output_size normal malloc
  normalize_output_size_lem sane h = ground (
    arith,
    Reads-length r,
    sane.positive,
    sane.ordered,
    take_all n xs,
    memcpy_new n n,
    memcpy_new e.max_buffer_size e.max_buffer_size,
    fill_new (expand_target e),
    length-tile (expand_target e) (expand_target e) xs,
    length-take e.max_buffer_size xs,
  )
