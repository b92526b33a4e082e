-- ===== src/Fuzzer/Fill.antt =====
-- The loop that fills a buffer by repeating an input: `fill` of Core.
use mathlib.Core.List.{append-nil, append_assoc}
use native.Mathlib.Nat.{mod-eq_of_lt, mod-eq-sub-mod}
use cezfuzzer.Base.{
  ℕ, zero, suc, ◌+◌, ◌-◌, ◌%◌, ◌≤◌, ◌<◌, ◌≡◌, ap, ◌∙◌, ◌≢◌, true, false, List, [], ◌++◌, arith, ltb,
  length, take, get_elem?, min, length-append, length-take, get_elem?-append_lt,
  get_elem?-append_ge, get_elem?-take, sym,
}
use native.Mathlib.Decide.{dec_lt}
use cezfuzzer.Fuzzer.Memory.{Block, World, done, hang}
use cezfuzzer.Fuzzer.Access.{Reads, with_top, memcpy_top}
use cezfuzzer.Fuzzer.Core.{fill}

-- `n` bytes of `xs` over and over, in at most `fuel` pieces.
pub tile : ℕ → ℕ → List ℕ → List ℕ
tile zero n xs = []
tile (suc fuel) n xs = elim (ltb 0 n) [
  | true ↦ take (min (length xs) n) xs ++ tile fuel (n - min (length xs) n) xs
  | false ↦ []
]

pub length-tile :
    (fuel n : ℕ) (xs : List ℕ) → 0 < length xs → n ≤ fuel → length (tile fuel n xs) ≡ n
unfolding tile
length-tile zero n xs h k = omega arith
length-tile (suc fuel) n xs h k = ground (
  arith,
  length-append (take (min (length xs) n) xs) (tile fuel (n - min (length xs) n) xs),
  length-take (min (length xs) n) xs,
  length-tile fuel (n - min (length xs) n) xs,
)

tile_step :
    (fuel n : ℕ) (xs : List ℕ)
    → 0 < n
    → tile (suc fuel) n xs ≡ take (min (length xs) n) xs ++ tile fuel (n - min (length xs) n) xs
unfolding tile
tile_step fuel n xs h = ground arith

-- Byte `i` of it is byte `i` modulo the length.
pub get_elem?-tile :
    (fuel n i : ℕ) (xs : List ℕ)
    → 0 < length xs
    → n ≤ fuel
    → i < n
    → get_elem? (tile fuel n xs) i ≡ get_elem? xs (i % length xs)
get_elem?-tile zero n i xs h k lt = absurd (omega arith)
get_elem?-tile (suc fuel) n i xs h k lt =
    let m : ℕ = min (length xs) n in
    let rest : List ℕ = tile fuel (n - m) xs in
    rw (tile_step fuel n xs (omega arith)) (elim (dec_lt i (length xs)) [
      | yes p ↦
          get_elem?-append_lt (take m xs) rest i (omega (arith, length-take m xs))
          ∙ get_elem?-take m xs i (omega arith)
          ∙ ap (get_elem? xs) (sym (mod-eq_of_lt p))
      | no p ↦
          let same : i - length (take m xs) ≡ i - length xs = omega (arith, length-take m xs) in
          get_elem?-append_ge (take m xs) rest i (omega (arith, length-take m xs))
          ∙ ap (get_elem? rest) same
          ∙ get_elem?-tile fuel (n - m) (i - length xs) xs h (omega arith) (omega arith)
          ∙ ap (get_elem? xs) (sym (mod-eq-sub-mod (omega arith)))
    ])

-- The loop ends with the block filled up, whatever the input.
pub fill_lem :
    (fuel dst copied src size target : ℕ) (pre xs : List ℕ) (bs : List (ℕ × Block)) (w : World)
    → Reads src size xs bs
    → dst ≢ src
    → length xs ≡ size
    → 0 < size
    → copied ≡ length pre
    → copied ≤ target
    → target - copied ≤ fuel
    → fill fuel dst copied src size target
        (with_top w dst (record { cap = target; bytes = pre }) bs)
      ≡ done target (
          with_top w dst
            (record { cap = target; bytes = pre ++ tile fuel (target - copied) xs })
            bs)
unfolding fill tile
fill_lem zero dst copied src size target pre xs bs w r ne l h e c k = ground (arith, append-nil pre)
fill_lem (suc fuel) dst copied src size target pre xs bs w r ne l h e c k =
    let m : ℕ = min size (target - copied) in
    ground (
      arith,
      append-nil pre,
      memcpy_top w dst target copied src m size pre xs bs r ne,
      length-append pre (take m xs),
      length-take m xs,
      fill_lem fuel dst (copied + m) src size target (pre ++ take m xs) xs bs w r ne l h,
      append_assoc pre (take m xs) (tile fuel (target - copied - m) xs),
    )

-- With nothing to copy the loop never ends.
pub fill_hangs :
    (fuel dst copied src target : ℕ) (pre xs : List ℕ) (bs : List (ℕ × Block)) (w : World)
    → Reads src 0 xs bs
    → dst ≢ src
    → copied ≡ length pre
    → copied < target
    → fill fuel dst copied src 0 target (with_top w dst (record { cap = target; bytes = pre }) bs)
      ≡ hang
unfolding fill
fill_hangs zero dst copied src target pre xs bs w r ne e h = ground arith
fill_hangs (suc fuel) dst copied src target pre xs bs w r ne e h = ground (
  arith,
  memcpy_top w dst target copied src 0 0 pre xs bs r ne,
  append-nil pre,
  fill_hangs fuel dst copied src target pre xs bs w r ne e h,
)
