-- ===== src/Fuzzer/Parts.antt =====
-- The two fuzzes of fullFuzzing, each a buffer or a null pointer: how they are copied and freed.
use mathlib.Core.List.{append-nil}
use cezfuzzer.Base.{
  ℕ, ◌+◌, ◌≤◌, ◌<◌, ◌≡◌, refl, ap, sym, true, List, [], ◌∷◌, ◌++◌, Option, none, some, arith,
  length, ltb,
}
use cezfuzzer.Fuzzer.Memory.{Block, World, done, free, free_ptr}
use cezfuzzer.Fuzzer.Access.{Reads, with_top, memcpy_whole}
use cezfuzzer.Fuzzer.Core.{Env}
use cezfuzzer.Fuzzer.Normalize.{full}
use cezfuzzer.Fuzzer.Yields.{with_blocks}
use cezfuzzer.Fuzzer.Modes.{copy_fuzz}

-- A run's result on top of the blocks: a buffer with these bytes, or a null pointer.
abbrev pub on_top : Option ℕ → List ℕ → List (ℕ × Block) → List (ℕ × Block)
on_top none xs bs = bs
on_top (some p) xs bs = (p, full xs) ∷ bs

abbrev pub bytes_of : Option ℕ → List ℕ → List ℕ
bytes_of none xs = []
bytes_of (some p) xs = xs

-- The address, if there is one, is below `n`, and has some bytes.
abbrev pub IsOlder : Option ℕ → List ℕ → ℕ → Type 0
IsOlder none xs n = Unit {0}
IsOlder (some p) xs n = (p < n) × (0 < length xs)

abbrev pub Differs : Option ℕ → Option ℕ → Type 0
Differs none o = Unit {0}
Differs (some p) none = Unit {0}
Differs (some p) (some q) = p < q

abbrev pub Readable : Option ℕ → List ℕ → List (ℕ × Block) → Type 0
Readable none xs bs = Unit {0}
Readable (some p) xs bs = Reads p (length xs) xs bs

pub copy_fuzz_lem :
    (e : Env) (w : World) (c room off : ℕ) (o : Option ℕ) (pre xs : List ℕ) (bs : List (ℕ × Block))
    → IsOlder o xs c
    → Readable o xs bs
    → off ≡ length pre
    → off + length (bytes_of o xs) ≤ room
    → copy_fuzz e c off o
        (length (bytes_of o xs))
        (with_top w c (record { cap = room; bytes = pre }) bs)
      ≡ done tt (with_top w c (record { cap = room; bytes = pre ++ bytes_of o xs }) bs)
copy_fuzz_lem e w c room off none pre xs bs h r q fits =
    ap (λ b. done tt (with_top w c (record { cap = room; bytes = b }) bs)) (sym (append-nil pre))
copy_fuzz_lem e w c room off (some p) pre xs bs (below, pos) r q fits =
    let some_bytes : ltb 0 (length xs) ≡ true = ground arith in
    rw some_bytes (memcpy_whole w c room off p pre xs bs r (omega arith) q fits)

-- fuzz1 is freed below the new block and fuzz2, then fuzz2 below the new block.
pub free_first :
    (w : World) (c : ℕ) (b : Block) (o q : Option ℕ) (xs ys : List ℕ) (bs : List (ℕ × Block))
    → IsOlder o xs c
    → Differs o q
    → free_ptr o (with_top w c b (on_top q ys (on_top o xs bs)))
      ≡ done tt (with_top w c b (on_top q ys bs))
unfolding free
free_first w c b none q xs ys bs h d = refl
free_first w c b (some p) none xs ys bs h d = ground arith
free_first w c b (some p) (some q) xs ys bs h d = ground arith

pub free_next :
    (w : World) (c : ℕ) (b : Block) (q : Option ℕ) (ys : List ℕ) (bs : List (ℕ × Block))
    → IsOlder q ys c
    → free_ptr q (with_top w c b (on_top q ys bs)) ≡ done tt (with_top w c b bs)
unfolding free
free_next w c b none ys bs h = refl
free_next w c b (some q) ys bs h = ground arith

-- The same with no new block.
pub drop_first :
    (w : World) (o q : Option ℕ) (xs ys : List ℕ) (bs : List (ℕ × Block))
    → Differs o q
    → free_ptr o (with_blocks w (on_top q ys (on_top o xs bs)))
      ≡ done tt (with_blocks w (on_top q ys bs))
unfolding free
drop_first w none q xs ys bs d = refl
drop_first w (some p) none xs ys bs d = ground arith
drop_first w (some p) (some q) xs ys bs d = ground arith

pub drop_next :
    (w : World) (q : Option ℕ) (ys : List ℕ) (bs : List (ℕ × Block))
    → free_ptr q (with_blocks w (on_top q ys bs)) ≡ done tt (with_blocks w bs)
unfolding free
drop_next w none ys bs = refl
drop_next w (some q) ys bs = ground arith
