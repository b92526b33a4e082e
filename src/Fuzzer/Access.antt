-- ===== src/Fuzzer/Access.antt =====
-- What reads and writes do to the newest blocks of the memory.
use mathlib.Core.List.{append-nil}
use cezfuzzer.Base.{
  ℕ, ◌+◌, ◌≤◌, ◌≡◌, ap, ◌≢◌, List, ◌∷◌, ◌++◌, some, arith, length, take, take_all, take-take,
  drop_all, length-take, refl, [],
}
use cezfuzzer.Fuzzer.Memory.{is_live, Block, World, done, find, replace, free, load, store, memcpy}

-- A block of the list can be read up to `n` bytes, and they are `xs`.
pub record Reads (p n : ℕ) (xs : List ℕ) (bs : List (ℕ × Block)) : Type 0 where
  pub block : Block
  pub found : find p bs ≡ some block
  pub long : n ≤ length block.bytes
  pub prefix : take n block.bytes ≡ xs

-- The world whose newest block is `p`.
abbrev pub with_top : World → ℕ → Block → List (ℕ × Block) → World
with_top w p b bs = record w { blocks = (p, b) ∷ bs }

pub Reads-below :
    (p q n : ℕ) (xs : List ℕ) (b : Block) (bs : List (ℕ × Block))
    → q ≢ p
    → Reads p n xs bs
    → Reads p n xs ((q, b) ∷ bs)
Reads-below p q n xs b bs ne r = record {
  block = r.block;
  found = ground arith;
  long = r.long;
  prefix = r.prefix;
}

pub Reads-length : {p n : ℕ} {xs : List ℕ} {bs : List (ℕ × Block)} → Reads p n xs bs → length xs ≡ n
Reads-length {n = n} r = omega (arith, ap length r.prefix, length-take n r.block.bytes, r.long)

-- A block written over.
pub find-replace :
    (p : ℕ) (c b : Block) (bs : List (ℕ × Block))
    → find p bs ≡ some b
    → find p (replace p c bs) ≡ some c
find-replace p c b [] h = cc
find-replace p c b ((q, d) ∷ bs) h = ground (arith, find-replace p c b bs)

pub replace-replace :
    (p : ℕ) (c d : Block) (bs : List (ℕ × Block)) → replace p d (replace p c bs) ≡ replace p d bs
replace-replace p c d [] = refl
replace-replace p c d ((q, b) ∷ bs) = ground (arith, replace-replace p c d bs)

pub replace_same :
    (p : ℕ) (b : Block) (bs : List (ℕ × Block)) → find p bs ≡ some b → replace p b bs ≡ bs
replace_same p b [] h = refl
replace_same p b ((q, d) ∷ bs) h = ground (arith, replace_same p b bs)

pub is_live-replace :
    (q p : ℕ) (c : Block) (bs : List (ℕ × Block)) → is_live q (replace p c bs) ≡ is_live q bs
is_live-replace q p c [] = refl
is_live-replace q p c ((r, b) ∷ bs) = ground (arith, is_live-replace q p c bs)

-- A read of the first `m` of those bytes.
pub load_lem :
    (p m n : ℕ) (xs : List ℕ) (w : World)
    → Reads p n xs w.blocks
    → m ≤ n
    → load p m w ≡ done (take m xs) w
unfolding load
load_lem p m n xs w r h =
    ground (arith, r.found, r.long, take-take m n r.block.bytes h, ap (take m) r.prefix)

-- A write at the end of the newest block.
pub store_top :
    (w : World) (p room off : ℕ) (pre xs : List ℕ) (bs : List (ℕ × Block))
    → off ≡ length pre
    → off + length xs ≤ room
    → store p off xs (with_top w p (record { cap = room; bytes = pre }) bs)
      ≡ done tt (with_top w p (record { cap = room; bytes = pre ++ xs }) bs)
unfolding store
store_top w p room off pre xs bs e h =
    ground (arith, take_all off pre, drop_all (off + length xs) pre, append-nil xs)

-- A copy to the end of the newest block, from a block below it.
pub memcpy_top :
    (w : World) (p room off src m n : ℕ) (pre xs : List ℕ) (bs : List (ℕ × Block))
    → Reads src n xs bs
    → p ≢ src
    → m ≤ n
    → off ≡ length pre
    → off + m ≤ room
    → memcpy p off src m (with_top w p (record { cap = room; bytes = pre }) bs)
      ≡ done tt (with_top w p (record { cap = room; bytes = pre ++ take m xs }) bs)
unfolding memcpy
memcpy_top w p room off src m n pre xs bs r ne h e fits =
    let top : Block = record { cap = room; bytes = pre } in
    rw (load_lem src m n xs (with_top w p top bs) (Reads-below src p n xs top bs ne r) h) (
      store_top w p room off pre (take m xs) bs e (omega (arith, length-take m xs, Reads-length r)))

-- The same for all the bytes of the block below.
pub memcpy_whole :
    (w : World) (p room off src : ℕ) (pre xs : List ℕ) (bs : List (ℕ × Block))
    → Reads src (length xs) xs bs
    → p ≢ src
    → off ≡ length pre
    → off + length xs ≤ room
    → memcpy p off src (length xs) (with_top w p (record { cap = room; bytes = pre }) bs)
      ≡ done tt (with_top w p (record { cap = room; bytes = pre ++ xs }) bs)
memcpy_whole w p room off src pre xs bs r ne e fits =
    rw (take_all (length xs) xs (omega arith)) at
      (memcpy_top w p room off src (length xs) (length xs) pre xs bs r ne (omega arith) e fits)

pub Reads-top :
    (p : ℕ) (room : ℕ) (xs : List ℕ) (bs : List (ℕ × Block))
    → Reads p (length xs) xs ((p, record { cap = room; bytes = xs }) ∷ bs)
Reads-top p room xs bs = record {
  block = record { cap = room; bytes = xs };
  found = ground arith;
  long = omega arith;
  prefix = take_all (length xs) xs (omega arith);
}

pub free_top :
    (w : World) (p : ℕ) (b : Block) (bs : List (ℕ × Block))
    → free p (with_top w p b bs) ≡ done tt (record w { blocks = bs })
unfolding free
free_top w p b bs = ground arith

-- A block below the newest one is freed, and the newest stays.
pub free_second :
    (w : World) (p q : ℕ) (b c : Block) (bs : List (ℕ × Block))
    → p ≢ q
    → free q (with_top w p b ((q, c) ∷ bs)) ≡ done tt (with_top w p b bs)
unfolding free
free_second w p q b c bs ne = ground arith
