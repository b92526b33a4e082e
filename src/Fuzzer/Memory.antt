-- ===== src/Fuzzer/Memory.antt =====
-- The memory that FuzzerCore's functions work on: malloc, free, memcpy and memset of the C library,
-- with undefined behaviour as a fault, and the outcomes that the environment chooses.
use cezfuzzer.Base.{
  ℕ, suc, ◌+◌, Bool, true, false, List, [], ◌∷◌, ◌++◌, Option, none, some, leb, ◌==◌, if◌then◌else◌,
  length, take, drop,
}

-- A block of `cap` bytes, of which a prefix has been written.
pub record Block : Type 0 where
  pub cap : ℕ
  pub bytes : List ℕ

-- The live blocks, newest first. An address is the number of the call of malloc that gave it.
-- `runs` counts the child processes started, `fds` the open file descriptors.
pub record World : Type 0 where
  pub next : ℕ
  pub blocks : List (ℕ × Block)
  pub runs : ℕ
  pub fds : ℕ

-- `fault` is undefined behaviour: an access outside a block or of bytes that were never written, a
-- free of what is not live. `hang` is a loop that has used up its fuel.
pub data Outcome {ℓ} (A : Type ℓ) : Type ℓ where
  done : A → World → Outcome A
  fault : Outcome A
  hang : Outcome A

abbrev pub M {ℓ} : Type ℓ → Type ℓ
M A = World → Outcome A

abbrev pub pure {ℓ} : {A : Type ℓ} → A → M A
pure a w = done a w

abbrev pub bind_outcome {ℓ κ} : {A : Type ℓ} {B : Type κ} → Outcome A → (A → M B) → Outcome B
bind_outcome (done a w) f = f a w
bind_outcome fault f = fault
bind_outcome hang f = hang

infixl 5 ◌>>=◌ ◌>>◌
abbrev pub ◌>>=◌ {ℓ κ} : {A : Type ℓ} {B : Type κ} → M A → (A → M B) → M B
◌>>=◌ m f w = bind_outcome (m w) f

abbrev pub ◌>>◌ {ℓ} : {B : Type ℓ} → M (Unit {0}) → M B → M B
◌>>◌ m k w = bind_outcome (m w) (λ _. k)

-- A test `if (!p)`.
abbrev pub if_null {ℓ} : {A : Type ℓ} → Option ℕ → M A → (ℕ → M A) → M A
if_null none a f = a
if_null (some p) a f = f p

abbrev pub find : ℕ → List (ℕ × Block) → Option Block
find p [] = none
find p ((q, b) ∷ bs) = if q == p then some b else find p bs

abbrev pub replace : ℕ → Block → List (ℕ × Block) → List (ℕ × Block)
replace p c [] = []
replace p c ((q, b) ∷ bs) = if q == p then (q, c) ∷ bs else (q, b) ∷ replace p c bs

abbrev pub remove : ℕ → List (ℕ × Block) → List (ℕ × Block)
remove p [] = []
remove p ((q, b) ∷ bs) = if q == p then bs else (q, b) ∷ remove p bs

abbrev pub is_live : ℕ → List (ℕ × Block) → Bool
is_live p [] = false
is_live p ((q, b) ∷ bs) = if q == p then true else is_live p bs

-- An access to an object of its own block.
abbrev pub access : ℕ → M (Unit {0})
access p w = if is_live p w.blocks then done tt w else fault

-- The world after a call of malloc that was granted.
abbrev pub push : World → Block → World
push w b = record w { next = suc w.next; blocks = (w.next, b) ∷ w.blocks }

abbrev pub fresh : ℕ → Block
fresh n = record { cap = n; bytes = [] }

-- `alloc` says which calls of malloc are granted.
unfoldable pub malloc : (ℕ → ℕ → Bool) → ℕ → M (Option ℕ)
malloc alloc n w =
    if alloc w.next n
    then done (some w.next) (push w (fresh n))
    else done none (record w { next = suc w.next })

abbrev free_found : World → ℕ → Option Block → Outcome (Unit {0})
free_found w p none = fault
free_found w p (some b) = done tt (record w { blocks = remove p w.blocks })

unfoldable pub free : ℕ → M (Unit {0})
free p w = free_found w p (find p w.blocks)

-- free(NULL) does nothing.
abbrev pub free_ptr : Option ℕ → M (Unit {0})
free_ptr none = pure tt
free_ptr (some p) = free p

abbrev load_found : World → ℕ → Option Block → Outcome (List ℕ)
load_found w n none = fault
load_found w n (some b) = if leb n (length b.bytes) then done (take n b.bytes) w else fault

-- The first `n` bytes of a block.
unfoldable pub load : ℕ → ℕ → M (List ℕ)
load p n w = load_found w n (find p w.blocks)

abbrev store_found : World → ℕ → ℕ → List ℕ → Option Block → Outcome (Unit {0})
store_found w p off xs none = fault
store_found w p off xs (some b) =
    if leb off (length b.bytes)
    then if leb (off + length xs) b.cap
      then done tt (record w {
        blocks =
            replace p
              (record b { bytes = take off b.bytes ++ (xs ++ drop (off + length xs) b.bytes) })
              w.blocks;
      })
      else fault
    else fault

-- A write at `p + off`: inside the block, and next to what has been written before.
unfoldable pub store : ℕ → ℕ → List ℕ → M (Unit {0})
store p off xs w = store_found w p off xs (find p w.blocks)

-- memcpy(dst + off, src, n)
unfoldable pub memcpy : ℕ → ℕ → ℕ → ℕ → M (Unit {0})
unfolding load store
memcpy dst off src n = do xs ← load src n; store dst off xs
