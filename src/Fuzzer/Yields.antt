-- ===== src/Fuzzer/Yields.antt =====
-- The contract that the functions of FuzzerCore share: a call ends, with no undefined behaviour, in
-- a null pointer or in exactly one new block, and the other blocks are as they were.
use cezfuzzer.Base.{
  ℕ, suc, ◌≤◌, ◌<◌, ◌≡◌, refl, inl, inr, List, ◌∷◌, Option, none, some, true, false, arith, length,
  Bool-cases,
}
use cezfuzzer.Fuzzer.Memory.{Block, World, Outcome, done, M, bind_outcome}
use cezfuzzer.Fuzzer.Access.{Reads, with_top, free_top, free_second}
use cezfuzzer.Fuzzer.Core.{Env, normalize_and_free}
use cezfuzzer.Fuzzer.Normalize.{IsSane, normal, full, give, normalize_output_size_lem}

abbrev pub Buffer : Type 0
Buffer = Option ℕ × ℕ

abbrev pub with_blocks : World → List (ℕ × Block) → World
with_blocks w bs = record w { blocks = bs }

-- There is a request that malloc refuses.
abbrev pub Refuses : Env → Type 0
Refuses e = (k : ℕ) × (size : ℕ) × (e.alloc k size ≡ false)

-- malloc refuses nothing.
abbrev pub Grants : Env → Type 0
Grants e = (k size : ℕ) → e.alloc k size ≡ true

-- `r` is a call's outcome in a world where the live blocks are `bs` and the next address is `n`;
-- `N` is the reason for a null pointer.
pub data Yields (N : Type 0) (n : ℕ) (bs : List (ℕ × Block)) (r : Outcome Buffer)
    (P : List ℕ → Type 0) : Type 0 where
  null : (w : World) → N → n ≤ w.next → r ≡ done (none, 0) (with_blocks w bs) → Yields N n bs r P
  buffer :
      (w : World) (p : ℕ) (xs : List ℕ)
      → n ≤ p
      → p < w.next
      → r ≡ done (some p, length xs) (with_top w p (full xs) bs)
      → P xs
      → Yields N n bs r P

module _ {n : ℕ} {bs : List (ℕ × Block)} {P : List ℕ → Type 0} where
  pub Yields-weaken :
      {N : Type 0} {Q : List ℕ → Type 0} {r : Outcome Buffer}
      → Yields N n bs r P
      → ((xs : List ℕ) → P xs → Q xs)
      → Yields N n bs r Q
  Yields-weaken (null w z h e) f = null w z h e
  Yields-weaken (buffer w p xs h k e q) f = buffer w p xs h k e (f xs q)

  -- Whatever the reason for a null pointer.
  pub Yields-forget : {N : Type 0} {r : Outcome Buffer} → Yields N n bs r P → Yields Unit n bs r P
  Yields-forget (null w z h e) = null w tt h e
  Yields-forget (buffer w p xs h k e q) = buffer w p xs h k e q

  -- Two calls in a row.
  pub Yields-bind :
      {N K : Type 0} {Q : List ℕ → Type 0} {r : Outcome Buffer} (k : Buffer → M Buffer)
      → Yields N n bs r P
      → ((w : World) → N → n ≤ w.next → Yields K n bs (k (none, 0) (with_blocks w bs)) Q)
      → ((w : World) (p : ℕ) (xs : List ℕ)
          → n ≤ p
          → p < w.next
          → P xs
          → Yields K n bs (k (some p, length xs) (with_top w p (full xs) bs)) Q)
      → Yields K n bs (bind_outcome r k) Q
  Yields-bind k (null w z h e) f g = rw e (f w z h)
  Yields-bind k (buffer w p xs h l e q) f g = rw e (g w p xs h l q)

  pub Yields-give :
      (e : Env) (w : World) (xs : List ℕ)
      → n ≤ w.next
      → P xs
      → Yields (Refuses e) n bs (give e xs (with_blocks w bs)) P
  Yields-give e w xs h q = elim (Bool-cases (e.alloc w.next (length xs))) [
    | inl granted ↦
        rw granted (buffer (record w { next = suc w.next }) w.next xs h (omega arith) refl q)
    | inr denied ↦
        rw denied (null (record w { next = suc w.next }) (_, _, denied) (omega arith) refl)
  ]

-- A buffer at the top is normalised into a new one, and freed.
pub normalize_and_free_lem :
    (e : Env) (n c : ℕ) (xs : List ℕ) (bs : List (ℕ × Block)) (w : World)
    → IsSane e
    → 0 < length xs
    → n ≤ c
    → c < w.next
    → (b : Block) → Reads c (length xs) xs ((c, b) ∷ bs)
    → Yields
        (Refuses e)
        n
        bs
        (normalize_and_free e c (length xs) (with_top w c b bs))
        (λ ys. ys ≡ normal e xs)
unfolding normalize_and_free
normalize_and_free_lem e n c xs bs w sane pos h k b r =
    let ys : List ℕ = normal e xs in
    let w' : World = record w { next = suc w.next } in
    rw (normalize_output_size_lem e c (length xs) xs (with_top w c b bs) r (omega arith) sane pos)
      (elim (Bool-cases (e.alloc w.next (length ys))) [
        | inl granted ↦
            rw (granted, free_second w' w.next c (full ys) b bs (omega arith))
              (buffer w' w.next ys (omega arith) (omega arith) refl refl)
        | inr denied ↦ rw (denied, free_top w' c b bs) (null w' (_, _, denied) (omega arith) refl)
      ])
