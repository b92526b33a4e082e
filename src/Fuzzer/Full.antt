-- ===== src/Fuzzer/Full.antt =====
-- fullFuzzing: the original message between two fuzzes.
use cezfuzzer.Base.{
  ℕ, suc, ◌+◌, ◌^◌, ◌≤◌, ◌<◌, ◌≡◌, refl, inl, inr, ◌⊎◌, List, [], ◌∷◌, ◌++◌, Option, none, some,
  arith, length, Bool-cases, String, length-append,
}
use cezfuzzer.Fuzzer.Memory.{
  if_null, ◌>>=◌, ◌>>◌, pure, bind_outcome, Block, World, Outcome, M, malloc, memcpy, free_ptr,
}
use cezfuzzer.Fuzzer.Access.{Reads, Reads-top, Reads-below, with_top, memcpy_whole}
use cezfuzzer.Fuzzer.Core.{Env, add_size, normalize_and_free}
use cezfuzzer.Fuzzer.Normalize.{IsSane, normal, full}
use cezfuzzer.Fuzzer.Yields.{
  Buffer, Yields, null, buffer, Yields-weaken, normalize_and_free_lem, with_blocks, Refuses,
}
use cezfuzzer.Fuzzer.Radamsa.{IsExpanded, IsExpanded-range, run_radamsa_expanded-Yields}
use cezfuzzer.Fuzzer.Core.{run_radamsa_expanded}
use cezfuzzer.Fuzzer.Posts.{IsMessage, copy_input-Yields}
use cezfuzzer.Fuzzer.Modes.{copy_fuzz, size_of_fuzz, join_fuzz, full_fuzzing}
use cezfuzzer.Fuzzer.Parts.{
  on_top, bytes_of, IsOlder, Differs, Readable, copy_fuzz_lem, free_first, free_next, drop_first,
  drop_next,
}

-- The first fuzz, if there was memory for it, the message, and the second fuzz.
abbrev pub whole : Option ℕ → Option ℕ → List ℕ → List ℕ → List ℕ → List ℕ
whole o q xs msg ys = (bytes_of o xs ++ msg) ++ bytes_of q ys

module _ (e : Env) (sane : IsSane e) where
  -- join_fuzz where it does not copy the message alone.
  abbrev joined : ℕ → ℕ → Option ℕ → ℕ → Option ℕ → ℕ → M Buffer
  joined input size fuzz1 n1 fuzz2 n2 =
      let fuzz1_size = size_of_fuzz e fuzz1 n1 in
      let fuzz2_size = size_of_fuzz e fuzz2 n2 in
      let combined_len = add_size (add_size fuzz1_size size) fuzz2_size in
      do
        combined ← malloc e.alloc combined_len
        if_null combined (free_ptr fuzz1 >> (free_ptr fuzz2 >> pure (none, 0))) (λ c. do
          copy_fuzz e c 0 fuzz1 fuzz1_size
          memcpy c fuzz1_size input size
          copy_fuzz e c (fuzz1_size + size) fuzz2 fuzz2_size
          free_ptr fuzz1
          free_ptr fuzz2
          normalize_and_free e c combined_len)

  size_of_fuzz_lem :
      (o : Option ℕ) (xs : List ℕ) → size_of_fuzz e o (length xs) ≡ length (bytes_of o xs)
  size_of_fuzz_lem none xs = refl
  size_of_fuzz_lem (some p) xs = refl

  whole_size :
      (o q : Option ℕ) (xs msg ys : List ℕ)
      → length (bytes_of o xs) + length msg + length (bytes_of q ys) < 2 ^ 64
      → add_size (add_size (length (bytes_of o xs)) (length msg)) (length (bytes_of q ys))
        ≡ length (whole o q xs msg ys)
  whole_size o q xs msg ys h = omega (
    arith,
    length-append (bytes_of o xs ++ msg) (bytes_of q ys),
    length-append (bytes_of o xs) msg,
  )

  joined-Yields :
      (n p : ℕ) (o q : Option ℕ) (xs msg ys : List ℕ) (bs : List (ℕ × Block)) (w : World)
      → n ≤ w.next
      → Reads p (length msg) msg (on_top q ys (on_top o xs bs))
      → p < w.next
      → 0 < length msg
      → IsOlder o xs w.next
      → IsOlder q ys w.next
      → Differs o q
      → Readable o xs (on_top q ys (on_top o xs bs))
      → Readable q ys (on_top q ys (on_top o xs bs))
      → length (bytes_of o xs) + length msg + length (bytes_of q ys) < 2 ^ 64
      → Yields
          (Refuses e)
          n
          bs
          (joined p
            (length msg)
            o
            (length xs)
            q
            (length ys)
            (with_blocks w (on_top q ys (on_top o xs bs))))
          (λ zs. zs ≡ normal e (whole o q xs msg ys))
  unfolding malloc
  joined-Yields n p o q xs msg ys bs w h r older pos oo qo d ro rq small =
      let total : ℕ = length (whole o q xs msg ys) in
      let w' : World = record w { next = suc w.next } in
      let below : List (ℕ × Block) = on_top q ys (on_top o xs bs) in
      let front : length (bytes_of o xs) + length msg ≡ length (bytes_of o xs ++ msg) =
        omega (arith, length-append (bytes_of o xs) msg) in
      let sizes : length (bytes_of o xs) + length msg + length (bytes_of q ys) ≡ total =
        omega (arith, front, length-append (bytes_of o xs ++ msg) (bytes_of q ys)) in
      rw (size_of_fuzz_lem o xs, size_of_fuzz_lem q ys, whole_size o q xs msg ys small)
        (elim (Bool-cases (e.alloc w.next total)) [
          | inr denied ↦
              rw (denied, drop_first w' o q xs ys bs d, drop_next w' q ys bs)
                (null w' (_, _, denied) (omega arith) refl)
          | inl granted ↦
              rw
                (
                  granted,
                  copy_fuzz_lem e w' w.next total 0 o [] xs below oo ro refl (omega (arith, sizes)),
                  memcpy_whole w' w.next total (length (bytes_of o xs)) p (bytes_of o xs) msg below
                      r (omega arith) refl (omega (arith, sizes)),
                  copy_fuzz_lem e w' w.next total (length (bytes_of o xs) + length msg) q
                      (bytes_of o xs ++ msg) ys below qo rq front (omega (arith, sizes)),
                  free_first w' w.next (record { cap = total; bytes = whole o q xs msg ys }) o q xs
                      ys bs oo d,
                  free_next w' w.next (record { cap = total; bytes = whole o q xs msg ys }) q ys bs
                      qo,
                )
                (normalize_and_free_lem e n w.next (whole o q xs msg ys) bs w' sane
                  (omega (arith, sizes)) h (omega arith) (full (whole o q xs msg ys))
                  (Reads-top w.next total (whole o q xs msg ys) bs))
        ])

-- What follows a call that yields, whatever it is about.
Yields-case :
    {N : Type 0} {n : ℕ} {bs : List (ℕ × Block)} {P : List ℕ → Type 0} {r : Outcome Buffer}
    (G : Outcome Buffer → Type 0) (k : Buffer → M Buffer)
    → Yields N n bs r P
    → ((w : World) → n ≤ w.next → G (k (none, 0) (with_blocks w bs)))
    → ((w : World) (p : ℕ) (xs : List ℕ)
        → n ≤ p
        → p < w.next
        → P xs
        → G (k (some p, length xs) (with_top w p (full xs) bs)))
    → G (bind_outcome r k)
Yields-case G k (null w z h e) f g = rw e (f w h)
Yields-case G k (buffer w p xs h l e q) f g = rw e (g w p xs h l q)

-- A fuzz, or nothing where there was no memory for one.
abbrev pub IsPart : Env → List String → List ℕ → List ℕ → Type 0
IsPart e args msg xs = (xs ≡ []) ⊎ IsExpanded e args msg xs

-- The message alone, or the normal form of the message between two such parts.
abbrev pub IsSurrounded : Env → List String → List ℕ → List ℕ → Type 0
IsSurrounded e args msg zs =
    (zs ≡ msg)
    ⊎ ((before : List ℕ) × (after : List ℕ) × IsPart e args msg before
        × IsPart e args msg after
        × (zs ≡ normal e ((before ++ msg) ++ after)))

module _ (e : Env) (sane : IsSane e) (args : List String) (p : ℕ) (msg : List ℕ) where
  abbrev Goal : World → Outcome Buffer → Type 0
  Goal w r = Yields (Refuses e) w.next w.blocks r (IsSurrounded e args msg)

  sizes :
      (x : List ℕ) → 0 < length msg → IsExpanded e args msg x → (0 < length x) × (length x < 2 ^ 62)
  sizes x pos q =
      let (lo, hi) = IsExpanded-range e sane pos q in
      (omega (arith, sane.positive), omega (arith, sane.small))

  -- The part of fullFuzzing after the first run, which gave no buffer.
  after_null :
      (w w1 : World)
      → IsMessage p msg w
      → w.next ≤ w1.next
      → Goal w (
          bind_outcome
            (run_radamsa_expanded e args p (length msg) (with_blocks w1 w.blocks))
            (λ other. join_fuzz e p (length msg) (none, 0) other))
  unfolding join_fuzz
  after_null w w1 m h =
      Yields-case (Goal w) _
        (run_radamsa_expanded-Yields e sane args p (length msg) msg (with_blocks w1 w.blocks)
          m.readable (omega (arith, m.older)) m.some_bytes)
        (λ w2 k.
          Yields-weaken (copy_input-Yields e sane p msg w w2 m (omega arith)) (λ xs r. inl r))
        (λ w2 g y k l r.
          let (some_bytes, short) = sizes y m.some_bytes r in
          Yields-weaken
            (joined-Yields e sane w.next p none (some g) [] msg y w.blocks w2 (omega arith)
              (Reads-below p g (length msg) msg (full y) w.blocks (omega (arith, m.older))
                m.readable)
              (omega (arith, m.older)) m.some_bytes tt (l, some_bytes) tt tt
              (Reads-top g (length y) y w.blocks) (omega (arith, m.short)))
            (λ zs z. inr ([], y, inl refl, inr r, z)))

  -- The same after a first run that gave the buffer `f`.
  after_buffer :
      (w w1 : World) (f : ℕ) (x : List ℕ)
      → IsMessage p msg w
      → w.next ≤ f
      → f < w1.next
      → IsExpanded e args msg x
      → Goal w (
          bind_outcome
            (run_radamsa_expanded e args p (length msg) (with_top w1 f (full x) w.blocks))
            (λ other. join_fuzz e p (length msg) (some f, length x) other))
  unfolding join_fuzz
  after_buffer w w1 f x m h l q =
      let (some_first, short_first) = sizes x m.some_bytes q in
      let bs : List (ℕ × Block) = (f, full x) ∷ w.blocks in
      let msg_read : Reads p (length msg) msg bs =
        Reads-below p f (length msg) msg (full x) w.blocks (omega (arith, m.older)) m.readable in
      Yields-case (Goal w) _
        (run_radamsa_expanded-Yields e sane args p (length msg) msg (with_blocks w1 bs) msg_read
          (omega (arith, m.older)) m.some_bytes)
        (λ w2 k.
          Yields-weaken
            (joined-Yields e sane w.next p (some f) none x msg [] w.blocks w2 (omega arith) msg_read
              (omega (arith, m.older)) m.some_bytes (omega arith, some_first) tt tt
              (Reads-top f (length x) x w.blocks) tt (omega (arith, m.short)))
            (λ zs z. inr (x, [], inr q, inl refl, z)))
        (λ w2 g y k l' r.
          let (some_bytes, short) = sizes y m.some_bytes r in
          Yields-weaken
            (joined-Yields e sane w.next p (some f) (some g) x msg y w.blocks w2 (omega arith)
              (Reads-below p g (length msg) msg (full y) bs (omega (arith, m.older)) msg_read)
              (omega (arith, m.older)) m.some_bytes (omega arith, some_first) (l', some_bytes)
              (omega arith)
              (Reads-below f g (length x) x (full y) bs (omega arith)
                (Reads-top f (length x) x w.blocks))
              (Reads-top g (length y) y bs) (omega (arith, m.short)))
            (λ zs z. inr (x, y, inr q, inr r, z)))

  -- For a message of one byte or more in memory, and sane sizes, fullFuzzing ends without
  -- undefined behaviour: in a null pointer, or in one new block that holds either the message
  -- alone or the normal form of the message between two parts, each a fuzz or empty. The other
  -- blocks are as before.
  pub full_fuzzing-Yields :
      (w : World)
      → IsMessage p msg w
      → Yields
          (Refuses e)
          w.next
          w.blocks
          (full_fuzzing e args p (length msg) w)
          (IsSurrounded e args msg)
  unfolding full_fuzzing
  full_fuzzing-Yields w m =
      Yields-case (Goal w) _
        (run_radamsa_expanded-Yields e sane args p (length msg) msg w m.readable m.older
          m.some_bytes)
        (λ w1 h. after_null w w1 m h) (λ w1 f x h k q. after_buffer w w1 f x m h k q)
