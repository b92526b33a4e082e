-- ===== src/Fuzzer/Posts.antt =====
-- postFuzzing and preFuzzing: the original message next to the fuzz.
use cezfuzzer.Base.{
  ℕ, suc, ◌+◌, ◌^◌, ◌≤◌, ◌<◌, ◌≡◌, refl, inl, inr, ◌⊎◌, List, [], ◌∷◌, ◌++◌, none, arith, length,
  Bool-cases, String, length-append,
}
use cezfuzzer.Fuzzer.Memory.{if_null, ◌>>=◌, ◌>>◌, pure, Block, World, M, malloc, memcpy, free}
use cezfuzzer.Fuzzer.Access.{
  Reads, Reads-top, Reads-below, with_top, free_top, free_second, memcpy_whole,
}
use cezfuzzer.Fuzzer.Core.{Env, add_size, copy_input, normalize_and_free}
use cezfuzzer.Fuzzer.Normalize.{IsSane, normal, full, copy_input_lem}
use cezfuzzer.Fuzzer.Yields.{
  Buffer, Yields, null, Yields-bind, Yields-weaken, Yields-give, normalize_and_free_lem,
  with_blocks, Refuses,
}
use cezfuzzer.Fuzzer.Radamsa.{IsExpanded, IsExpanded-range, run_radamsa_expanded-Yields}
use cezfuzzer.Fuzzer.Modes.{post_fuzzing, pre_fuzzing}

-- A message that the modes take: some bytes, and fewer than 2^63.
pub record IsMessage (p : ℕ) (msg : List ℕ) (w : World) : Type 0 where
  pub readable : Reads p (length msg) msg w.blocks
  pub older : p < w.next
  pub some_bytes : 0 < length msg
  pub short : length msg < 2 ^ 63

-- The message alone, if malloc refuses a request, or `join` of it and of some fuzz, in normal form.
abbrev pub IsJoined : Env → List String → (List ℕ → List ℕ → List ℕ) → List ℕ → List ℕ → Type 0
IsJoined e args join msg xs =
    (Refuses e × (xs ≡ msg))
    ⊎ ((fuzz : List ℕ) × IsExpanded e args msg fuzz × (xs ≡ normal e (join msg fuzz)))

pub add_size_lem : (a b : ℕ) → a + b < 2 ^ 64 → add_size a b ≡ a + b
add_size_lem a b h = omega arith

module _ (e : Env) (sane : IsSane e) where
  pub copy_input-Yields :
      (p : ℕ) (msg : List ℕ) (w w' : World)
      → IsMessage p msg w
      → w.next ≤ w'.next
      → Yields
          (Refuses e)
          w.next
          w.blocks
          (copy_input e p (length msg) (with_blocks w' w.blocks))
          (λ xs. xs ≡ msg)
  copy_input-Yields p msg w w' m h =
      rw
        (copy_input_lem e p (length msg) msg (with_blocks w' w.blocks) m.readable
          (omega (arith, m.older)))
        (Yields-give e w' msg h refl)

  joined_size :
      (xs ys : List ℕ)
      → length xs < 2 ^ 63
      → length ys < 2 ^ 63
      → add_size (length xs) (length ys) ≡ length (xs ++ ys)
  joined_size xs ys h k = omega (arith, length-append xs ys)

  -- The last part of both modes: the blocks `a` and `b` are copied one after the other into a new
  -- one, the fuzz at `f` is freed, and the new block is normalised.
  abbrev joined : ℕ → ℕ → ℕ → ℕ → ℕ → ℕ → M Buffer
  joined f a b na nb n = do
    combined ← malloc e.alloc n
    if_null combined (free f >> pure (none, 0))
        (λ c. do memcpy c 0 a na; memcpy c na b nb; free f; normalize_and_free e c n)

  joined-Yields :
      (n f a b : ℕ) (fz xs ys : List ℕ) (bs : List (ℕ × Block)) (w : World)
      → n ≤ f
      → f < w.next
      → Reads a (length xs) xs ((f, full fz) ∷ bs)
      → Reads b (length ys) ys ((f, full fz) ∷ bs)
      → a < w.next
      → b < w.next
      → 0 < length (xs ++ ys)
      → Yields
          (Refuses e)
          n
          bs
          (joined f a b (length xs) (length ys) (length (xs ++ ys)) (with_top w f (full fz) bs))
          (λ zs. zs ≡ normal e (xs ++ ys))
  unfolding malloc
  joined-Yields n f a b fz xs ys bs w h k ra rb la lb pos =
      let total : ℕ = length (xs ++ ys) in
      let w' : World = record w { next = suc w.next } in
      let below : List (ℕ × Block) = (f, full fz) ∷ bs in
      let sum : length (xs ++ ys) ≡ length xs + length ys = length-append xs ys in
      elim (Bool-cases (e.alloc w.next total)) [
        | inr denied ↦
            rw (denied, free_top w' f (full fz) bs) (null w' (_, _, denied) (omega arith) refl)
        | inl granted ↦
            let first : 0 + length xs ≤ total = omega arith in
            let second : length xs + length ys ≤ total = omega arith in
            rw
              (
                granted,
                memcpy_whole w' w.next total 0 a [] xs below ra (omega arith) refl first,
                memcpy_whole w' w.next total (length xs) b xs ys below rb (omega arith) refl second,
                free_second w' w.next f (record { cap = total; bytes = xs ++ ys }) (full fz) bs
                    (omega arith),
              )
              (normalize_and_free_lem e n w.next (xs ++ ys) bs w' sane pos (omega arith)
                (omega arith) (full (xs ++ ys)) (Reads-top w.next total (xs ++ ys) bs))
      ]

  -- For a message of one byte or more in memory, and sane sizes, postFuzzing ends without
  -- undefined behaviour: in a null pointer, if there is a request that malloc refuses, or in one
  -- new block that holds the normal form of the message with a fuzz behind it, or, again if malloc
  -- refuses a request, the message alone. The other blocks are as before.
  pub post_fuzzing-Yields :
      (args : List String) (p : ℕ) (msg : List ℕ) (w : World)
      → IsMessage p msg w
      → Yields
          (Refuses e)
          w.next
          w.blocks
          (post_fuzzing e args p (length msg) w)
          (IsJoined e args (λ m f. m ++ f) msg)
  unfolding post_fuzzing
  post_fuzzing-Yields args p msg w m =
      Yields-bind _
        (run_radamsa_expanded-Yields e sane args p (length msg) msg w m.readable m.older
          m.some_bytes)
        (λ w' z h. Yields-weaken (copy_input-Yields p msg w w' m h) (λ xs q. inl (z, q)))
        (λ w' f fz h k q.
          let (lo, hi) = IsExpanded-range e sane m.some_bytes q in
          rw (joined_size msg fz m.short (omega (arith, sane.small))) (
            Yields-weaken
              (joined-Yields w.next f p f fz msg fz w.blocks w' h k
                (Reads-below p f (length msg) msg (full fz) w.blocks (omega (arith, m.older))
                  m.readable)
                (Reads-top f (length fz) fz w.blocks) (omega (arith, m.older)) k
                (omega (arith, m.some_bytes, length-append msg fz)))
              (λ xs r. inr (fz, q, r))))

  -- For a message of one byte or more in memory, and sane sizes, preFuzzing ends without undefined
  -- behaviour: in a null pointer, or in one new block that holds either the message alone or the
  -- normal form of the message with a fuzz in front of it. The other blocks are as before.
  pub pre_fuzzing-Yields :
      (args : List String) (p : ℕ) (msg : List ℕ) (w : World)
      → IsMessage p msg w
      → Yields
          (Refuses e)
          w.next
          w.blocks
          (pre_fuzzing e args p (length msg) w)
          (IsJoined e args (λ m f. f ++ m) msg)
  unfolding pre_fuzzing
  pre_fuzzing-Yields args p msg w m =
      Yields-bind _
        (run_radamsa_expanded-Yields e sane args p (length msg) msg w m.readable m.older
          m.some_bytes)
        (λ w' z h. Yields-weaken (copy_input-Yields p msg w w' m h) (λ xs q. inl (z, q)))
        (λ w' f fz h k q.
          let (lo, hi) = IsExpanded-range e sane m.some_bytes q in
          rw (joined_size fz msg (omega (arith, sane.small)) m.short) (
            Yields-weaken
              (joined-Yields w.next f f p fz fz msg w.blocks w' h k
                (Reads-top f (length fz) fz w.blocks)
                (Reads-below p f (length msg) msg (full fz) w.blocks (omega (arith, m.older))
                  m.readable)
                k (omega (arith, m.older)) (omega (arith, m.some_bytes, length-append fz msg)))
              (λ xs r. inr (fz, q, r))))
