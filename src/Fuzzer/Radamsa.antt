-- ===== src/Fuzzer/Radamsa.antt =====
-- runRadamsa and runRadamsaExpanded: what they return, and the descriptors that they leave open.
use cezfuzzer.Base.{
  ℕ, suc, ◌+◌, ◌-◌, ◌≤◌, ◌<◌, ◌≡◌, refl, ap, inl, inr, ◌⊎◌, true, false, List, [], none, some,
  arith, length, Bool-cases, String, take, leb, ◌==◌, length-take, take_all,
}
use cezfuzzer.Fuzzer.Memory.{Block, World, malloc, fresh}
use cezfuzzer.Fuzzer.Access.{
  Reads, Reads-top, Reads-length, with_top, free_top, store_top, load_lem,
}
use cezfuzzer.Fuzzer.Core.{
  Env, Child, no_first_pipe, no_second_pipe, no_fork, read_error, wrote, stored, collect_output,
  after_start, run_radamsa, repeat_input, run_radamsa_expanded,
}
use cezfuzzer.Fuzzer.Fill.{tile, length-tile}
use cezfuzzer.Fuzzer.Normalize.{IsSane, normal, normal_range, normal_in_range, full, fill_new}
use cezfuzzer.Fuzzer.Yields.{
  Yields, null, buffer, Yields-bind, Yields-forget, Yields-weaken, normalize_and_free_lem,
  with_blocks, Refuses,
}

-- Some run of the child on `stdin` wrote bytes, and `xs` is their normal form.
pub record IsFuzz (e : Env) (args : List String) (stdin xs : List ℕ) : Type 0 where
  pub run : ℕ
  pub output : List ℕ
  pub written : e.child args run stdin ≡ wrote output
  pub some_bytes : 0 < length output
  pub normalized : xs ≡ normal e (take e.max_buffer_size output)

abbrev pub IsSilent : Child → Type 0
IsSilent (wrote output) = output ≡ []
IsSilent other = Unit {0}

-- The fuzz that a mode works with: from the child, or the input repeated.
abbrev pub IsExpanded : Env → List String → List ℕ → List ℕ → Type 0
IsExpanded e args stdin xs =
    IsFuzz e args stdin xs ⊎ (xs ≡ tile e.min_output_size e.min_output_size stdin)

module _ (e : Env) (sane : IsSane e) where
  -- From the test on what read() returned on, with the bytes in the buffer `p`.
  read_stored :
      (output : List ℕ) (w : World) (p : ℕ) (bs : List (ℕ × Block))
      → p < w.next
      → let got : List ℕ = take e.max_buffer_size output in
        Yields Unit p bs
          (stored e p got (with_top w p (record { cap = e.max_buffer_size; bytes = got }) bs))
          (λ xs. (0 < length output) × (xs ≡ normal e got))
  unfolding stored
  read_stored output w p bs h =
      let got : List ℕ = take e.max_buffer_size output in
      let b : Block = record { cap = e.max_buffer_size; bytes = got } in
      elim (Bool-cases (length got == 0)) [
        | inl empty ↦ rw (empty, free_top w p b bs) (null w tt (omega arith) refl)
        | inr more ↦
            let pos : 0 < length got = ground arith in
            rw more (
              Yields-weaken
                (Yields-forget (
                  normalize_and_free_lem e p p got bs w sane pos (omega arith) h b
                    (Reads-top p e.max_buffer_size got bs)))
                (λ ys q. (omega (arith, length-take e.max_buffer_size output), q)))
      ]

  read_output :
      (output : List ℕ) (w : World)
      → Yields Unit w.next w.blocks
          (collect_output e (some output) w)
          (λ xs. (0 < length output) × (xs ≡ normal e (take e.max_buffer_size output)))
  unfolding collect_output malloc
  read_output output w = elim (Bool-cases (e.alloc w.next e.max_buffer_size)) [
    | inr denied ↦
        rw denied (null (record w { next = suc w.next; fds = w.fds - 1 }) tt (omega arith) refl)
    | inl granted ↦
        let got : List ℕ = take e.max_buffer_size output in
        let w' : World = record w { next = suc w.next } in
        let fits : 0 + length got ≤ e.max_buffer_size =
          omega (arith, length-take e.max_buffer_size output) in
        rw (granted, store_top w' w.next e.max_buffer_size 0 [] got w.blocks refl fits)
          (read_stored output (record w' { fds = w'.fds - 1 }) w.next w.blocks (omega arith))
  ]

  read_failed :
      {P : List ℕ → Type 0} (w : World) → Yields Unit w.next w.blocks (collect_output e none w) P
  unfolding collect_output malloc
  read_failed w =
      let w' : World = record w { next = suc w.next; fds = w.fds - 1 } in
      elim (Bool-cases (e.alloc w.next e.max_buffer_size)) [
        | inr denied ↦ rw denied (null w' tt (omega arith) refl)
        | inl granted ↦
            rw (granted, free_top w' w.next (fresh e.max_buffer_size) w.blocks)
              (null w' tt (omega arith) refl)
      ]

  after_start-Yields :
      (args : List String) (stdin : List ℕ) (c : Child) (run : ℕ) (w : World)
      → e.child args run stdin ≡ c
      → Yields Unit w.next w.blocks (after_start e c w) (IsFuzz e args stdin)
  unfolding after_start
  after_start-Yields args stdin no_first_pipe run w eq = null w tt (omega arith) refl
  after_start-Yields args stdin no_second_pipe run w eq =
      null (record w { fds = w.fds + 2 }) tt (omega arith) refl
  after_start-Yields args stdin no_fork run w eq =
      null (record w { fds = w.fds + 4 }) tt (omega arith) refl
  after_start-Yields args stdin read_error run w eq = read_failed (record w { fds = w.fds + 4 - 3 })
  after_start-Yields args stdin (wrote output) run w eq =
      Yields-weaken (read_output output (record w { fds = w.fds + 4 - 3 })) λ xs h. record {
        run = run;
        output = output;
        written = eq;
        some_bytes = h.0;
        normalized = h.1;
      }

  -- Without a byte from the child there is no fuzz.
  pub after_start_silent :
      (c : Child) (w : World)
      → IsSilent c
      → Yields Unit w.next w.blocks (after_start e c w) (λ xs. ⊥)
  unfolding after_start
  after_start_silent no_first_pipe w s = null w tt (omega arith) refl
  after_start_silent no_second_pipe w s = null (record w { fds = w.fds + 2 }) tt (omega arith) refl
  after_start_silent no_fork w s = null (record w { fds = w.fds + 4 }) tt (omega arith) refl
  after_start_silent read_error w s = read_failed (record w { fds = w.fds + 4 - 3 })
  after_start_silent (wrote output) w s =
      Yields-weaken (read_output output (record w { fds = w.fds + 4 - 3 }))
        λ xs h. omega (arith, ap length s)

  -- A run of radamsa gives nothing, or the normal form of what the child wrote.
  pub run_radamsa-Yields :
      (args : List String) (input size : ℕ) (data_ : List ℕ) (w : World)
      → Reads input size data_ w.blocks
      → Yields Unit w.next w.blocks (run_radamsa e args input size w) (IsFuzz e args data_)
  unfolding run_radamsa
  run_radamsa-Yields args input size data_ w r =
      rw
        (
          load_lem input size size data_ w r (omega arith),
          take_all size data_ (omega (arith, Reads-length r)),
        )
        (after_start-Yields args data_ _ w.runs (record w { runs = suc w.runs }) refl)

  repeat_input-Yields :
      (n input size : ℕ) (data_ : List ℕ) (bs : List (ℕ × Block)) (w : World)
      → Reads input size data_ bs
      → n ≤ w.next
      → input < w.next
      → 0 < size
      → Yields
          (Refuses e)
          n
          bs
          (repeat_input e input size (with_blocks w bs))
          (λ xs. xs ≡ tile e.min_output_size e.min_output_size data_)
  unfolding repeat_input malloc
  repeat_input-Yields n input size data_ bs w r h k pos =
      let w' : World = record w { next = suc w.next } in
      let out : List ℕ = tile e.min_output_size e.min_output_size data_ in
      let same : length out ≡ e.min_output_size =
        length-tile e.min_output_size e.min_output_size data_ (omega (arith, Reads-length r))
          (omega arith) in
      elim (Bool-cases (e.alloc w.next e.min_output_size)) [
        | inr denied ↦ rw denied (null w' (_, _, denied) (omega arith) refl)
        | inl granted ↦
            rw
              (
                granted,
                fill_new e input size data_ (with_blocks w bs) r (omega arith) e.min_output_size
                    pos,
              )
              (buffer w' w.next out (omega arith) (omega arith) (ground (arith, same)) refl)
      ]

  pub IsFuzz-range :
      {args : List String} {stdin xs : List ℕ}
      → IsFuzz e args stdin xs
      → (e.min_output_size ≤ length xs) × (length xs ≤ e.max_buffer_size)
  IsFuzz-range f =
      let got : List ℕ = take e.max_buffer_size f.output in
      let pos : 0 < length got = omega (
        arith,
        f.some_bytes,
        sane.positive,
        sane.ordered,
        length-take e.max_buffer_size f.output,
      ) in
      rw f.normalized (normal_range e sane got pos)

  pub IsExpanded-range :
      {args : List String} {stdin xs : List ℕ}
      → 0 < length stdin
      → IsExpanded e args stdin xs
      → (e.min_output_size ≤ length xs) × (length xs ≤ e.max_buffer_size)
  IsExpanded-range pos (inl f) = IsFuzz-range f
  IsExpanded-range {stdin = stdin} pos (inr q) =
      rw q (omega (arith, length-tile e.min_output_size e.min_output_size stdin pos, sane.ordered))

  -- For an input of one byte or more in memory, and sane sizes, runRadamsaExpanded ends without
  -- undefined behaviour: in a null pointer, if there is a request that malloc refuses, or in one
  -- new block with the normal form of what a run of the child wrote or with the input repeated to
  -- the least size. It gives no first run that the input lengthens. The other blocks are as
  -- before.
  pub run_radamsa_expanded-Yields :
      (args : List String) (input size : ℕ) (stdin : List ℕ) (w : World)
      → Reads input size stdin w.blocks
      → input < w.next
      → 0 < size
      → Yields
          (Refuses e)
          w.next
          w.blocks
          (run_radamsa_expanded e args input size w)
          (IsExpanded e args stdin)
  unfolding run_radamsa_expanded
  run_radamsa_expanded-Yields args input size stdin w r below pos =
      Yields-bind _ (run_radamsa-Yields args input size stdin w r)
        (λ w' z h.
          Yields-weaken
            (repeat_input-Yields w.next input size stdin w.blocks w' r h (omega arith) pos)
            (λ xs q. inr q))
        (λ w' p xs h k f.
          let (lo, hi) = IsFuzz-range f in
          let not_empty : (length xs == 0) ≡ false = ground (arith, sane.positive) in
          let long : leb e.min_output_size (length xs) ≡ true = ground arith in
          rw (not_empty, long)
            (Yields-weaken
              (normalize_and_free_lem e w.next p xs w.blocks w' sane (omega (arith, sane.positive))
                h k (full xs) (Reads-top p (length xs) xs w.blocks))
              (λ ys q. inl (rw (q, normal_in_range e sane xs lo hi) f))))
