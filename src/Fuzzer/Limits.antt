-- ===== src/Fuzzer/Limits.antt =====
-- Where FuzzerCore goes wrong: the empty message, and the descriptors of a child that never started.
use cezfuzzer.Base.{
  ℕ, suc, ◌+◌, ◌-◌, ◌≤◌, ◌<◌, ◌≡◌, refl, inl, inr, true, List, [], ◌∷◌, Option, none, some, arith,
  length, Bool-cases, String, take, length-take, take_all, ◌==◌,
}
use cezfuzzer.Fuzzer.Memory.{Block, World, Outcome, done, hang, malloc, fresh}
use cezfuzzer.Fuzzer.Access.{
  Reads, Reads-length, Reads-top, with_top, free_top, free_second, store_top, load_lem,
}
use cezfuzzer.Fuzzer.Core.{
  Env, Child, no_first_pipe, no_second_pipe, no_fork, read_error, wrote, after_start,
  collect_output, stored, run_radamsa, repeat_input, run_radamsa_expanded, normalize_and_free,
}
use cezfuzzer.Fuzzer.Fill.{fill_hangs}
use cezfuzzer.Fuzzer.Normalize.{IsSane, normal, full, normalize_output_size_lem}
use cezfuzzer.Fuzzer.Yields.{Buffer, Yields, null, buffer, with_blocks}
use cezfuzzer.Fuzzer.Radamsa.{IsSilent, after_start_silent}
use cezfuzzer.Fuzzer.Modes.{post_fuzzing}

Yields-none :
    {n : ℕ} {bs : List (ℕ × Block)} {r : Outcome Buffer}
    → Yields Unit n bs r (λ xs. ⊥)
    → (w : World) × (n ≤ w.next) × (r ≡ done (none, 0) (with_blocks w bs))
Yields-none (null w z h e) = (w, h, e)
Yields-none (buffer w p xs h k e q) = absurd q

module _ (e : Env) (sane : IsSane e) where
  repeat_input_hangs :
      (p : ℕ) (w : World)
      → Reads p 0 [] w.blocks
      → p < w.next
      → e.alloc w.next e.min_output_size ≡ true
      → repeat_input e p 0 w ≡ hang
  unfolding repeat_input malloc
  repeat_input_hangs p w r h granted = rw (
    granted,
    fill_hangs e.min_output_size w.next 0 p e.min_output_size [] [] w.blocks
        (record w { next = suc w.next }) r (omega arith) refl sane.positive,
  )

  -- On an empty message in memory, with sane sizes, postFuzzing does not end if malloc grants the
  -- least size and the child's run gives no bytes.
  pub post_fuzzing_empty_hangs :
      (args : List String) (p : ℕ) (w : World)
      → Reads p 0 [] w.blocks
      → p < w.next
      → ((k : ℕ) → e.alloc k e.min_output_size ≡ true)
      → IsSilent (e.child args w.runs [])
      → post_fuzzing e args p 0 w ≡ hang
  unfolding post_fuzzing run_radamsa_expanded run_radamsa
  post_fuzzing_empty_hangs args p w r below grants silent =
      let started : World = record w { runs = suc w.runs } in
      let (w', h, eq) =
        Yields-none (after_start_silent e sane (e.child args w.runs []) started silent) in
      rw (
        load_lem p 0 0 [] w r (omega arith),
        eq,
        repeat_input_hangs p (with_blocks w' w.blocks) r (omega arith) (grants w'.next),
      )

-- How many descriptors a run leaves open.
abbrev pub left_open : Child → ℕ
left_open no_second_pipe = 2
left_open no_fork = 4
left_open other = 0

-- The call ends with this many descriptors open.
abbrev pub EndsWith : ℕ → Outcome Buffer → Type 0
EndsWith n r = (b : Buffer) × (w : World) × (r ≡ done b w) × (w.fds ≡ n)

module _ (e : Env) (sane : IsSane e) where
  normalize_and_free_fds :
      (c : ℕ) (xs : List ℕ) (bs : List (ℕ × Block)) (w : World) (b : Block)
      → 0 < length xs
      → c < w.next
      → Reads c (length xs) xs ((c, b) ∷ bs)
      → EndsWith w.fds (normalize_and_free e c (length xs) (with_top w c b bs))
  unfolding normalize_and_free
  normalize_and_free_fds c xs bs w b pos h r =
      let ys : List ℕ = normal e xs in
      let w' : World = record w { next = suc w.next } in
      rw (normalize_output_size_lem e c (length xs) xs (with_top w c b bs) r (omega arith) sane pos)
        (elim (Bool-cases (e.alloc w.next (length ys))) [
          | inl granted ↦
              rw (granted, free_second w' w.next c (full ys) b bs (omega arith)) (_, _, refl, refl)
          | inr denied ↦ rw (denied, free_top w' c b bs) (_, _, refl, refl)
        ])

  read_stored_fds :
      (output : List ℕ) (w : World) (p : ℕ) (bs : List (ℕ × Block))
      → p < w.next
      → let got : List ℕ = take e.max_buffer_size output in
        EndsWith w.fds
          (stored e p got (with_top w p (record { cap = e.max_buffer_size; bytes = got }) bs))
  unfolding stored
  read_stored_fds output w p bs h =
      let got : List ℕ = take e.max_buffer_size output in
      let b : Block = record { cap = e.max_buffer_size; bytes = got } in
      elim (Bool-cases (length got == 0)) [
        | inl empty ↦ rw (empty, free_top w p b bs) (_, _, refl, refl)
        | inr more ↦ rw more (
            normalize_and_free_fds p got bs w b (ground arith) h
              (Reads-top p e.max_buffer_size got bs))
      ]

  collect_output_fds :
      (output : Option (List ℕ)) (w : World) → EndsWith (w.fds - 1) (collect_output e output w)
  unfolding collect_output malloc
  collect_output_fds none w =
      let w' : World = record w { next = suc w.next; fds = w.fds - 1 } in
      elim (Bool-cases (e.alloc w.next e.max_buffer_size)) [
        | inr denied ↦ rw denied (_, _, refl, refl)
        | inl granted ↦
            rw (granted, free_top w' w.next (fresh e.max_buffer_size) w.blocks) (_, _, refl, refl)
      ]
  collect_output_fds (some output) w =
      let w' : World = record w { next = suc w.next } in
      let got : List ℕ = take e.max_buffer_size output in
      let fits : 0 + length got ≤ e.max_buffer_size =
        omega (arith, length-take e.max_buffer_size output) in
      elim (Bool-cases (e.alloc w.next e.max_buffer_size)) [
        | inr denied ↦ rw denied (_, _, refl, refl)
        | inl granted ↦
            rw (granted, store_top w' w.next e.max_buffer_size 0 [] got w.blocks refl fits)
              (read_stored_fds output (record w' { fds = w'.fds - 1 }) w.next w.blocks
                (omega arith))
      ]

  after_start_fds : (c : Child) (w : World) → EndsWith (w.fds + left_open c) (after_start e c w)
  unfolding after_start
  after_start_fds no_first_pipe w = (_, _, refl, omega arith)
  after_start_fds no_second_pipe w = (_, _, refl, refl)
  after_start_fds no_fork w = (_, _, refl, refl)
  after_start_fds read_error w =
      let (b, w', eq, h) = collect_output_fds none (record w { fds = w.fds + 4 - 3 }) in
      (b, w', eq, omega arith)
  after_start_fds (wrote output) w =
      let (b, w', eq, h) = collect_output_fds (some output) (record w { fds = w.fds + 4 - 3 }) in
      (b, w', eq, omega arith)

  -- For sane sizes, runRadamsa on an input in memory ends with as many descriptors open as before,
  -- and 2 more if its second pipe() failed, 4 more if its fork() failed.
  pub run_radamsa_fds :
      (args : List String) (input size : ℕ) (stdin : List ℕ) (w : World)
      → Reads input size stdin w.blocks
      → EndsWith (w.fds + left_open (e.child args w.runs stdin)) (run_radamsa e args input size w)
  unfolding run_radamsa
  run_radamsa_fds args input size stdin w r =
      rw
        (
          load_lem input size size stdin w r (omega arith),
          take_all size stdin (omega (arith, Reads-length r)),
        )
        (after_start_fds (e.child args w.runs stdin) (record w { runs = suc w.runs }))
