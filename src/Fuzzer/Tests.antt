-- ===== src/Fuzzer/Tests.antt =====
-- Runs of FuzzerCore's model on small buffers, and the theorems at concrete inputs.
use cezfuzzer.Base.{ℕ, ◌+◌, ◌≡◌, refl, List, [], ◌∷◌, ◌++◌, some, true, arith, length}
use cezfuzzer.Fuzzer.Memory.{Block, World, done, fault, malloc, free, load, store, memcpy}
use cezfuzzer.Fuzzer.Core.{
  Env, wrote, no_fork, fill, normalize_output_size, normalize_and_free, stored, collect_output,
  after_start, run_radamsa, run_radamsa_expanded,
}
use cezfuzzer.Fuzzer.Normalize.{IsSane, normal, give, normalize_output_size_lem}
use cezfuzzer.Fuzzer.Yields.{Yields, Refuses}
use cezfuzzer.Fuzzer.Radamsa.{IsExpanded, run_radamsa_expanded-Yields}
use cezfuzzer.Fuzzer.Modes.{post_fuzzing, pre_fuzzing, full_fuzzing}
use cezfuzzer.Fuzzer.Posts.{IsMessage, IsJoined, post_fuzzing-Yields}
use cezfuzzer.Fuzzer.Limits.{EndsWith, run_radamsa_fds}
use cezfuzzer.Fuzzer.Args.{
  custom, overflow, cleared, add_args, argv, fuzzer_core, common_args, style_args, argv-add_args,
  argv-fuzzer_core,
}

-- Outputs of 4 to 10 bytes; memory is always granted, and the child writes 7 and 8.
abbrev small : Env
small = record {
  alloc = λ k n. true;
  child = λ args k stdin. wrote (7 ∷ 8 ∷ []);
  min_output_size = 4;
  max_buffer_size = 10;
}

-- No process can be started.
abbrev forkless : Env
forkless = record small { child = λ args k stdin. no_fork }

abbrev block : List ℕ → Block
block xs = record { cap = length xs; bytes = xs }

abbrev world : List ℕ → World
world msg = record { next = 1; blocks = (0, block msg) ∷ []; runs = 0; fds = 3 }

abbrev after_world : ℕ → ℕ → ℕ → List ℕ → List ℕ → World
after_world next runs p out msg = record {
  next = next;
  blocks = (p, block out) ∷ (0, block msg) ∷ [];
  runs = runs;
  fds = 3;
}

abbrev msg : List ℕ
msg = 1 ∷ 2 ∷ 3 ∷ []

small-IsSane : IsSane small
small-IsSane = omega arith

forkless-IsSane : IsSane forkless
forkless-IsSane = omega arith

msg-IsMessage : IsMessage 0 msg (world msg)
msg-IsMessage = record {
  readable = record { block = block msg; found = refl; long = omega arith; prefix = refl };
  older = omega arith;
  some_bytes = omega arith;
  short = omega arith;
}

normalize_repeats_test :
    normalize_output_size small 0 3 (world msg)
    ≡ done (some 1, 4) (after_world 2 0 1 (1 ∷ 2 ∷ 3 ∷ 1 ∷ []) msg)
unfolding normalize_output_size malloc fill memcpy
normalize_repeats_test = refl

post_test :
    post_fuzzing small [] 0 3 (world msg)
    ≡ done (some 5, 7) (after_world 6 1 5 (1 ∷ 2 ∷ 3 ∷ 7 ∷ 8 ∷ 7 ∷ 8 ∷ []) msg)
unfolding post_fuzzing run_radamsa_expanded run_radamsa after_start collect_output stored
    normalize_and_free normalize_output_size malloc fill memcpy load store free
post_test = refl

pre_test :
    pre_fuzzing small [] 0 3 (world msg)
    ≡ done (some 5, 7) (after_world 6 1 5 (7 ∷ 8 ∷ 7 ∷ 8 ∷ 1 ∷ 2 ∷ 3 ∷ []) msg)
unfolding pre_fuzzing run_radamsa_expanded run_radamsa after_start collect_output stored
    normalize_and_free normalize_output_size malloc fill memcpy load store free
pre_test = refl

full_test :
    full_fuzzing small [] 0 3 (world msg)
    ≡ done (some 8, 10) (after_world 9 2 8 (7 ∷ 8 ∷ 7 ∷ 8 ∷ 1 ∷ 2 ∷ 3 ∷ 7 ∷ 8 ∷ 7 ∷ []) msg)
unfolding full_fuzzing run_radamsa_expanded run_radamsa after_start collect_output stored
    normalize_and_free normalize_output_size malloc fill memcpy load store free
full_test = refl

double_free_test : free 5 (world msg) ≡ fault
unfolding free
double_free_test = refl

post_fuzzing-Yields_example :
    Yields
      (Refuses small)
      1
      ((0, block msg) ∷ [])
      (post_fuzzing small [] 0 3 (world msg))
      (IsJoined small [] (λ m f. m ++ f) msg)
post_fuzzing-Yields_example =
    post_fuzzing-Yields small small-IsSane [] 0 msg (world msg) msg-IsMessage

run_radamsa_expanded-Yields_example :
    Yields
      (Refuses forkless)
      1
      ((0, block msg) ∷ [])
      (run_radamsa_expanded forkless [] 0 3 (world msg))
      (IsExpanded forkless [] msg)
run_radamsa_expanded-Yields_example =
    run_radamsa_expanded-Yields forkless forkless-IsSane [] 0 3 msg (world msg)
      msg-IsMessage.readable (omega arith) (omega arith)

normalize_output_size_lem_example :
    normalize_output_size small 0 3 (world msg) ≡ give small (normal small msg) (world msg)
normalize_output_size_lem_example =
    normalize_output_size_lem small 0 3 msg (world msg) msg-IsMessage.readable (omega arith)
      small-IsSane (omega arith)

run_radamsa_fds_example : EndsWith (3 + 4) (run_radamsa forkless [] 0 3 (world msg))
run_radamsa_fds_example =
    run_radamsa_fds forkless forkless-IsSane [] 0 3 msg (world msg) msg-IsMessage.readable

argv-add_args_example :
    argv (add_args (cleared custom) ("a" ∷ "b" ∷ [])).radamsa_args ≡ some ("a" ∷ "b" ∷ [])
argv-add_args_example = argv-add_args custom ("a" ∷ "b" ∷ [])

argv-fuzzer_core_example :
    argv (fuzzer_core overflow).radamsa_args ≡ some (common_args ++ style_args overflow)
argv-fuzzer_core_example = argv-fuzzer_core overflow
