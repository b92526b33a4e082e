-- ===== src/Fuzzer/Args.antt =====
-- proxy/src/Fuzzer.cpp: the argument vector of radamsa that the constructor of FuzzerCore builds.
use mathlib.Core.List.{append-nil, append_assoc}
use cezfuzzer.Base.{
  ℕ, zero, suc, ◌+◌, ◌-◌, ◌≡◌, refl, ap, ◌∙◌, List, [], ◌∷◌, ◌++◌, map, Option, none, some, arith,
  length, if◌then◌else◌, String, take, ltb, replicate, set, length-append,
}

pub data FuzzStyle : Type 0 where
  randomization truncate insert overflow custom : FuzzStyle

abbrev pub max_radamsa_args : ℕ
max_radamsa_args = 20

-- A null pointer in the array is `none`.
pub record FuzzerCore : Type 0 where
  pub style : FuzzStyle
  pub radamsa_args : List (Option String)
  pub arg_count : ℕ

pub add_arg : FuzzerCore → String → FuzzerCore
add_arg c arg =
    if ltb c.arg_count (max_radamsa_args - 1)
    then record c {
      radamsa_args = set (set c.radamsa_args c.arg_count (some arg)) (suc c.arg_count) none;
      arg_count = suc c.arg_count;
    }
    else c

pub add_args : FuzzerCore → List String → FuzzerCore
add_args c [] = c
add_args c (x ∷ xs) = add_args (add_arg c x) xs

-- The calls of addArg in configureStyleArgs before the switch, and those of each case.
abbrev pub common_args : List String
common_args = "radamsa" ∷ "-n" ∷ "1" ∷ "-g" ∷ "stdin=1048576" ∷ "-p" ∷ "od,nd=2,bu" ∷ []

abbrev pub style_args : FuzzStyle → List String
style_args randomization = []
style_args truncate = "-m" ∷ "td,tr2,ts1" ∷ []
style_args insert = "-m" ∷ "li,lp,ls,lis" ∷ []
style_args overflow = "-m" ∷ "bd,bf,br,bp" ∷ []
style_args custom = "-m" ∷ "ab,xp=9,bei,ber,uw" ∷ []

pub configure_style_args : FuzzerCore → FuzzerCore
configure_style_args c = add_args (add_args c common_args) (style_args c.style)

pub cleared : FuzzStyle → FuzzerCore
cleared style = record {
  style = style;
  radamsa_args = replicate max_radamsa_args none;
  arg_count = 0;
}

pub fuzzer_core : FuzzStyle → FuzzerCore
unfolding cleared
fuzzer_core style = configure_style_args (cleared style)

-- What execvp reads of the array: the entries before the first null pointer, if there is one.
unfoldable pub argv : List (Option String) → Option (List String)
argv [] = none
argv (none ∷ xs) = some []
argv (some x ∷ xs) = elim (argv xs) [ none ↦ none | some ys ↦ some (x ∷ ys) ]

-- The array holds `xs`, then `free + 1` null pointers.
record Holds (c : FuzzerCore) (free : ℕ) (xs : List String) : Type 0 where
  args : c.radamsa_args ≡ map some xs ++ replicate (suc free) none
  count : c.arg_count ≡ length xs
  size : length xs + suc free ≡ max_radamsa_args

set_end :
    (xs : List String) (k : ℕ) (x : String)
    → set
        (set (map some xs ++ replicate (suc (suc k)) none) (length xs) (some x))
        (suc (length xs))
        none
      ≡ map some (xs ++ x ∷ []) ++ replicate (suc k) none
set_end [] k x = refl
set_end (y ∷ ys) k x = ap (◌∷◌ (some y)) (set_end ys k x)

add_arg_full : (c : FuzzerCore) (xs : List String) (x : String) → Holds c 0 xs → add_arg c x ≡ c
unfolding add_arg
add_arg_full c xs x h = ground (arith, h.count, h.size)

add_arg-Holds :
    (c : FuzzerCore) (k : ℕ) (xs : List String) (x : String)
    → Holds c (suc k) xs
    → Holds (add_arg c x) k (xs ++ x ∷ [])
unfolding add_arg
add_arg-Holds c k xs x h = record {
  args = ground (arith, h.args, h.count, h.size, set_end xs k x);
  count = ground (arith, h.count, h.size, length-append xs (x ∷ []));
  size = omega (arith, h.size, length-append xs (x ∷ []));
}

argv-Holds : (xs : List String) (k : ℕ) → argv (map some xs ++ replicate (suc k) none) ≡ some xs
unfolding argv
argv-Holds [] k = refl
argv-Holds (x ∷ xs) k = rw (argv-Holds xs k)

argv-add_args_full :
    (c : FuzzerCore) (xs ys : List String)
    → Holds c 0 xs
    → argv (add_args c ys).radamsa_args ≡ some (xs ++ [])
unfolding add_args
argv-add_args_full c xs [] h = rw (h.args, argv-Holds xs 0, append-nil xs)
argv-add_args_full c xs (y ∷ ys) h =
    ap (λ (d : FuzzerCore). argv (add_args d ys).radamsa_args) (add_arg_full c xs y h)
    ∙ argv-add_args_full c xs ys h

-- What is added past the room for it is left out.
argv-add_args_from :
    (c : FuzzerCore) (k : ℕ) (xs ys : List String)
    → Holds c k xs
    → argv (add_args c ys).radamsa_args ≡ some (xs ++ take k ys)
unfolding add_args
argv-add_args_from c zero xs ys h = argv-add_args_full c xs ys h
argv-add_args_from c (suc k) xs [] h = rw (h.args, argv-Holds xs (suc k), append-nil xs)
argv-add_args_from c (suc k) xs (y ∷ ys) h =
    argv-add_args_from (add_arg c y) k (xs ++ y ∷ []) ys (add_arg-Holds c k xs y h)
    ∙ ap some (append_assoc xs (y ∷ []) (take k ys))

-- Whatever arguments are added to a cleared argument vector, it is ended by a null pointer, and
-- before that it holds the first 19 of them.
pub argv-add_args :
    (style : FuzzStyle) (xs : List String)
    → argv (add_args (cleared style) xs).radamsa_args ≡ some (take 19 xs)
unfolding cleared
argv-add_args style xs =
    argv-add_args_from (cleared style) 19 [] xs (record { args = refl; count = refl; size = refl })

-- With each style execvp is given the common arguments and those of the style, none cut off.
pub argv-fuzzer_core :
    (style : FuzzStyle)
    → argv (fuzzer_core style).radamsa_args ≡ some (common_args ++ style_args style)
unfolding fuzzer_core configure_style_args add_args add_arg cleared argv
argv-fuzzer_core randomization = refl
argv-fuzzer_core truncate = refl
argv-fuzzer_core insert = refl
argv-fuzzer_core overflow = refl
argv-fuzzer_core custom = refl
