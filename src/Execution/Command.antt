-- ===== src/Execution/Command.antt =====
-- The command that a launched process runs.
use text.Mathlib.Text.{◌==◌}
use text.Mathlib.TextEquality.{eq_iff}
use Prim.Native.String.{String, ◌++◌ as ◌+++◌}
use mathlib.Core.List.{append_assoc, map-append}
use cezfuzzer.Base.{
  ℕ, ℤ, ◌≡◌, ◌≢◌, ◌⊎◌, inl, inr, refl, true, List, [], ◌∷◌, ◌++◌, Option, none, some, map,
  if◌then◌else◌, Bool-cases, Option-cases,
}
use cezfuzzer.Fuzzer.Args.{argv}
use cezfuzzer.Config.Entity.{ConnectTo}
use cezfuzzer.Launcher.Config.{EntityConfig}
use cezfuzzer.Execution.Decimal.{to_string, read_int, read_int-to_string}
use cezfuzzer.Execution.Launch.{
  target_args, build_argv, exec_argv, executes, log_path, launched_child, launch_entity,
}

-- The interpreter of the configuration, if it names one.
abbrev pub IsInterpreter : EntityConfig → List String → Type 0
IsInterpreter entity words =
    ((entity.exec_with ≡ "") × (words ≡ []))
    ⊎ ((entity.exec_with ≢ "") × (words ≡ entity.exec_with ∷ []))

-- For a client with an address to connect to: the address, and a text that reads as the port.
abbrev pub IsTarget : EntityConfig → List String → Type 0
IsTarget entity words =
    ((target : ConnectTo) × (port : String) × (entity.role ≡ "client")
      × (entity.connect_to ≡ some target)
      × (words ≡ target.ip ∷ port ∷ [])
      × (read_int port ≡ target.port))
    ⊎ (((entity.role ≢ "client") ⊎ (entity.connect_to ≡ none)) × (words ≡ []))

pub record IsCommand (entity : EntityConfig) (words : List String) : Type 0 where
  pub interpreter : List String
  pub target : List String
  pub parts : words ≡ interpreter ++ (("/app/" +++ entity.binary_path) ∷ (entity.args ++ target))
  pub interpreted : IsInterpreter entity interpreter
  pub aimed : IsTarget entity target

argv-map :
    (xs : List String) (rest : List (Option String)) → argv (map some xs ++ none ∷ rest) ≡ some xs
unfolding argv
argv-map [] rest = refl
argv-map (x ∷ xs) rest = rw (argv-map xs rest)

words_in_front :
    (entity : EntityConfig)
    → (words : List String) × ((if entity.exec_with == "" then [] else some entity.exec_with ∷ [])
        ≡ map some words)
      × IsInterpreter entity words
words_in_front entity = elim (Bool-cases (entity.exec_with == "")) [
  | inl same ↦ rw same ([], refl, inl ((eq_iff entity.exec_with "").0 same, refl))
  | inr other ↦
      rw other (
        entity.exec_with ∷ [],
        refl,
        inr ((λ e. cc ((eq_iff entity.exec_with "").1 e, other)), refl),
      )
]

words_behind :
    (entity : EntityConfig)
    → (words : List String) × ((if entity.role == "client"
          then target_args entity.connect_to
          else [])
        ≡ map some words)
      × IsTarget entity words
words_behind entity = elim (Bool-cases (entity.role == "client")) [
  | inr other ↦
      rw other ([], refl, inr (inl (λ e. cc ((eq_iff entity.role "client").1 e, other)), refl))
  | inl same ↦ rw same (elim (Option-cases entity.connect_to) [
    | inl nowhere ↦ rw nowhere ([], refl, inr (inr refl, refl))
    | inr (target, aims) ↦ rw aims (
      target.ip ∷ to_string target.port ∷ [],
      refl,
      inl (
        target,
        to_string target.port,
        (eq_iff entity.role "client").0 same,
        refl,
        refl,
        read_int-to_string target.port,
      ),
    )
  ])
]

build_argv_words :
    (entity : EntityConfig) (front back : List String)
    → (if entity.exec_with == "" then [] else some entity.exec_with ∷ []) ≡ map some front
    → (if entity.role == "client" then target_args entity.connect_to else []) ≡ map some back
    → build_argv entity
      ≡ map some (front ++ (("/app/" +++ entity.binary_path) ∷ (entity.args ++ back))) ++ none ∷ []
unfolding build_argv
build_argv_words entity front back p q = rw (p, q) (simp (map-append, append_assoc))

-- When fork() and open() succeed, launchEntity gives the process id, and the child writes to the
-- entity's log and runs stdbuf -o0 -e0 on a command. This is the interpreter, if one is named, the
-- program below /app/, the arguments in order, and, exactly for a client with an address to
-- connect to, that address and a text that reads as the port.
pub argv-launch_entity :
    (entity : EntityConfig) (index : ℤ) (pid : ℕ)
    → (words : List String) × (vector : List (Option String)) × (launch_entity
          (some pid)
          true
          entity
          index
        ≡ some (pid, executes (log_path entity index) vector))
      × (argv vector ≡ some ("stdbuf" ∷ "-o0" ∷ "-e0" ∷ words))
      × IsCommand entity words
unfolding launch_entity launched_child exec_argv
argv-launch_entity entity index pid =
    let (front, p, is_front) = words_in_front entity in
    let (back, q, is_back) = words_behind entity in
    let words : List String = front ++ (("/app/" +++ entity.binary_path) ∷ (entity.args ++ back)) in
    (
      words,
      exec_argv entity,
      refl,
      rw
          (
            build_argv_words entity front back p q,
            append_assoc (map some words) (none ∷ []) (none ∷ []),
          )
          (argv-map ("stdbuf" ∷ "-o0" ∷ "-e0" ∷ words) (none ∷ [])),
      record {
        interpreter = front;
        target = back;
        parts = refl;
        interpreted = is_front;
        aimed = is_back;
      },
    )
