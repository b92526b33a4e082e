-- ===== src/Config/Steps.antt =====
-- The try block of parse(): steps on an object of type S, which an exception leaves as it then is.
use cezfuzzer.Base.{Bool, true, false, Option, none, some}

-- The object after a step, and whether the step did not throw.
abbrev pub Step : Type 0 → Type 0
Step S = S → S × Bool

abbrev pub finish : {S : Type 0} → S × Bool → Step S → S × Bool
finish (m, true) next = next m
finish (m, false) next = (m, false)

infixr 20 ◌and_then◌
abbrev pub ◌and_then◌ : {S : Type 0} → Step S → Step S → Step S
◌and_then◌ first next m = finish (first m) next

abbrev pub assign : {S A : Type 0} → Option A → (A → S → S) → Step S
assign none set m = (m, false)
assign (some a) set m = (set a m, true)

-- `if (config[key]) { … }`
abbrev pub if_defined : {S N : Type 0} → Option (Option N) → (N → Step S) → Step S
if_defined none body m = (m, false)
if_defined (some none) body m = (m, true)
if_defined (some (some n)) body m = body n m
