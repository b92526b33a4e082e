-- ===== src/Base/Text.antt =====
-- Texts as the program reads them: bytes up to the first byte 0. A String stands for the code points
-- of an ASCII text.
use Prim.Native.Char.{code}
use Prim.Native.Nat.{ℕ, zero, suc, ◌<◌}
use Prim.Native.String.{String}
use mathlib.Core.Path.{◌≡◌, refl}
use mathlib.Core.Logic.{◌↔◌}
use mathlib.Core.Bool.{Bool, true, false}
use mathlib.Core.List.{List, [], ◌∷◌, ◌++◌}
use native.Mathlib.Omega.{arith}
use cezfuzzer.Base.Tests.{◌==◌, if◌then◌else◌}
use cezfuzzer.Base.Lists.{replicate}
use cezfuzzer.Base.Members.{elem}

abbrev pub codes : String → List ℕ
codes String.[] = []
codes (String.◌∷◌ c s) = code c ∷ codes s

-- The text that a buffer holds: its bytes before the first byte 0.
unfoldable pub c_string : List ℕ → List ℕ
c_string [] = []
c_string (x ∷ xs) = elim (x == 0) [ true ↦ [] | false ↦ x ∷ c_string xs ]

abbrev pub NoZero : List ℕ → Type 0
NoZero [] = Unit {0}
NoZero (x ∷ xs) = (0 < x) × NoZero xs

pub c_string-zeros : (msg : List ℕ) (n : ℕ) → c_string (msg ++ replicate n 0) ≡ c_string msg
unfolding c_string
c_string-zeros [] zero = refl
c_string-zeros [] (suc n) = refl
c_string-zeros (x ∷ xs) n = ground (arith, c_string-zeros xs n)

abbrev pub eq_bytes : List ℕ → List ℕ → Bool
eq_bytes [] [] = true
eq_bytes [] (y ∷ ys) = false
eq_bytes (x ∷ xs) [] = false
eq_bytes (x ∷ xs) (y ∷ ys) = if x == y then eq_bytes xs ys else false

pub eq_bytes_iff : (xs ys : List ℕ) → (eq_bytes xs ys ≡ true) ↔ (xs ≡ ys)
eq_bytes_iff [] [] = (λ e. refl, λ e. refl)
eq_bytes_iff [] (y ∷ ys) = (λ e. cc, λ e. cc)
eq_bytes_iff (x ∷ xs) [] = (λ e. cc, λ e. cc)
eq_bytes_iff (x ∷ xs) (y ∷ ys) =
    let (to, from) = eq_bytes_iff xs ys in (λ e. ground arith, λ e. ground arith)

-- strcmp(a, b) == 0
abbrev pub strcmp_eq : List ℕ → List ℕ → Bool
strcmp_eq a b = eq_bytes (c_string a) (c_string b)

-- A text without the byte 0 in it.
pub c_string_self : (text : List ℕ) → NoZero text → c_string text ≡ text
unfolding c_string
c_string_self [] h = refl
c_string_self (x ∷ xs) h = ground (arith, c_string_self xs h.1)

pub c_string_unended : (bytes : List ℕ) → elem 0 bytes ≡ false → c_string bytes ≡ bytes
unfolding c_string
c_string_unended [] h = refl
c_string_unended (x ∷ xs) h = ground (arith, c_string_unended xs)
