-- ===== src/Execution/Decimal.antt =====
-- std::to_string of an int, and what a program reads back from it.
use Prim.Native.Char.{Char, code}
use Prim.Native.String.{String}
use cezfuzzer.Base.{
  ℕ, zero, suc, ◌+◌, ◌-◌, ◌*◌, ◌/◌, ◌%◌, ◌≤◌, ◌<◌, ◌≡◌, refl, ℤ, pos, negsuc, false, if◌then◌else◌,
  ◌==◌, arith, Bool-cases, inl, inr, ap,
}

abbrev digit : ℕ → Char
digit zero = "0"
digit (suc zero) = "1"
digit (suc (suc zero)) = "2"
digit (suc (suc (suc zero))) = "3"
digit (suc (suc (suc (suc zero)))) = "4"
digit (suc (suc (suc (suc (suc zero))))) = "5"
digit (suc (suc (suc (suc (suc (suc zero)))))) = "6"
digit (suc (suc (suc (suc (suc (suc (suc zero))))))) = "7"
digit (suc (suc (suc (suc (suc (suc (suc (suc zero)))))))) = "8"
digit (suc (suc (suc (suc (suc (suc (suc (suc (suc d))))))))) = "9"

-- The digits of `n` in front of `out`; each round divides by ten, so `n` rounds are enough.
unfoldable pub digits : ℕ → ℕ → String → String
digits zero n out = out
digits (suc fuel) n out =
    let more = digits fuel (n / 10) (String.◌∷◌ (digit (n % 10)) out) in
    if n == 0 then out else more

abbrev pub natural_text : ℕ → String
natural_text n = if n == 0 then "0" else digits n n ""

unfoldable pub to_string : ℤ → String
to_string (pos n) = natural_text n
to_string (negsuc n) = String.◌∷◌ "-" (natural_text (suc n))

-- The value of a text of decimal digits behind the value of those before it.
unfoldable pub scan : String → ℕ → ℕ
scan String.[] n = n
scan (String.◌∷◌ c s) n = scan s (n * 10 + (code c - b'0'))

code-digit : (d : ℕ) → d < 10 → code (digit d) ≡ b'0' + d
code-digit zero h = refl
code-digit (suc zero) h = refl
code-digit (suc (suc zero)) h = refl
code-digit (suc (suc (suc zero))) h = refl
code-digit (suc (suc (suc (suc zero)))) h = refl
code-digit (suc (suc (suc (suc (suc zero))))) h = refl
code-digit (suc (suc (suc (suc (suc (suc zero)))))) h = refl
code-digit (suc (suc (suc (suc (suc (suc (suc zero))))))) h = refl
code-digit (suc (suc (suc (suc (suc (suc (suc (suc zero)))))))) h = refl
code-digit (suc (suc (suc (suc (suc (suc (suc (suc (suc zero))))))))) h = refl
code-digit (suc (suc (suc (suc (suc (suc (suc (suc (suc (suc d)))))))))) h = absurd (omega arith)

to_string_test : to_string (negsuc 12344) ≡ "-12345"
unfolding to_string digits
to_string_test = refl

scan-digits : (fuel n : ℕ) (out : String) → n ≤ fuel → scan (digits fuel n out) 0 ≡ scan out n
unfolding scan digits
scan-digits zero n out h = let none_left : n ≡ 0 = omega arith in rw none_left
scan-digits (suc fuel) n out h = elim (Bool-cases (n == 0)) [
  | inl done ↦ let none_left : n ≡ 0 = ground arith in rw none_left
  | inr more ↦
      let last : n / 10 * 10 + (code (digit (n % 10)) - b'0') ≡ n =
        omega (arith, code-digit (n % 10)) in
      rw (more, scan-digits fuel (n / 10) (String.◌∷◌ (digit (n % 10)) out) (ground arith), last)
]

-- The number that a text stands for, as atoi() reads it.
abbrev pub negative : ℕ → ℤ
negative zero = pos 0
negative (suc n) = negsuc n

unfoldable pub read_int : String → ℤ
unfolding scan
read_int String.[] = pos 0
read_int (String.◌∷◌ c s) =
    if code c == b'-' then negative (scan s 0) else pos (scan (String.◌∷◌ c s) 0)

abbrev AllDigits : String → Type 0
AllDigits String.[] = Unit {0}
AllDigits (String.◌∷◌ c s) = (b'0' ≤ code c) × AllDigits s

digits-AllDigits : (fuel n : ℕ) (out : String) → AllDigits out → AllDigits (digits fuel n out)
unfolding digits
digits-AllDigits zero n out h = h
digits-AllDigits (suc fuel) n out h =
    let low : b'0' ≤ code (digit (n % 10)) = omega (arith, code-digit (n % 10)) in
    elim (Bool-cases (n == 0)) [
      | inl done ↦ rw done h
      | inr more ↦
          rw more (digits-AllDigits fuel (n / 10) (String.◌∷◌ (digit (n % 10)) out) (low, h))
    ]

natural-AllDigits : (n : ℕ) → AllDigits (natural_text n)
natural-AllDigits n = elim (Bool-cases (n == 0)) [
  | inl done ↦ rw done (omega arith)
  | inr more ↦ rw more (digits-AllDigits n n "" tt)
]

scan-natural : (n : ℕ) → scan (natural_text n) 0 ≡ n
unfolding scan
scan-natural n = elim (Bool-cases (n == 0)) [
  | inl done ↦ let none_left : n ≡ 0 = ground arith in rw (done, none_left)
  | inr more ↦ rw (more, scan-digits n n "" (omega arith))
]

read_natural : (s : String) → AllDigits s → read_int s ≡ pos (scan s 0)
unfolding read_int scan
read_natural String.[] h = refl
read_natural (String.◌∷◌ c s) (low, h) =
    let plain : (code c == b'-') ≡ false = ground arith in rw plain

-- What to_string prints of an int is read back as that int.
pub read_int-to_string : (z : ℤ) → read_int (to_string z) ≡ z
unfolding to_string
read_int-to_string (pos n) =
    rw (read_natural (natural_text n) (natural-AllDigits n), scan-natural n)
read_int-to_string (negsuc n) = unfold read_int in ap negative (scan-natural (suc n))
