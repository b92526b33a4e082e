-- ===== src/Base/Members.antt =====
-- Lists of numbers as sets.
use Prim.Native.Nat.{ℕ}
use mathlib.Core.Path.{◌≡◌, refl}
use mathlib.Core.Logic.{◌⊎◌, inl, inr}
use mathlib.Core.Bool.{Bool, true, false}
use mathlib.Core.List.{List, [], ◌∷◌, ◌++◌}
use native.Mathlib.Omega.{arith}
use cezfuzzer.Base.Tests.{◌==◌, if◌then◌else◌}

abbrev pub elem : ℕ → List ℕ → Bool
elem p [] = false
elem p (q ∷ qs) = if p == q then true else elem p qs

abbrev pub delete : ℕ → List ℕ → List ℕ
delete p [] = []
delete p (q ∷ qs) = if p == q then delete p qs else q ∷ delete p qs

pub elem-delete :
    (p q : ℕ) (xs : List ℕ) → elem p (delete q xs) ≡ (if p == q then false else elem p xs)
elem-delete p q [] = ground arith
elem-delete p q (x ∷ xs) = ground (arith, elem-delete p q xs)

pub elem-append :
    (p q : ℕ) (xs : List ℕ) → elem p (xs ++ q ∷ []) ≡ (if p == q then true else elem p xs)
elem-append p q [] = refl
elem-append p q (x ∷ xs) = ground (arith, elem-append p q xs)

-- A place of a list holds the value.
abbrev pub Among : {A : Type 0} → A → List A → Type 0
Among t [] = ⊥
Among t (u ∷ us) = (t ≡ u) ⊎ Among t us

pub Among-append :
    {A : Type 0} (t : A) (us vs : List A) → Among t (us ++ vs) → Among t us ⊎ Among t vs
Among-append t [] vs h = inr h
Among-append t (u ∷ us) vs (inl e) = inl (inl e)
Among-append t (u ∷ us) vs (inr h) = elim (Among-append t us vs h) [
  | inl there ↦ inl (inr there)
  | inr behind ↦ inr behind
]
