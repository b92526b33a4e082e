-- ===== src/Tcp/Distinct.antt =====
-- Lists of descriptors in which none occurs twice.
use mathlib.Core.List.{append-nil}
use cezfuzzer.Base.{
  ℕ, ◌≡◌, inl, inr, refl, true, false, List, [], ◌∷◌, ◌++◌, ◌==◌, elem, if◌then◌else◌, arith,
  Bool-cases,
}

abbrev pub Distinct : List ℕ → Type 0
Distinct [] = Unit {0}
Distinct (x ∷ xs) = (elem x xs ≡ false) × Distinct xs

pub elem-insert :
    (p a : ℕ) (xs ys : List ℕ)
    → elem p (xs ++ a ∷ ys) ≡ (if p == a then true else elem p (xs ++ ys))
elem-insert p a [] ys = refl
elem-insert p a (x ∷ xs) ys = ground (arith, elem-insert p a xs ys)

pub insert-Distinct :
    (a : ℕ) (xs ys : List ℕ)
    → Distinct (xs ++ ys)
    → elem a (xs ++ ys) ≡ false
    → Distinct (xs ++ a ∷ ys)
insert-Distinct a [] ys d new = (new, d)
insert-Distinct a (x ∷ xs) ys (first, d) new =
    (ground (arith, elem-insert x a xs ys), insert-Distinct a xs ys d (ground arith))

-- All of the list are among others.
abbrev pub AllIn : List ℕ → List ℕ → Type 0
AllIn xs others = (p : ℕ) → elem p xs ≡ true → elem p others ≡ true

-- A number that is not among the others is not in the list.
pub AllIn-new :
    (a : ℕ) (xs others : List ℕ) → AllIn xs others → elem a others ≡ false → elem a xs ≡ false
AllIn-new a xs others h new = elim (Bool-cases (elem a xs)) [
  | inl there ↦ cc (h a there, new)
  | inr absent ↦ absent
]

pub AllIn-insert :
    (a : ℕ) (xs ys others : List ℕ) → AllIn (xs ++ ys) others → AllIn (xs ++ a ∷ ys) (a ∷ others)
AllIn-insert a xs ys others h p e = elim (Bool-cases (p == a)) [
  | inl same ↦ rw same refl
  | inr other ↦ rw other (h p (ground (arith, elem-insert p a xs ys)))
]

pub last-Distinct :
    (a : ℕ) (xs : List ℕ) → Distinct xs → elem a xs ≡ false → Distinct (xs ++ a ∷ [])
last-Distinct a xs d new =
    let same : xs ++ [] ≡ xs = append-nil xs in insert-Distinct a xs [] (rw same d) (rw same new)

pub last-AllIn : (a : ℕ) (xs others : List ℕ) → AllIn xs others → AllIn (xs ++ a ∷ []) (a ∷ others)
last-AllIn a xs others h =
    let same : xs ++ [] ≡ xs = append-nil xs in AllIn-insert a xs [] others (rw same h)

-- Two descriptors, one opened after the other.
module _ (a b : ℕ) (xs ys others : List ℕ) (h : AllIn (xs ++ ys) others)
    (new_a : elem a others ≡ false) (new_b : elem b (a ∷ others) ≡ false) where
  pub insert_two-Distinct : Distinct (xs ++ ys) → Distinct (xs ++ a ∷ b ∷ ys)
  insert_two-Distinct d =
      let b_absent : elem b (xs ++ ys) ≡ false =
        AllIn-new b (xs ++ ys) others h (ground (arith, new_b)) in
      let a_absent : elem a (xs ++ b ∷ ys) ≡ false =
        ground (arith, elem-insert a b xs ys, AllIn-new a (xs ++ ys) others h new_a, new_b) in
      insert-Distinct a xs (b ∷ ys) (insert-Distinct b xs ys d b_absent) a_absent

  pub insert_two-AllIn : AllIn (xs ++ a ∷ b ∷ ys) (b ∷ a ∷ others)
  insert_two-AllIn p e =
      ground (arith, AllIn-insert a xs (b ∷ ys) (b ∷ others) (AllIn-insert b xs ys others h) p e)
