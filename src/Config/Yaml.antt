-- ===== src/Config/Yaml.antt =====
-- What proxy/lib/ConfigurationManager.cpp uses of yaml-cpp, which is a parameter: a type of nodes and
-- its operations. An exception is `none`.
use cezfuzzer.Base.{ℤ, Bool, List, [], ◌∷◌, Option, none, some, String}

-- `at` is the operator []: it throws on a scalar, and gives no node for a key that is not there.
-- `items` and `fields` are what a loop over a node meets.
pub record Yaml (N : Type 0) : Type 0 where
  pub at : N → String → Option (Option N)
  pub as_string : N → Option String
  pub as_int : N → Option ℤ
  pub as_bool : N → Option Bool
  pub items : N → List N
  pub fields : N → List (N × N)

infixl 10 ◌>>=◌
abbrev pub ◌>>=◌ : {A B : Type 0} → Option A → (A → Option B) → Option B
none >>= f = none
some a >>= f = f a

abbrev pub pure : {A : Type 0} → A → Option A
pure a = some a

-- as<T>() throws where there is no node.
abbrev pub required : {A : Type 0} → Option A → Option A
required none = none
required (some a) = some a

-- A loop that pushes what it reads; it stops where reading throws.
unfoldable pub each : {A B : Type 0} → (A → Option B) → List A → Option (List B)
each f [] = some []
each f (x ∷ xs) = do y ← f x; ys ← each f xs; pure (y ∷ ys)

module _ {N : Type 0} (y : Yaml N) where
  abbrev pub string_at : N → String → Option String
  string_at n key = do found ← y.at n key; value ← required found; y.as_string value

  abbrev pub int_at : N → String → Option ℤ
  int_at n key = do found ← y.at n key; value ← required found; y.as_int value

  abbrev pub bool_at : N → String → Option Bool
  bool_at n key = do found ← y.at n key; value ← required found; y.as_bool value

  -- `if (data[key]) for (x : data[key]) push_back(read(x))`
  abbrev pub items_of : Option N → List N
  items_of none = []
  items_of (some n) = y.items n

  abbrev pub list_at : {A : Type 0} → (N → Option A) → N → String → Option (List A)
  list_at read n key = do found ← y.at n key; each read (items_of found)
