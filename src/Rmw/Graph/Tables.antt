-- ===== src/Rmw/Graph/Tables.antt =====
-- The loops of src/rmw/graph_cache.cpp over an array of records: each is a `for` over all records with
-- a test, which may end at the first record that passes.
use open_rtdds.Prelude.{ℕ, suc, Bool, false, ◌||◌, List, [], ◌∷◌, Option, if◌then◌else◌}

-- A condition that ends the function, or the value that it goes on with.
infixl 5 ◌>>=◌
abbrev pub ◌>>=◌ {ℓ κ} : {A : Type ℓ} {B : Type κ} → Option A → (A → Option B) → Option B
Option.none >>= f = Option.none
Option.some a >>= f = f a

module _ {A : Type 0} where
  -- The loop that returns, or breaks, at a record that passes.
  abbrev pub any : (A → Bool) → List A → Bool
  any p [] = false
  any p (x ∷ xs) = p x || any p xs

  abbrev pub tally : (A → Bool) → List A → ℕ
  tally p [] = 0
  tally p (x ∷ xs) = let rest = tally p xs in if p x then suc rest else rest

  abbrev pub collect : (A → Bool) → List A → List A
  collect p [] = []
  collect p (x ∷ xs) = let rest = collect p xs in if p x then x ∷ rest else rest

  abbrev pub behind : A → Option (List A) → Option (List A)
  behind x Option.none = Option.none
  behind x (Option.some xs) = Option.some (x ∷ xs)

  -- The first record that passes is overwritten; `none` if there is none.
  abbrev pub replace_first : (A → Bool) → A → List A → Option (List A)
  replace_first p y [] = Option.none
  replace_first p y (x ∷ xs) =
      let rest = behind x (replace_first p y xs) in if p x then Option.some (y ∷ xs) else rest

  -- Each record that passes is overwritten.
  abbrev pub replace_all : (A → Bool) → A → List A → List A
  replace_all p y [] = []
  replace_all p y (x ∷ xs) = let rest = replace_all p y xs in (if p x then y else x) ∷ rest

  abbrev pub or_same : List A → Option (List A) → List A
  or_same xs Option.none = xs
  or_same xs (Option.some ys) = ys

  -- Each given record overwrites the first record that passes, if there is one.
  abbrev pub place_all : (A → Bool) → List A → List A → List A
  place_all p [] xs = xs
  place_all p (y ∷ ys) xs = place_all p ys (or_same xs (replace_first p y xs))
