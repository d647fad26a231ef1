-- ===== src/Rmw/Graph/Counts.antt =====
-- What the loops over the records do to a count of records, and to a property of all of them.
use open_rtdds.Prelude.{
  ℕ, suc, ◌+◌, ◌≡◌, ◌≢◌, ◌⊎◌, refl, ap, ◌∙◌, Bool, true, false, List, [], ◌∷◌, Option, arith,
  if◌then◌else◌, All, Bool-cases, inl, inr,
}
use open_rtdds.Rmw.Graph.Tables.{◌>>=◌, any, tally, replace_first, replace_all, place_all}

abbrev pub bit : Bool → ℕ
bit b = if b then 1 else 0

-- A property of the value, where there is one.
pub data When {A : Type 0} (P : A → Type 0) : Option A → Type 0 where
  nothing : When P Option.none
  just : {a : A} → P a → When P (Option.some a)

pub bind-When :
    {A B : Type 0} {P : B → Type 0} (o : Option A) {f : A → Option B}
    → ((a : A) → When P (f a))
    → When P (o >>= f)
bind-When Option.none h = When.nothing
bind-When (Option.some a) h = h a

pub refuse-When :
    {B : Type 0} {P : B → Type 0} (b : Bool) {o : Option B}
    → When P o
    → When P (if b then Option.none else o)
refuse-When true h = When.nothing
refuse-When false h = h

pub When-some : {B : Type 0} {P : B → Type 0} {b : B} → When P (Option.some b) → P b
When-some (When.just p) = p

module _ {A : Type 0} where
  pub any-tally : (p : A → Bool) (xs : List A) → any p xs ≡ true → tally p xs ≢ 0
  any-tally p [] h = cc
  any-tally p (x ∷ xs) h = elim (Bool-cases (p x)) [
    | inl t ↦ ground (arith, t)
    | inr f ↦ ground (arith, f, any-tally p xs)
  ]

  pub not_any-tally : (p : A → Bool) (xs : List A) → any p xs ≡ false → tally p xs ≡ 0
  not_any-tally p [] h = refl
  not_any-tally p (x ∷ xs) h = elim (Bool-cases (p x)) [
    | inl t ↦ ground (arith, t)
    | inr f ↦ ground (arith, f, not_any-tally p xs)
  ]

  pub not_any-All : (p : A → Bool) (xs : List A) → any p xs ≡ false → All (λ x. p x ≡ false) xs
  not_any-All p [] h = _
  not_any-All p (x ∷ xs) h = elim (Bool-cases (p x)) [
    | inl t ↦ ground (arith, t)
    | inr f ↦ (f, not_any-All p xs (ground (arith, f)))
  ]

-- One record that passes the test is exchanged.
pub data Replaced {A : Type 0} (p : A → Bool) (y : A) : List A → List A → Type 0 where
  here : {x : A} {xs : List A} → p x ≡ true → Replaced p y (x ∷ xs) (y ∷ xs)
  there : {x : A} {xs ys : List A} → Replaced p y xs ys → Replaced p y (x ∷ xs) (x ∷ ys)

module _ {A : Type 0} where
  pub replace_first-Replaced :
      (p : A → Bool) (y : A) (xs : List A)
      → (replace_first p y xs ≡ Option.none)
        ⊎ ((ys : List A) × (replace_first p y xs ≡ Option.some ys) × Replaced p y xs ys)
  replace_first-Replaced p y [] = inl refl
  replace_first-Replaced p y (x ∷ xs) = elim (Bool-cases (p x)) [
    | inl t ↦ rw t (inr (y ∷ xs, refl, Replaced.here t))
    | inr f ↦ rw f (elim (replace_first-Replaced p y xs) [
      | inl n ↦ rw n (inl refl)
      | inr (ys, e, r) ↦ rw e (inr (x ∷ ys, refl, Replaced.there r))
    ])
  ]

  pub Replaced-tally :
      {p : A → Bool} {y : A} {xs ys : List A}
      → Replaced p y xs ys
      → (x : A) × (p x ≡ true) × ((q : A → Bool) → tally q ys + bit (q x) ≡ tally q xs + bit (q y))
  Replaced-tally {y = y} (Replaced.here {x = x} t) = (
    x,
    t,
    λ q. elim (Bool-cases (q x)) [
      | inl a ↦ elim (Bool-cases (q y)) [
        | inl b ↦ rw (a, b) (omega arith)
        | inr b ↦ rw (a, b) (omega arith)
      ]
      | inr a ↦ elim (Bool-cases (q y)) [
        | inl b ↦ rw (a, b) (omega arith)
        | inr b ↦ rw (a, b) (omega arith)
      ]
    ],
  )
  Replaced-tally (Replaced.there {x = z} r) =
      let (x, t, h) = Replaced-tally r in
      (
        x,
        t,
        λ q. elim (Bool-cases (q z)) [ inl a ↦ rw a (omega (arith, h q)) | inr a ↦ rw a (h q) ],
      )

  pub Replaced-All :
      (P : A → Type 0) {p : A → Bool} {y : A} {xs ys : List A}
      → Replaced p y xs ys
      → P y
      → All P xs
      → All P ys
  Replaced-All P (Replaced.here t) k a = (k, a.1)
  Replaced-All P (Replaced.there r) k a = (a.0, Replaced-All P r k a.1)

  pub replace_all-tally :
      (p q : A → Bool) (y : A) (xs : List A)
      → ((x : A) → p x ≡ true → q x ≡ false)
      → q y ≡ false
      → tally q (replace_all p y xs) ≡ tally q xs
  replace_all-tally p q y [] h k = refl
  replace_all-tally p q y (x ∷ xs) h k = elim (Bool-cases (p x)) [
    | inl t ↦ rw (t, k, h x t) (replace_all-tally p q y xs h k)
    | inr f ↦ elim (Bool-cases (q x)) [
      | inl u ↦ rw (f, u) (ap suc (replace_all-tally p q y xs h k))
      | inr u ↦ rw (f, u) (replace_all-tally p q y xs h k)
    ]
  ]

  pub replace_all-All :
      (P : A → Type 0) (p : A → Bool) (y : A) (xs : List A)
      → P y
      → All P xs
      → All P (replace_all p y xs)
  replace_all-All P p y [] k a = _
  replace_all-All P p y (x ∷ xs) k a = elim (Bool-cases (p x)) [
    | inl t ↦ rw t (k, replace_all-All P p y xs k a.1)
    | inr f ↦ rw f (a.0, replace_all-All P p y xs k a.1)
  ]

  pub place_all-tally :
      (p q : A → Bool) (ys xs : List A)
      → ((x : A) → p x ≡ true → q x ≡ false)
      → All (λ y. q y ≡ false) ys
      → tally q (place_all p ys xs) ≡ tally q xs
  place_all-tally p q [] xs h k = refl
  place_all-tally p q (y ∷ ys) xs h k = elim (replace_first-Replaced p y xs) [
    | inl n ↦ rw n (place_all-tally p q ys xs h k.1)
    | inr (zs, e, r) ↦
        let (x, t, c) = Replaced-tally r in
        rw e (place_all-tally p q ys zs h k.1 ∙ ground (arith, c q, h x t, k.0))
  ]

  pub place_all-All :
      (P : A → Type 0) (p : A → Bool) (ys xs : List A)
      → All P ys
      → All P xs
      → All P (place_all p ys xs)
  place_all-All P p [] xs k a = a
  place_all-All P p (y ∷ ys) xs k a = elim (replace_first-Replaced p y xs) [
    | inl n ↦ rw n (place_all-All P p ys xs k.1 a)
    | inr (zs, e, r) ↦ rw e (place_all-All P p ys zs k.1 (Replaced-All P r k.0 a))
  ]

  pub All-map : (P Q : A → Type 0) (xs : List A) → ((x : A) → P x → Q x) → All P xs → All Q xs
  All-map P Q [] h a = _
  All-map P Q (x ∷ xs) h a = (h x a.0, All-map P Q xs h a.1)
