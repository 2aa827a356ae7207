-- ===== src/Base/Lists.antt =====
-- Lists measured by native numbers, and the array and set operations of JavaScript.
use Prim.Native.Nat.{ℕ, zero, suc, ◌+◌, ◌≤◌}
use Prim.Native.String.{String}
use mathlib.Core.Path.{◌≡◌, refl, sym, ap, subst}
use mathlib.Core.Logic.{◌⊎◌, inl, inr, ◌↔◌}
use mathlib.Core.Bool.{Bool, true, false, ◌||◌, ◌&&◌}
use mathlib.Core.Option.{Option, none, some}
use mathlib.Core.List.{List, [], ◌∷◌, ◌++◌, map}
use native.Mathlib.Omega.{arith}
use text.Mathlib.Text.{◌==◌}
use text.Mathlib.TextEquality.{eq_iff}
use auth_sso.Base.Tests.{if◌then◌else◌}

module _ {ℓ} {A : Type ℓ} where
  abbrev pub length : List A → ℕ
  length [] = 0
  length (x ∷ xs) = suc (length xs)

  -- xs.slice(0, n)
  abbrev pub take : ℕ → List A → List A
  take zero xs = []
  take (suc n) [] = []
  take (suc n) (x ∷ xs) = x ∷ take n xs

  -- xs.slice(n)
  abbrev pub drop : ℕ → List A → List A
  drop zero xs = xs
  drop (suc n) [] = []
  drop (suc n) (x ∷ xs) = drop n xs

  -- xs.some(p)
  abbrev pub any : (A → Bool) → List A → Bool
  any p [] = false
  any p (x ∷ xs) = p x || any p xs

  -- xs.every(p)
  abbrev pub all : (A → Bool) → List A → Bool
  all p [] = true
  all p (x ∷ xs) = p x && all p xs

  -- xs.filter(p)
  abbrev pub keep : (A → Bool) → List A → List A
  keep p [] = []
  keep p (x ∷ xs) = let rest = keep p xs in if p x then x ∷ rest else rest

  -- xs.find(p)
  abbrev pub find : (A → Bool) → List A → Option A
  find p [] = none
  find p (x ∷ xs) = if p x then some x else find p xs

  pub length-append : (xs ys : List A) → length (xs ++ ys) ≡ length xs + length ys
  length-append [] ys = omega arith
  length-append (x ∷ xs) ys = omega (arith, length-append xs ys)

  pub length-take : (n : ℕ) (xs : List A) → length (take n xs) ≤ n
  length-take zero xs = omega arith
  length-take (suc n) [] = omega arith
  length-take (suc n) (x ∷ xs) = omega (arith, length-take n xs)

module _ {A : Type 0} where
  -- `a` is an entry of the list.
  abbrev pub Among : A → List A → Type 0
  Among a [] = ⊥
  Among a (x ∷ xs) = (a ≡ x) ⊎ Among a xs

  pub find-eq-some :
      (p : A → Bool) (xs : List A) (x : A) → find p xs ≡ some x → (p x ≡ true) × Among x xs
  find-eq-some p [] x h = cc
  find-eq-some p (y ∷ ys) x h = ground (arith, find-eq-some p ys x)

-- A predicate on every entry.
abbrev pub All {ℓ κ} : {A : Type ℓ} → (A → Type κ) → List A → Type κ
All P [] = Unit
All P (x ∷ xs) = P x × All P xs

module _ {κ} {A : Type 0} (P : A → Type κ) where
  All-append : (xs ys : List A) → All P xs → All P ys → All P (xs ++ ys)
  All-append [] ys h k = k
  All-append (x ∷ xs) ys h k = (h.0, All-append xs ys h.1 k)

  pub All-at : (xs : List A) {x : A} → All P xs → Among x xs → P x
  All-at [] h m = elim m [ ]
  All-at (y ∷ ys) h m = elim m [ inl e ↦ subst P (sym e) h.0 | inr m' ↦ All-at ys h.1 m' ]

-- xs.includes(a), set.has(a)
abbrev pub includes : List String → String → Bool
includes [] a = false
includes (x ∷ xs) a = x == a || includes xs a

pub includes_iff : (xs : List String) (a : String) → (includes xs a ≡ true) ↔ Among a xs
includes_iff [] a = ground arith
includes_iff (x ∷ xs) a = ground (arith, eq_iff x a, includes_iff xs a)

-- No text stands twice.
abbrev pub Unique : List String → Type 0
Unique [] = Unit
Unique (x ∷ xs) = (includes xs x ≡ false) × Unique xs

pub Among-append :
    {A : Type 0} (a : A) (xs ys : List A) → Among a (xs ++ ys) ↔ (Among a xs ⊎ Among a ys)
Among-append a [] ys = ground arith
Among-append a (x ∷ xs) ys = ground (arith, Among-append a xs ys)

pub Among-map :
    {A B : Type 0} (f : A → B) (xs : List A) (x : A) → Among x xs → Among (f x) (map f xs)
Among-map f [] x m = elim m [ ]
Among-map f (y ∷ ys) x m = elim m [ inl e ↦ inl (ap f e) | inr m' ↦ inr (Among-map f ys x m') ]

module _ {κ} {A : Type 0} {P : A → Type κ} where
  pub All-of_Among : (xs : List A) → ((x : A) → Among x xs → P x) → All P xs
  All-of_Among [] h = tt
  All-of_Among (x ∷ xs) h = (h x (inl refl), All-of_Among xs (λ y m. h y (inr m)))

module _ {A : Type 0} (p : A → Bool) where
  pub any-Among : (xs : List A) → any p xs ≡ true → (x : A) × Among x xs × (p x ≡ true)
  any-Among [] h = cc
  any-Among (x ∷ xs) h = here (p x) refl h (any-Among xs)
    where
      here :
          (b : Bool)
          → p x ≡ b
          → (b || any p xs) ≡ true
          → (any p xs ≡ true → (y : A) × Among y xs × (p y ≡ true))
          → (y : A) × ((y ≡ x) ⊎ Among y xs) × (p y ≡ true)
      here true e q k = (x, inl refl, e)
      here false e q k = let (y, m, w) = k q in (y, inr m, w)

  pub Among-any : (xs : List A) (x : A) → Among x xs → p x ≡ true → any p xs ≡ true
  Among-any [] x m h = elim m [ ]
  Among-any (y ∷ ys) x m h = ground (arith, m, h, Among-any ys x)

  pub Among-keep : (xs : List A) (x : A) → Among x (keep p xs) ↔ (Among x xs × (p x ≡ true))
  Among-keep [] x = ground arith
  Among-keep (y ∷ ys) x = ground (arith, Among-keep ys x)
