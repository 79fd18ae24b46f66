-- ===== src/Base/Lists.antt =====
-- Lists measured and indexed by native numbers, and the `t_list` operations that the source uses:
-- the first element that satisfies a condition is found, replaced or removed.
use Prim.Native.Nat.{ℕ, zero, suc, ◌+◌, ◌-◌, min}
use mathlib.Core.Path.{◌≡◌, refl, ap}
use mathlib.Core.Logic.{◌⊎◌}
use mathlib.Core.Bool.{Bool, true}
use mathlib.Core.List.{List, [], ◌∷◌, ◌++◌}
use mathlib.Core.Option.{Option, none, some}
use native.Mathlib.Omega.{arith}
use unix_os_simulation.Base.Tests.{if◌then◌else◌}

module _ {ℓ} {A : Type ℓ} where
  abbrev pub length : List A → ℕ
  length [] = 0
  length (x ∷ xs) = suc (length xs)

  abbrev pub get_elem? : List A → ℕ → Option A
  get_elem? [] i = none
  get_elem? (x ∷ xs) zero = some x
  get_elem? (x ∷ xs) (suc i) = get_elem? xs i

  abbrev pub take : ℕ → List A → List A
  take zero xs = []
  take (suc n) [] = []
  take (suc n) (x ∷ xs) = x ∷ take n xs

  abbrev pub drop : ℕ → List A → List A
  drop zero xs = xs
  drop (suc n) [] = []
  drop (suc n) (x ∷ xs) = drop n xs

  abbrev pub replicate : ℕ → A → List A
  replicate zero a = []
  replicate (suc n) a = a ∷ replicate n a

  -- `list_find`: the first element that satisfies the condition.
  abbrev pub list_find : (A → Bool) → List A → Option A
  list_find p [] = none
  list_find p (x ∷ xs) = if p x then some x else list_find p xs

  -- `list_filter`
  abbrev pub list_filter : (A → Bool) → List A → List A
  list_filter p [] = []
  list_filter p (x ∷ xs) = if p x then x ∷ list_filter p xs else list_filter p xs

  -- What a write through the pointer that `list_find` returned does to the list.
  abbrev pub list_update : (A → Bool) → (A → A) → List A → List A
  list_update p f [] = []
  list_update p f (x ∷ xs) = if p x then f x ∷ xs else x ∷ list_update p f xs

  -- `list_remove_by_condition`, or `list_remove_element` of what `list_find` returned.
  abbrev pub list_remove : (A → Bool) → List A → List A
  list_remove p [] = []
  list_remove p (x ∷ xs) = if p x then xs else x ∷ list_remove p xs

module _ {ℓ} {A : Type ℓ} where
  pub length-append : (xs ys : List A) → length (xs ++ ys) ≡ length xs + length ys
  length-append [] ys = omega arith
  length-append (x ∷ xs) ys = omega (arith, length-append xs ys)

  pub length-take : (n : ℕ) (xs : List A) → length (take n xs) ≡ min n (length xs)
  length-take zero xs = omega arith
  length-take (suc n) [] = omega arith
  length-take (suc n) (x ∷ xs) = omega (arith, length-take n xs)

  pub length-drop : (n : ℕ) (xs : List A) → length (drop n xs) ≡ length xs - n
  length-drop zero xs = omega arith
  length-drop (suc n) [] = omega arith
  length-drop (suc n) (x ∷ xs) = omega (arith, length-drop n xs)

  pub length-replicate : (n : ℕ) (a : A) → length (replicate n a) ≡ n
  length-replicate zero a = refl
  length-replicate (suc n) a = ap suc (length-replicate n a)

  pub take-length-append : (xs ys : List A) → take (length xs) (xs ++ ys) ≡ xs
  take-length-append [] ys = refl
  take-length-append (x ∷ xs) ys = ap (◌∷◌ x) (take-length-append xs ys)

  pub drop-length-append : (xs ys : List A) → drop (length xs) (xs ++ ys) ≡ ys
  drop-length-append [] ys = refl
  drop-length-append (x ∷ xs) ys = drop-length-append xs ys

module _ {A : Type 0} where
  -- Membership, as a sum that the tactics take apart.
  abbrev pub In : A → List A → Type 0
  In a [] = ⊥
  In a (x ∷ xs) = (a ≡ x) ⊎ In a xs

  pub list_find-In :
      (p : A → Bool) (xs : List A) (a : A) → list_find p xs ≡ some a → In a xs × (p a ≡ true)
  list_find-In p [] a e = cc
  list_find-In p (x ∷ xs) a e = ground (arith, list_find-In p xs a)

  -- What the write left is what is found afterwards.
  pub list_find-list_update :
      (p : A → Bool) (xs : List A) (a b : A)
      → list_find p xs ≡ some a
      → p b ≡ true
      → list_find p (list_update p (λ viejo. b) xs) ≡ some b
  list_find-list_update p [] a b e h = cc
  list_find-list_update p (x ∷ xs) a b e h = ground (arith, list_find-list_update p xs a b)

  pub list_filter-In :
      (p : A → Bool) (xs : List A) (a : A) → In a (list_filter p xs) → In a xs × (p a ≡ true)
  list_filter-In p [] a h = absurd h
  list_filter-In p (x ∷ xs) a h = ground (arith, list_filter-In p xs a)

  pub In-list_filter :
      (p : A → Bool) (xs : List A) (a : A) → In a xs → p a ≡ true → In a (list_filter p xs)
  In-list_filter p [] a h e = absurd h
  In-list_filter p (x ∷ xs) a h e = ground (arith, In-list_filter p xs a)
