-- ===== src/Tests.antt =====
-- Concrete values: each theorem of the development at one of them, in the modules below, and an
-- instance of the so-commons calls.
pub mod Asignaciones
pub mod Espacios
pub mod Instrucciones
pub mod Mensajes
pub mod Archivos
pub mod Recursos
pub mod Planificacion
pub mod Programas
pub mod Compactaciones
pub mod Listas
use unix_os_simulation.Base.{
  ℕ, ◌≤◌, ◌≡◌, refl, sym, subst, ◌∙◌, ◌≢◌, ◌⊎◌, inl, inr, List, [], ◌∷◌, Option, none, some, In,
  leb, if◌then◌else◌, arith, Bool-cases, leb→le,
}
use unix_os_simulation.Commons.{Commons, PicksLess, PicksMore}

-- The fold of a list that is not empty.
abbrev pub reducir : (A : Type 0) → (A → A → A) → A → List A → A
reducir A m x [] = x
reducir A m x (y ∷ ys) = reducir A m (m x y) ys

abbrev pub reducido : (A : Type 0) → (A → A → A) → List A → Option A
reducido A m [] = none
reducido A m (x ∷ xs) = some (reducir A m x xs)

module _ (A : Type 0) (R : A → A → Type 0) (R_refl : (a : A) → R a a)
    (R_trans : (a b c : A) → R a b → R b c → R a c) (m : A → A → A)
    (elige : (a b : A) → ((m a b ≡ a) × R a b) ⊎ ((m a b ≡ b) × R b a)) where
  Elegido : A → A → List A → Type 0
  Elegido r x xs = In r (x ∷ xs) × R r x × ((y : A) → In y xs → R r y)

  sigue-Elegido : (r x y : A) (ys : List A) → R x y → Elegido r x ys → Elegido r x (y ∷ ys)
  unfolding Elegido
  sigue-Elegido r x y ys h (i, l, all) = (ground (arith, i), l, go)
    where
      go : (z : A) → In z (y ∷ ys) → R r z
      go z (inl e) = subst (R r) (sym e) (R_trans r x y l h)
      go z (inr j) = all z j

  otro-Elegido : (r x y : A) (ys : List A) → R y x → Elegido r y ys → Elegido r x (y ∷ ys)
  unfolding Elegido
  otro-Elegido r x y ys h (i, l, all) = (inr i, R_trans r y x l h, go)
    where
      go : (z : A) → In z (y ∷ ys) → R r z
      go z (inl e) = subst (R r) (sym e) l
      go z (inr j) = all z j

  reducir-Elegido : (x : A) (xs : List A) → Elegido (reducir A m x xs) x xs
  unfolding Elegido
  reducir-Elegido x [] = (inl refl, R_refl x, λ y i. absurd i)
  reducir-Elegido x (y ∷ ys) = elim (elige x y) [
    | inl (q, h) ↦
        subst (λ z. Elegido (reducir A m z ys) x (y ∷ ys)) (sym q)
          (sigue-Elegido (reducir A m x ys) x y ys h (reducir-Elegido x ys))
    | inr (q, h) ↦
        subst (λ z. Elegido (reducir A m z ys) x (y ∷ ys)) (sym q)
          (otro-Elegido (reducir A m y ys) x y ys h (reducir-Elegido y ys))
  ]

  pub reducido_lem :
      (xs : List A)
      → xs ≢ []
      → (r : A) × (reducido A m xs ≡ some r) × In r xs × ((x : A) → In x xs → R r x)
  unfolding Elegido
  reducido_lem [] ne = absurd (ne refl)
  reducido_lem (x ∷ xs) ne =
      let (i, l, all) = reducir-Elegido x xs in (reducir A m x xs, refl, i, go l all)
    where
      go :
          R (reducir A m x xs) x
          → ((y : A) → In y xs → R (reducir A m x xs) y)
          → (y : A) → In y (x ∷ xs)
          → R (reducir A m x xs) y
      go l all y (inl e) = subst (R (reducir A m x xs)) (sym e) l
      go l all y (inr j) = all y j

pub picks_less :
    (A : Type 0) (key : A → ℕ) (m : A → A → A)
    → PicksLess key m
    → (a b : A) → ((m a b ≡ a) × (key a ≤ key b)) ⊎ ((m a b ≡ b) × (key b ≤ key a))
picks_less A key m p a b = elim (Bool-cases (leb (key a) (key b))) [
  | inl e ↦ inl (p a b ∙ rw (e), leb→le _ _ e)
  | inr e ↦ inr (p a b ∙ rw (e), ground arith)
]

pub picks_more :
    (A : Type 0) (key : A → ℕ) (m : A → A → A)
    → PicksMore key m
    → (a b : A) → ((m a b ≡ a) × (key b ≤ key a)) ⊎ ((m a b ≡ b) × (key a ≤ key b))
picks_more A key m p a b = elim (Bool-cases (leb (key b) (key a))) [
  | inl e ↦ inl (p a b ∙ rw (e), leb→le _ _ e)
  | inr e ↦ inr (p a b ∙ rw (e), ground arith)
]

-- `list_get_minimum` and `list_get_maximum` as folds from the left.
abbrev pub plegado : Commons
plegado = record {
  list_get_minimum = reducido;
  list_get_maximum = reducido;
  minimum_least = λ A key m xs p ne.
      reducido_lem A (λ a b. key a ≤ key b) (λ a. omega arith) (λ a b c h k. omega arith) m
        (picks_less A key m p) xs ne;
  maximum_greatest = λ A key m xs p ne.
      reducido_lem A (λ a b. key b ≤ key a) (λ a. omega arith) (λ a b c h k. omega arith) m
        (picks_more A key m p) xs ne;
}
