-- ===== src/Kernel/Diccionario/Claves.antt =====
-- Dictionaries whose test of keys is equality, each key at most once.
use unix_os_simulation.Base.{
  ◌≡◌, ◌≢◌, refl, sym, subst, ◌∙◌, Bool, true, false, List, [], ◌∷◌, none, inl, inr, Bool-cases,
  arith,
}
use unix_os_simulation.Kernel.Diccionario.{dictionary_get, dictionary_put, dictionary_remove}

module _ {K : Type 0} (eq : K → K → Bool) (eq_sound : (a b : K) → eq a b ≡ true → a ≡ b) where
  pub eq_other : (a b : K) → a ≢ b → eq a b ≡ false
  eq_other a b n = elim (Bool-cases (eq a b)) [ inl e ↦ absurd (n (eq_sound a b e)) | inr e ↦ e ]

module _ {K V : Type 0} (eq : K → K → Bool) where
  abbrev pub Unicas : List (K × V) → Type 0
  Unicas [] = Unit
  Unicas ((k, v) ∷ d) = (dictionary_get eq k d ≡ none) × Unicas d

module _ {K V : Type 0} (eq : K → K → Bool) (eq_refl : (a : K) → eq a a ≡ true)
    (eq_sound : (a b : K) → eq a b ≡ true → a ≡ b) where
  pub get-put_other :
      (k j : K) (v : V) (d : List (K × V))
      → k ≢ j
      → dictionary_get eq k (dictionary_put eq j v d) ≡ dictionary_get eq k d
  get-put_other k j v [] n = rw (eq_other eq eq_sound j k (λ e. n (sym e))) refl
  get-put_other k j v ((i, u) ∷ d) n = elim (Bool-cases (eq i j)) [
    | inl e ↦
        let s = eq_sound i j e in
        let f : eq i k ≡ false = eq_other eq eq_sound i k (λ c. n (sym c ∙ s)) in rw (e, f) refl
    | inr e ↦ ground (arith, e, get-put_other k j v d n)
  ]

  pub get-remove_other :
      (k j : K) (d : List (K × V))
      → k ≢ j
      → dictionary_get eq k (dictionary_remove eq j d) ≡ dictionary_get eq k d
  get-remove_other k j [] n = refl
  get-remove_other k j ((i, u) ∷ d) n = elim (Bool-cases (eq i j)) [
    | inl e ↦
        let s = eq_sound i j e in
        let f : eq i k ≡ false = eq_other eq eq_sound i k (λ c. n (sym c ∙ s)) in rw (e, f) refl
    | inr e ↦ ground (arith, e, get-remove_other k j d n)
  ]

  get-remove_none :
      (k j : K) (d : List (K × V))
      → dictionary_get eq k d ≡ none
      → dictionary_get eq k (dictionary_remove eq j d) ≡ none
  get-remove_none k j [] h = refl
  get-remove_none k j ((i, u) ∷ d) h = ground (arith, get-remove_none k j d)

  pub get-remove_self :
      (k : K) (d : List (K × V))
      → Unicas eq d
      → dictionary_get eq k (dictionary_remove eq k d) ≡ none
  get-remove_self k [] u = refl
  get-remove_self k ((i, v) ∷ d) (n, u) = elim (Bool-cases (eq i k)) [
    | inl e ↦ let s = eq_sound i k e in rw (e) (rw (sym s) n)
    | inr e ↦ ground (arith, e, get-remove_self k d u)
  ]

  pub Unicas-remove :
      (k : K) (d : List (K × V)) → Unicas eq d → Unicas eq (dictionary_remove eq k d)
  Unicas-remove k [] u = tt
  Unicas-remove k ((i, v) ∷ d) (n, u) = elim (Bool-cases (eq i k)) [
    | inl e ↦ rw (e) u
    | inr e ↦ rw (e) (get-remove_none i k d n, Unicas-remove k d u)
  ]

  pub Unicas-put :
      (k : K) (v : V) (d : List (K × V)) → Unicas eq d → Unicas eq (dictionary_put eq k v d)
  Unicas-put k v [] u = (refl, tt)
  Unicas-put k v ((i, w) ∷ d) (n, u) = elim (Bool-cases (eq i k)) [
    | inl e ↦ rw (e) (n, u)
    | inr e ↦ rw (e) (get-put_other i k v d (λ c. otra i k e c) ∙ n, Unicas-put k v d u)
  ]
    where
      otra : (i k : K) → eq i k ≡ false → i ≢ k
      otra i k e c =
          let r = eq_refl i in let f : eq i i ≡ false = subst (λ x. eq i x ≡ false) (sym c) e in cc
