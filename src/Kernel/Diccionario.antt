-- ===== src/Kernel/Diccionario.antt =====
-- The dictionaries of the kernel as association lists, and the sum of a weight over their values.
pub mod Claves
use unix_os_simulation.Base.{
  ℕ, ◌+◌, ◌≤◌, ◌≡◌, Bool, true, List, [], ◌∷◌, Option, none, some, if◌then◌else◌, arith,
}

module _ {K V : Type 0} (eq : K → K → Bool) where
  abbrev pub dictionary_get : K → List (K × V) → Option V
  dictionary_get k [] = none
  dictionary_get k ((j, v) ∷ d) = if eq j k then some v else dictionary_get k d

  abbrev pub dictionary_put : K → V → List (K × V) → List (K × V)
  dictionary_put k v [] = (k, v) ∷ []
  dictionary_put k v ((j, w) ∷ d) = if eq j k then (j, v) ∷ d else (j, w) ∷ dictionary_put k v d

  abbrev pub dictionary_remove : K → List (K × V) → List (K × V)
  dictionary_remove k [] = []
  dictionary_remove k ((j, w) ∷ d) = if eq j k then d else (j, w) ∷ dictionary_remove k d

  -- The sum of a weight over the values.
  abbrev pub suma : (V → ℕ) → List (K × V) → ℕ
  suma w [] = 0
  suma w ((k, v) ∷ d) = w v + suma w d

  pub suma-put_new :
      (w : V → ℕ) (k : K) (v : V) (d : List (K × V))
      → dictionary_get k d ≡ none
      → suma w (dictionary_put k v d) ≡ suma w d + w v
  suma-put_new w k v [] h = omega arith
  suma-put_new w k v ((j, u) ∷ d) h = ground (arith, suma-put_new w k v d)

  pub suma-put :
      (w : V → ℕ) (k : K) (v u : V) (d : List (K × V))
      → dictionary_get k d ≡ some u
      → suma w (dictionary_put k v d) + w u ≡ suma w d + w v
  suma-put w k v u [] h = cc
  suma-put w k v u ((j, x) ∷ d) h = ground (arith, suma-put w k v u d)

  pub suma-put_le :
      (w : V → ℕ) (k : K) (v : V) (d : List (K × V))
      → suma w (dictionary_put k v d) ≤ suma w d + w v
  suma-put_le w k v [] = omega arith
  suma-put_le w k v ((j, x) ∷ d) = ground (arith, suma-put_le w k v d)

  pub suma-remove :
      (w : V → ℕ) (k : K) (u : V) (d : List (K × V))
      → dictionary_get k d ≡ some u
      → suma w (dictionary_remove k d) + w u ≡ suma w d
  suma-remove w k u [] h = cc
  suma-remove w k u ((j, x) ∷ d) h = ground (arith, suma-remove w k u d)

  -- The value that was put is found.
  pub get-put :
      (k : K) (v : V) (d : List (K × V))
      → eq k k ≡ true
      → dictionary_get k (dictionary_put k v d) ≡ some v
  get-put k v [] h = ground arith
  get-put k v ((j, u) ∷ d) h = ground (arith, get-put k v d h)
