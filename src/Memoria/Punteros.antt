-- ===== src/Memoria/Punteros.antt =====
-- How often an address stands in the heap of segments and in the tables of the processes.
use unix_os_simulation.Base.{
  ℕ, ◌+◌, ◌≤◌, ◌<◌, ◌≡◌, ◌≢◌, refl, ◌⊎◌, inl, inr, List, [], ◌∷◌, ◌++◌, none, some, Bool-cases,
  arith, ◌==◌, if◌then◌else◌, In,
}
use unix_os_simulation.Memoria.{lookup, put, remove}
use unix_os_simulation.Memoria.Compactacion.{tabla_global}

abbrev pub uno : ℕ → ℕ → ℕ
uno p q = if p == q then 1 else 0

abbrev pub veces : ℕ → List ℕ → ℕ
veces p [] = 0
veces p (q ∷ qs) = uno p q + veces p qs

abbrev pub claves {ℓ} : {V : Type ℓ} → List (ℕ × V) → List ℕ
claves [] = []
claves ((k, v) ∷ d) = k ∷ claves d

pub veces-append : (p : ℕ) (xs ys : List ℕ) → veces p (xs ++ ys) ≡ veces p xs + veces p ys
veces-append p [] ys = omega arith
veces-append p (x ∷ xs) ys = omega (arith, veces-append p xs ys)

pub veces-In : (p : ℕ) (xs : List ℕ) → In p xs → 0 < veces p xs
veces-In p [] i = absurd i
veces-In p (x ∷ xs) i = ground (arith, veces-In p xs)

pub In-veces : (p : ℕ) (xs : List ℕ) → 0 < veces p xs → In p xs
In-veces p [] l = absurd (omega arith)
In-veces p (x ∷ xs) l = ground (arith, In-veces p xs)

module _ {V : Type 0} where
  pub lookup-veces :
      (p : ℕ) (d : List (ℕ × V)) → 0 < veces p (claves d) → (v : V) × (lookup p d ≡ some v)
  lookup-veces p [] l = absurd (omega arith)
  lookup-veces p ((k, v) ∷ d) l = elim (Bool-cases (k == p)) [
    | inl e ↦ (v, rw (e) refl)
    | inr e ↦ let (w, q) = lookup-veces p d (ground arith) in (w, rw (e) q)
  ]

  pub veces-lookup :
      (p : ℕ) (d : List (ℕ × V)) (v : V) → lookup p d ≡ some v → 0 < veces p (claves d)
  veces-lookup p [] v e = cc
  veces-lookup p ((k, w) ∷ d) v e = ground (arith, veces-lookup p d v)

  pub In-lookup : (p : ℕ) (d : List (ℕ × V)) (v : V) → lookup p d ≡ some v → In (p, v) d
  In-lookup p [] v e = cc
  In-lookup p ((k, w) ∷ d) v e = ground (arith, In-lookup p d v)

  pub In-claves : (e : ℕ × V) (d : List (ℕ × V)) → In e d → 0 < veces e.0 (claves d)
  In-claves e [] i = absurd i
  In-claves e (x ∷ d) i = ground (arith, In-claves e d)

  -- With different keys the first entry that fits is the only one.
  pub lookup-In :
      (e : ℕ × V) (d : List (ℕ × V))
      → ((p : ℕ) → veces p (claves d) ≤ 1)
      → In e d
      → lookup e.0 d ≡ some e.1
  lookup-In e [] u i = absurd i
  lookup-In e ((k, v) ∷ d) u (inl q) = ground arith
  lookup-In e ((k, v) ∷ d) u (inr i) =
      let l = In-claves e d i in
      let r = lookup-In e d (λ p. ground (arith, u p)) i in ground (arith, u e.0)

  pub claves-put :
      (p : ℕ) (v w : V) (d : List (ℕ × V)) → lookup p d ≡ some v → claves (put p w d) ≡ claves d
  claves-put p v w [] e = cc
  claves-put p v w ((k, x) ∷ d) e = ground (arith, claves-put p v w d)

  pub In-put :
      (p : ℕ) (v w : V) (d : List (ℕ × V)) (e : ℕ × V)
      → lookup p d ≡ some v
      → In e (put p w d)
      → In e d ⊎ (e ≡ (p, w))
  In-put p v w [] e f i = cc
  In-put p v w ((k, x) ∷ d) e f i = ground (arith, In-put p v w d e)

  pub In-put_new :
      (p : ℕ) (w : V) (d : List (ℕ × V)) (e : ℕ × V) → In e (put p w d) → In e d ⊎ (e ≡ (p, w))
  In-put_new p w [] e i = ground arith
  In-put_new p w ((k, x) ∷ d) e i = ground (arith, In-put_new p w d e)

  pub In-remove : (p : ℕ) (d : List (ℕ × V)) (e : ℕ × V) → In e (remove p d) → In e d
  In-remove p [] e i = i
  In-remove p ((k, x) ∷ d) e i = ground (arith, In-remove p d e)

  pub veces-remove :
      (p q : ℕ) (v : V) (d : List (ℕ × V))
      → lookup p d ≡ some v
      → veces q (claves (remove p d)) + uno q p ≡ veces q (claves d)
  veces-remove p q v [] e = cc
  veces-remove p q v ((k, x) ∷ d) e = ground (arith, veces-remove p q v d)

  pub lookup-put_self : (p : ℕ) (w : V) (d : List (ℕ × V)) → lookup p (put p w d) ≡ some w
  lookup-put_self p w [] = ground arith
  lookup-put_self p w ((k, x) ∷ d) = ground (arith, lookup-put_self p w d)

  pub lookup-put_ne :
      (p q : ℕ) (w : V) (d : List (ℕ × V)) → p ≢ q → lookup q (put p w d) ≡ lookup q d
  lookup-put_ne p q w [] n = ground arith
  lookup-put_ne p q w ((k, x) ∷ d) n = ground (arith, lookup-put_ne p q w d n)

  pub lookup-remove_ne : (p q : ℕ) (d : List (ℕ × V)) → p ≢ q → lookup q (remove p d) ≡ lookup q d
  lookup-remove_ne p q [] n = refl
  lookup-remove_ne p q ((k, x) ∷ d) n = ground (arith, lookup-remove_ne p q d n)

-- The pointers of all tables together.
pub veces-tabla_global-put :
    (p pid : ℕ) (t u : List ℕ) (ts : List (ℕ × List ℕ))
    → lookup pid ts ≡ some t
    → veces p (tabla_global (put pid u ts)) + veces p t ≡ veces p (tabla_global ts) + veces p u
unfolding tabla_global
veces-tabla_global-put p pid t u [] e = cc
veces-tabla_global-put p pid t u ((k, x) ∷ ts) e = ground (
  arith,
  veces-tabla_global-put p pid t u ts,
  veces-append p x (tabla_global ts),
  veces-append p u (tabla_global ts),
  veces-append p x (tabla_global (put pid u ts)),
)

pub veces-tabla_global-new :
    (p pid : ℕ) (u : List ℕ) (ts : List (ℕ × List ℕ))
    → lookup pid ts ≡ none
    → veces p (tabla_global (put pid u ts)) ≡ veces p (tabla_global ts) + veces p u
unfolding tabla_global
veces-tabla_global-new p pid u [] e = omega (arith, veces-append p u [])
veces-tabla_global-new p pid u ((k, x) ∷ ts) e = ground (
  arith,
  veces-tabla_global-new p pid u ts,
  veces-append p x (tabla_global ts),
  veces-append p x (tabla_global (put pid u ts)),
)

pub veces-tabla_global-remove :
    (p pid : ℕ) (t : List ℕ) (ts : List (ℕ × List ℕ))
    → lookup pid ts ≡ some t
    → veces p (tabla_global (remove pid ts)) + veces p t ≡ veces p (tabla_global ts)
unfolding tabla_global
veces-tabla_global-remove p pid t [] e = cc
veces-tabla_global-remove p pid t ((k, x) ∷ ts) e = ground (
  arith,
  veces-tabla_global-remove p pid t ts,
  veces-append p x (tabla_global ts),
  veces-append p t (tabla_global ts),
  veces-append p x (tabla_global (remove pid ts)),
)

pub In-tabla_global :
    (p : ℕ) (e : ℕ × List ℕ) (ts : List (ℕ × List ℕ))
    → In e ts
    → veces p e.1 ≤ veces p (tabla_global ts)
unfolding tabla_global
In-tabla_global p e [] i = absurd i
In-tabla_global p e ((k, x) ∷ ts) (inl q) = rw q (omega (arith, veces-append p x (tabla_global ts)))
In-tabla_global p e ((k, x) ∷ ts) (inr i) =
    omega (arith, In-tabla_global p e ts i, veces-append p x (tabla_global ts))
