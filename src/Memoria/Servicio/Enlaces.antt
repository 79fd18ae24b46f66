-- ===== src/Memoria/Servicio/Enlaces.antt =====
-- How the tables and the heap of segments hang together.
use unix_os_simulation.Base.{
  ℕ, ◌+◌, ◌≤◌, ◌<◌, ◌≡◌, ◌≢◌, refl, inl, inr, List, [], ◌∷◌, some, ok, ◌>>=◌, arith, ◌==◌, In,
  Bool-cases, ==_iff,
}
use unix_os_simulation.Memoria.{Segmento, Memoria, lookup, resolver}
use unix_os_simulation.Memoria.Huecos.Separacion.{IsSeparada}
use unix_os_simulation.Memoria.Asignacion.Cobertura.{IsTiled}
use unix_os_simulation.Memoria.Compactacion.{tabla_global}
use unix_os_simulation.Memoria.Punteros.{veces, claves, lookup-veces, veces-In, In-tabla_global}

-- The address of the segment that `main` allocates, the first of all.
abbrev pub segmento_0 : ℕ
segmento_0 = 0

-- A table starts with the shared segment, and has it once.
abbrev pub Encabezada : List ℕ → Type 0
Encabezada t = (ps : List ℕ) × (t ≡ segmento_0 ∷ ps) × (veces segmento_0 ps ≡ 0)

-- Every byte belongs to one hole or segment, the holes lie apart, no segment is empty; the shared
-- segment is the lowest, every table starts with it, and every other segment stands in exactly one
-- table, once; or, while a request is served, in the list of those that are still to be freed.
pub record IsEnlazada (ps : List ℕ) (m : Memoria) : Type 0 where
  pub tiled : IsTiled m
  pub separada : IsSeparada m.huecos_libres
  pub llenos : (e : ℕ × Segmento) → In e m.segmentos → 0 < (e.1).limite
  pub unicas : (p : ℕ) → veces p (claves m.segmentos) ≤ 1
  pub frescas : (p : ℕ) → m.proximo ≤ p → veces p (claves m.segmentos) ≡ 0
  pub s0 : Segmento
  pub inicial : m.tabla_inicial ≡ segmento_0 ∷ []
  pub vive : lookup segmento_0 m.segmentos ≡ some s0
  pub abajo : s0.base ≡ 0
  pub cero : s0.id ≡ 0
  pub cabezas : (e : ℕ × List ℕ) → In e m.tablas → Encabezada e.1
  pub contados :
      (p : ℕ)
      → p ≢ segmento_0
      → veces p (tabla_global m.tablas) + veces p ps ≡ veces p (claves m.segmentos)

abbrev pub Vivos : List (ℕ × Segmento) → List ℕ → Type 0
Vivos h ps = (p : ℕ) → In p ps → (s : Segmento) × (lookup p h ≡ some s)

pub resolver-Vivos :
    (h : List (ℕ × Segmento)) (ps : List ℕ)
    → Vivos h ps
    → (ss : List Segmento) × (resolver h ps ≡ ok ss)
resolver-Vivos h [] v = ([], refl)
resolver-Vivos h (p ∷ ps) v =
    let (s, e) = v p (inl refl) in
    let (ss, f) = resolver-Vivos h ps (λ q i. v q (inr i)) in (s ∷ ss, rw (e, ◌>>=◌, f) refl)

-- Every pointer of a table leads to a segment.
pub tabla-Vivos :
    (ps : List ℕ) (m : Memoria) (e : ℕ × List ℕ)
    → IsEnlazada ps m
    → In e m.tablas
    → Vivos m.segmentos e.1
tabla-Vivos ps m e v i p ip = elim (Bool-cases (p == segmento_0)) [
  | inl q ↦ (v.s0, rw ((==_iff p segmento_0).0 q) v.vive)
  | inr q ↦ lookup-veces p m.segmentos (
      omega (arith, veces-In p e.1 ip, In-tabla_global p e m.tablas i, v.contados p (ground arith)))
]
