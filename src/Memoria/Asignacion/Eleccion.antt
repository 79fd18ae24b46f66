-- ===== src/Memoria/Asignacion/Eleccion.antt =====
-- Which hole `calloc_segment` takes, and which code it answers.
use unix_os_simulation.Base.{
  ℕ, ◌+◌, ◌≤◌, ◌<◌, ◌≡◌, refl, ◌⊎◌, inl, inr, true, List, [], ◌∷◌, ◌++◌, ok, arith, leb, In,
  Bool-cases,
}
use unix_os_simulation.Commons.{Commons}
use unix_os_simulation.Memoria.{Hueco, Memoria}
use unix_os_simulation.Memoria.Asignacion.{
  Codigo, alojado, falta_compactar, sin_espacio, sumar_sizes, alojar_en, calloc_segment, conocido,
  codigo_rechazo,
}
use unix_os_simulation.Memoria.Asignacion.Cobertura.{EsElegido, calloc_segment_cases}

-- The free bytes, all holes together.
abbrev pub espacio_libre : List Hueco → ℕ
espacio_libre [] = 0
espacio_libre (h ∷ hs) = h.size + espacio_libre hs

pub sumar_sizes-eq : (acc : ℕ) (hs : List Hueco) → sumar_sizes acc hs ≡ acc + espacio_libre hs
unfolding sumar_sizes
sumar_sizes-eq acc [] = omega arith
sumar_sizes-eq acc (h ∷ hs) = omega (arith, sumar_sizes-eq (acc + h.size) hs)

In-le-espacio_libre : (h : Hueco) (hs : List Hueco) → In h hs → h.size ≤ espacio_libre hs
In-le-espacio_libre h [] i = absurd i
In-le-espacio_libre h (k ∷ hs) i = ground (arith, In-le-espacio_libre h hs)

-- What the codes 0, 1 and -1 promise: some hole fits; none does, but together they would; they
-- would not even together.
abbrev pub Significa : Codigo → List Hueco → ℕ → Type 0
Significa alojado hs size = (h : Hueco) × In h hs × (size ≤ h.size)
Significa falta_compactar hs size =
    ((h : Hueco) → In h hs → h.size < size) × (size ≤ espacio_libre hs)
Significa sin_espacio hs size = espacio_libre hs < size

rechazo-Significa :
    (hs : List Hueco) (size : ℕ)
    → ((h : Hueco) → In h hs → h.size < size)
    → Significa (codigo_rechazo hs size) hs size
rechazo-Significa hs size no_fit = elim (Bool-cases (leb size (sumar_sizes 0 hs))) [
  | inl e ↦ rw e (no_fit, ground (arith, sumar_sizes-eq 0 hs))
  | inr e ↦ rw e (ground (arith, sumar_sizes-eq 0 hs))
]

-- Under a known algorithm calloc_segment returns, and its code means what it says: 0 that some hole
-- is large enough, 1 that none is but all holes together are, -1 that all holes together are too
-- small; unless it is 0, the table and the memory are unchanged.
pub calloc_segment-Significa :
    (c : Commons) (m : Memoria) (tabla : List ℕ) (id size : ℕ)
    → conocido m.algoritmo ≡ true
    → (codigo : Codigo) × (tabla' : List ℕ) × (m' : Memoria) × (calloc_segment c m tabla id size
        ≡ ok (codigo, tabla', m'))
      × Significa codigo m.huecos_libres size
      × ((codigo ≡ alojado) ⊎ ((tabla' ≡ tabla) × (m' ≡ m)))
unfolding alojar_en
calloc_segment-Significa c m tabla id size k = elim (calloc_segment_cases c m tabla id size k) [
  | inl (no_fit, e) ↦ (_, _, _, e, rechazo-Significa _ size no_fit, inr (refl, refl))
  | inr (h, i, le, _, e) ↦ (_, _, _, e, (h, i, le), inl refl)
]

-- Under a known algorithm, when calloc_segment answers 0, the new segment starts at a hole that
-- fits and that the algorithm asks for (a smallest one for BEST, the lowest for FIRST, a largest
-- for WORST), has the ID and the size asked for, and is linked at the end of the table.
pub calloc_segment-EsElegido :
    (c : Commons) (m m' : Memoria) (tabla tabla' : List ℕ) (id size : ℕ)
    → conocido m.algoritmo ≡ true
    → calloc_segment c m tabla id size ≡ ok (alojado, tabla', m')
    → (h : Hueco) × In h m.huecos_libres
      × (size ≤ h.size)
      × EsElegido m.algoritmo m.huecos_libres size h
      × (tabla' ≡ tabla ++ m.proximo ∷ [])
      × (m'.segmentos ≡ (m.proximo, record { id = id; base = h.pos; limite = size }) ∷ m.segmentos)
unfolding alojar_en
calloc_segment-EsElegido c m m' tabla tabla' id size k e =
    elim (calloc_segment_cases c m tabla id size k) [
      | inl (no_fit, f) ↦ ground arith
      | inr (h, i, le, mejor, f) ↦ (h, i, le, mejor, ground arith, ground arith)
    ]
