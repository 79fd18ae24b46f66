-- ===== src/Memoria/Asignacion.antt =====
-- Memoria/src/memoria.h: `calloc_segment`, the three placement algorithms of the memory module.
pub mod Cobertura
pub mod Eleccion
pub mod Separacion
use unix_os_simulation.Base.{
  ℕ, suc, ◌+◌, ◌-◌, ◌≡◌, Bool, ◌&&◌, List, [], ◌∷◌, ◌++◌, Option, none, some, Outcome, ok, exits,
  deref, ◌>>=◌, ◌==◌, leb, if◌then◌else◌, list_filter, list_update, list_remove,
}
use unix_os_simulation.Commons.{Commons}
use unix_os_simulation.Memoria.{Hueco, Segmento, Algoritmo, best, first, worst, otro, Memoria}

-- The return values 0, 1 and -1 of `calloc_segment`.
pub data Codigo : Type 0 where
  alojado falta_compactar sin_espacio : Codigo

abbrev pub minimum : Hueco → Hueco → Hueco
minimum a b = if leb a.size b.size then a else b

abbrev pub maximum : Hueco → Hueco → Hueco
maximum a b = if leb b.size a.size then a else b

abbrev pub menor_base : Hueco → Hueco → Hueco
menor_base a b = if leb a.pos b.pos then a else b

abbrev pub segment_fits : ℕ → Hueco → Bool
segment_fits size a = leb size a.size

-- `list_fold` with `sumarSizes`
unfoldable pub sumar_sizes : ℕ → List Hueco → ℕ
sumar_sizes acc [] = acc
sumar_sizes acc (h ∷ hs) = sumar_sizes (acc + h.size) hs

-- Which of the useful holes is taken; `otro` never comes here.
unfoldable pub elegir_hueco : Commons → Algoritmo → List Hueco → Option Hueco
elegir_hueco c best utiles = c.list_get_minimum Hueco minimum utiles
elegir_hueco c first utiles = c.list_get_minimum Hueco menor_base utiles
elegir_hueco c worst utiles = c.list_get_maximum Hueco maximum utiles
elegir_hueco c otro utiles = none

abbrev pub es_hueco : Hueco → Hueco → Bool
es_hueco h x = (x.pos == h.pos) && (x.size == h.size)

abbrev pub recortar : ℕ → Hueco → Hueco
recortar size h = record { pos = h.pos + size; size = h.size - size }

-- The chosen hole gives up its first `size` bytes, and goes when nothing is left of it.
unfoldable pub ocupar_hueco : List Hueco → Hueco → ℕ → List Hueco
ocupar_hueco huecos h size =
    if (h.size - size) == 0
    then list_remove (es_hueco h) huecos
    else list_update (es_hueco h) (recortar size) huecos

-- A fresh segment, linked at the end of the table.
unfoldable pub allocate_segment : Memoria → List ℕ → ℕ → ℕ → ℕ → List ℕ × Memoria
allocate_segment m tabla id pos size = (
  tabla ++ m.proximo ∷ [],
  record m {
    segmentos = (m.proximo, record { id = id; base = pos; limite = size }) ∷ m.segmentos;
    proximo = suc m.proximo;
  },
)

-- No useful hole: is there enough room in all of them together?
abbrev pub codigo_rechazo : List Hueco → ℕ → Codigo
codigo_rechazo huecos size =
    if leb size (sumar_sizes 0 huecos) then falta_compactar else sin_espacio

unfoldable pub alojar_en : Memoria → List ℕ → ℕ → ℕ → Hueco → Codigo × List ℕ × Memoria
unfolding allocate_segment ocupar_hueco
alojar_en m tabla id size h =
    let (tabla', m') = allocate_segment m tabla id h.pos size in
    (alojado, tabla', record m' { huecos_libres = ocupar_hueco m.huecos_libres h size })

abbrev pub conocido : Algoritmo → Bool
conocido otro = Bool.false
conocido _ = Bool.true

-- The code, the table and the memory after the call. An unknown algorithm ends the module.
unfoldable pub calloc_segment :
    Commons → Memoria → List ℕ → ℕ → ℕ → Outcome (Codigo × List ℕ × Memoria)
calloc_segment c m tabla id size =
    if conocido m.algoritmo
    then elim (list_filter (segment_fits size) m.huecos_libres) [
      | [] ↦ ok (codigo_rechazo m.huecos_libres size, tabla, m)
      | u ∷ us ↦ do
        h ← deref (elegir_hueco c m.algoritmo (u ∷ us))
        ok (alojar_en m tabla id size h)
    ]
    else exits
