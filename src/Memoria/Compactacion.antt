-- ===== src/Memoria/Compactacion.antt =====
-- Memoria/src/memoria.h: `compactar_segmentos`, `realloc_segment` and the message of
-- `enviar_tablas_actualizadas`. The loop runs on fuel; `none` means that the fuel ran out.
pub mod Contenido
pub mod Adyacencia
pub mod Terminacion
pub mod Libres
use unix_os_simulation.Base.{
  ℕ, zero, suc, ◌+◌, ◌-◌, ◌≡◌, Bool, ◌&&◌, List, [], ◌∷◌, ◌++◌, Option, none, some, Outcome, ok,
  exits, faults, deref, ◌>>=◌, ltb, leb, if◌then◌else◌, list_filter, list_remove,
}
use unix_os_simulation.Commons.{Commons}
use unix_os_simulation.Memoria.{Hueco, Segmento, Memoria, lookup, put, resolver}
use unix_os_simulation.Memoria.Huecos.{alojar_nuevo_hueco}
use unix_os_simulation.Memoria.Asignacion.{menor_base, es_hueco}

-- The byte `' '`.
abbrev pub espacio : ℕ
espacio = b' '

unfoldable pub memmove : (ℕ → ℕ) → ℕ → ℕ → ℕ → ℕ → ℕ
memmove us dst src n x = if leb dst x && ltb x (dst + n) then us (src + (x - dst)) else us x

unfoldable pub memset : (ℕ → ℕ) → ℕ → ℕ → ℕ → ℕ → ℕ
memset us dst v n x = if leb dst x && ltb x (dst + n) then v else us x

-- The bytes of the segment go to the hole, and its old place is blanked.
unfoldable pub mover_bloque : (ℕ → ℕ) → Hueco → Segmento → ℕ → ℕ
unfolding memmove memset
mover_bloque us h s = memset (memmove us h.pos s.base s.limite) s.base espacio s.limite

unfoldable pub realloc_segment : Memoria → ℕ → Segmento → Hueco → Memoria
realloc_segment m p s h = record m {
  huecos_libres =
      alojar_nuevo_hueco (list_remove (es_hueco h) m.huecos_libres) (h.pos + s.limite) h.size;
  segmentos = put p (record s { base = h.pos }) m.segmentos;
}

-- The pointers of the global table with the segments behind them.
abbrev pub entradas : List (ℕ × Segmento) → List ℕ → Outcome (List (ℕ × Segmento))
entradas h [] = ok []
entradas h (p ∷ ps) = do s ← deref (lookup p h); es ← entradas h ps; ok ((p, s) ∷ es)

abbrev pub base_mayor_a_hueco : Hueco → ℕ × Segmento → Bool
base_mayor_a_hueco h e = ltb h.pos (e.1).base

abbrev pub menor_base_s : ℕ × Segmento → ℕ × Segmento → ℕ × Segmento
menor_base_s a b = if leb (a.1).base (b.1).base then a else b

-- Both ranges must lie in the block that `malloc` gave for the user space.
abbrev pub en_espacio : Memoria → ℕ → ℕ → Bool
en_espacio m pos n = leb (pos + n) m.tam_memoria

-- One turn of the loop; `none` is the `break`. With no hole at all the closure follows a null
-- pointer as soon as there is a segment.
unfoldable pub compactar_paso : Commons → List ℕ → Memoria → Outcome (Option Memoria)
unfolding mover_bloque realloc_segment
compactar_paso c global m = elim (c.list_get_minimum Hueco menor_base m.huecos_libres) [
  | none ↦ elim global [ [] ↦ ok none | _ ∷ _ ↦ faults ]
  | some h ↦ do
    es ← entradas m.segmentos global
    elim (list_filter (base_mayor_a_hueco h) es) [
      | [] ↦ ok none
      | u ∷ us ↦ do
        e ← deref (c.list_get_minimum (ℕ × Segmento) menor_base_s (u ∷ us))
        if en_espacio m h.pos (e.1).limite && en_espacio m (e.1).base (e.1).limite
            then ok (
                some (record (realloc_segment m e.0 e.1 h) {
                  user_space = mover_bloque m.user_space h e.1;
                }))
            else faults
    ]
]

unfoldable pub compactar_bucle : Commons → ℕ → List ℕ → Memoria → Option (Outcome Memoria)
unfolding compactar_paso
compactar_bucle c zero global m = none
compactar_bucle c (suc fuel) global m = elim (compactar_paso c global m) [
  | ok none ↦ some (ok m)
  | ok (some m') ↦ compactar_bucle c fuel global m'
  | exits ↦ some exits
  | faults ↦ some faults
]

-- `list_flatten` of `dictionary_elements`
unfoldable pub tabla_global : List (ℕ × List ℕ) → List ℕ
tabla_global [] = []
tabla_global ((pid, tabla) ∷ ts) = tabla ++ tabla_global ts

-- The PIDs with their tables, in the order of the dictionary.
unfoldable pub enviar_tablas_actualizadas :
    List (ℕ × Segmento) → List (ℕ × List ℕ) → Outcome (List (ℕ × List Segmento))
enviar_tablas_actualizadas h [] = ok []
enviar_tablas_actualizadas h ((pid, tabla) ∷ ts) = do
  segs ← resolver h tabla
  rest ← enviar_tablas_actualizadas h ts
  ok ((pid, segs) ∷ rest)

unfoldable pub compactar_segmentos :
    Commons → ℕ → Memoria → Option (Outcome (List (ℕ × List Segmento) × Memoria))
unfolding compactar_bucle tabla_global enviar_tablas_actualizadas
compactar_segmentos c fuel m = elim (compactar_bucle c fuel (tabla_global m.tablas) m) [
  | none ↦ none
  | some o ↦ some (do m' ← o; ts ← enviar_tablas_actualizadas m'.segmentos m'.tablas; ok (ts, m'))
]
