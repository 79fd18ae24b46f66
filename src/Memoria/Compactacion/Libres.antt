-- ===== src/Memoria/Compactacion/Libres.antt =====
-- memoria.h: how much is free before and after `alojar_nuevo_hueco` and a move of the compaction.
use unix_os_simulation.Base.{
  ℕ, ◌+◌, ◌<◌, ◌≡◌, ◌≢◌, ap, inl, inr, Bool, List, [], ◌∷◌, ◌++◌, some, arith, In, list_find,
  list_update, list_remove, Option-cases,
}
use unix_os_simulation.Memoria.{Hueco, Segmento, Memoria}
use unix_os_simulation.Memoria.Huecos.{
  alojar_nuevo_hueco, crear_hueco_libre, es_adyacente_inferior, es_adyacente_superior, expandir,
  reubicar,
}
use unix_os_simulation.Memoria.Huecos.Cobertura.{find_superior_after}
use unix_os_simulation.Memoria.Asignacion.{es_hueco}
use unix_os_simulation.Memoria.Asignacion.Cobertura.{find_es_hueco}
use unix_os_simulation.Memoria.Asignacion.Eleccion.{espacio_libre}
use unix_os_simulation.Memoria.Compactacion.{realloc_segment}

espacio_libre-append :
    (hs ks : List Hueco) → espacio_libre (hs ++ ks) ≡ espacio_libre hs + espacio_libre ks
espacio_libre-append [] ks = omega arith
espacio_libre-append (h ∷ hs) ks = omega (arith, espacio_libre-append hs ks)

espacio_libre-list_update :
    (p : Hueco → Bool) (f : Hueco → Hueco) (hs : List Hueco) (h : Hueco)
    → list_find p hs ≡ some h
    → espacio_libre (list_update p f hs) + h.size ≡ espacio_libre hs + (f h).size
espacio_libre-list_update p f [] h e = cc
espacio_libre-list_update p f (k ∷ hs) h e = ground (arith, espacio_libre-list_update p f hs h)

espacio_libre-list_remove :
    (p : Hueco → Bool) (hs : List Hueco) (h : Hueco)
    → list_find p hs ≡ some h
    → espacio_libre (list_remove p hs) + h.size ≡ espacio_libre hs
espacio_libre-list_remove p [] h e = cc
espacio_libre-list_remove p (k ∷ hs) h e = ground (arith, espacio_libre-list_remove p hs h)

pub espacio_libre-alojar_nuevo_hueco :
    (hs : List Hueco) (b n : ℕ) → espacio_libre (alojar_nuevo_hueco hs b n) ≡ espacio_libre hs + n
unfolding alojar_nuevo_hueco crear_hueco_libre
espacio_libre-alojar_nuevo_hueco hs b n =
    elim (Option-cases (list_find (es_adyacente_inferior b) hs)) [
      | inl ei ↦ elim (Option-cases (list_find (es_adyacente_superior b n) hs)) [
        | inl es ↦
            rw (ei, es, alojar_nuevo_hueco)
              (omega (arith, espacio_libre-append hs (record { pos = b; size = n } ∷ [])))
        | inr (u, es) ↦
            rw (ei, es, alojar_nuevo_hueco)
              (omega (
                arith,
                espacio_libre-list_update (es_adyacente_superior b n) (reubicar b n) hs u es,
              ))
      ]
      | inr (i, ei) ↦ elim (Option-cases (list_find (es_adyacente_superior b n) hs)) [
        | inl es ↦
            rw (ei, es, alojar_nuevo_hueco)
              (omega
                (arith, espacio_libre-list_update (es_adyacente_inferior b) (expandir n) hs i ei))
        | inr (u, es) ↦
            rw (ei, es, alojar_nuevo_hueco)
              (omega (
                arith,
                espacio_libre-list_remove (es_adyacente_superior b n) _ u
                    (find_superior_after 0 b n hs u es),
                espacio_libre-list_update (es_adyacente_inferior b) (expandir (n + u.size)) hs i ei,
              ))
      ]
    ]

pub espacio_libre-realloc_segment :
    (m : Memoria) (p : ℕ) (s : Segmento) (h : Hueco)
    → In h m.huecos_libres
    → espacio_libre (realloc_segment m p s h).huecos_libres ≡ espacio_libre m.huecos_libres
unfolding realloc_segment
espacio_libre-realloc_segment m p s h i = omega (
  arith,
  espacio_libre-alojar_nuevo_hueco (list_remove (es_hueco h) m.huecos_libres) (h.pos + s.limite)
      h.size,
  espacio_libre-list_remove (es_hueco h) m.huecos_libres h (find_es_hueco h m.huecos_libres i),
)

-- A freed range leaves some hole.
pub alojar_nuevo_hueco-ne-nil : (hs : List Hueco) (b n : ℕ) → 0 < n → alojar_nuevo_hueco hs b n ≢ []
alojar_nuevo_hueco-ne-nil hs b n l e =
    let c = ap espacio_libre e in omega (arith, c, espacio_libre-alojar_nuevo_hueco hs b n)
