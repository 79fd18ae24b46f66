-- ===== src/Memoria/Huecos.antt =====
-- Memoria/src/memoria.h: the list of free holes, `iniciar_lista_huecos_libres`,
-- `crear_hueco_libre` and `alojar_nuevo_hueco`.
pub mod Cobertura
pub mod Separacion
use unix_os_simulation.Base.{
  ℕ, ◌+◌, Bool, List, [], ◌∷◌, ◌++◌, Option, none, some, ◌==◌, list_find, list_update, list_remove,
}
use unix_os_simulation.Memoria.{Hueco}

unfoldable pub iniciar_lista_huecos_libres : ℕ → List Hueco
iniciar_lista_huecos_libres tam = record { pos = 0; size = tam } ∷ []

unfoldable pub crear_hueco_libre : List Hueco → ℕ → ℕ → List Hueco
crear_hueco_libre huecos pos size = huecos ++ record { pos = pos; size = size } ∷ []

abbrev pub es_adyacente_inferior : ℕ → Hueco → Bool
es_adyacente_inferior nueva_base a = (a.pos + a.size) == nueva_base

abbrev pub es_adyacente_superior : ℕ → ℕ → Hueco → Bool
es_adyacente_superior nueva_base nuevo_limite a = (nueva_base + nuevo_limite) == a.pos

abbrev pub expandir : ℕ → Hueco → Hueco
expandir n h = record h { size = h.size + n }

abbrev pub reubicar : ℕ → ℕ → Hueco → Hueco
reubicar pos n h = record { pos = pos; size = h.size + n }

-- A pointer that `list_find` returned is the first element that satisfies the condition: writing
-- through it is `list_update`, and `list_remove_element` of it is `list_remove`.
unfoldable pub alojar_nuevo_hueco : List Hueco → ℕ → ℕ → List Hueco
unfolding crear_hueco_libre
alojar_nuevo_hueco huecos nueva_base nuevo_limite =
    let inferior = es_adyacente_inferior nueva_base in
    let superior = es_adyacente_superior nueva_base nuevo_limite in
    elim (list_find inferior huecos) [
      | some i ↦ elim (list_find superior huecos) [
        | some s ↦
            list_remove superior (list_update inferior (expandir (nuevo_limite + s.size)) huecos)
        | none ↦ list_update inferior (expandir nuevo_limite) huecos
      ]
      | none ↦ elim (list_find superior huecos) [
        | some s ↦ list_update superior (reubicar nueva_base nuevo_limite) huecos
        | none ↦ crear_hueco_libre huecos nueva_base nuevo_limite
      ]
    ]
