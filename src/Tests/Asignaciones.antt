-- ===== src/Tests/Asignaciones.antt =====
-- memoria.h at concrete memories: a user space of 100 bytes with one process.
use unix_os_simulation.Base.{ℕ, ◌+◌, ◌≤◌, ◌≡◌, refl, ◌⊎◌, List, [], ◌∷◌, ◌++◌, some, ok, arith, In}
use unix_os_simulation.Memoria.{Hueco, Segmento, best, Memoria}
use unix_os_simulation.Memoria.Huecos.{alojar_nuevo_hueco}
use unix_os_simulation.Memoria.Huecos.Cobertura.{cubre, cubre_rango, cubre-alojar_nuevo_hueco}
use unix_os_simulation.Memoria.Asignacion.{Codigo, alojado, alojar_en, calloc_segment, elegir_hueco}
use unix_os_simulation.Memoria.Asignacion.Cobertura.{IsTiled, EsElegido, calloc_segment-IsTiled}
use unix_os_simulation.Memoria.Asignacion.Eleccion.{
  Significa, calloc_segment-Significa, calloc_segment-EsElegido,
}
use unix_os_simulation.Memoria.Tablas.{Respuesta, create_segment, delete_segment, exit_process}
use unix_os_simulation.Tests.{plegado}

-- The shared segment of 16 bytes, one of 20 bytes at 40, and the holes around it.
abbrev pub compartido : Segmento
compartido = record { id = 0; base = 0; limite = 16 }

abbrev pub propio : Segmento
propio = record { id = 1; base = 40; limite = 20 }

abbrev pub abajo : Hueco
abajo = record { pos = 16; size = 24 }

abbrev pub arriba : Hueco
arriba = record { pos = 60; size = 40 }

abbrev pub memoria : Memoria
memoria = record {
  tam_memoria = 100;
  algoritmo = best;
  huecos_libres = arriba ∷ abajo ∷ [];
  segmentos = (1, propio) ∷ (0, compartido) ∷ [];
  proximo = 2;
  tabla_inicial = 0 ∷ [];
  tablas = (7, 0 ∷ 1 ∷ []) ∷ [];
  user_space = λ x. 0;
}

pub memoria-IsTiled : IsTiled memoria
unfolding cubre_rango
memoria-IsTiled x = ground arith

-- The memory after a new segment of 10 bytes.
abbrev con_nuevo : Memoria
con_nuevo = record memoria {
  huecos_libres = arriba ∷ record { pos = 26; size = 14 } ∷ [];
  segmentos = (2, record { id = 2; base = 16; limite = 10 }) ∷ (1, propio) ∷ (0, compartido) ∷ [];
  proximo = 3;
}

calloc_segment-IsTiled_example :
    (codigo : Codigo) × (tabla' : List ℕ) × (m' : Memoria) × (calloc_segment plegado memoria
        (0 ∷ 1 ∷ [])
        2
        10
      ≡ ok (codigo, tabla', m'))
    × IsTiled m'
    × (m'.tam_memoria ≡ 100)
calloc_segment-IsTiled_example =
    calloc_segment-IsTiled plegado memoria (0 ∷ 1 ∷ []) 2 10 refl memoria-IsTiled

calloc_segment-Significa_example :
    (codigo : Codigo) × (tabla' : List ℕ) × (m' : Memoria) × (calloc_segment plegado memoria
        (0 ∷ 1 ∷ [])
        2
        50
      ≡ ok (codigo, tabla', m'))
    × Significa codigo (arriba ∷ abajo ∷ []) 50
    × ((codigo ≡ alojado) ⊎ ((tabla' ≡ 0 ∷ 1 ∷ []) × (m' ≡ memoria)))
calloc_segment-Significa_example = calloc_segment-Significa plegado memoria (0 ∷ 1 ∷ []) 2 50 refl

calloc_nuevo :
    calloc_segment plegado memoria (0 ∷ 1 ∷ []) 2 10 ≡ ok (alojado, 0 ∷ 1 ∷ 2 ∷ [], con_nuevo)
unfolding calloc_segment alojar_en elegir_hueco
calloc_nuevo = refl

calloc_segment-EsElegido_example :
    (h : Hueco) × In h (arriba ∷ abajo ∷ [])
    × (10 ≤ h.size)
    × EsElegido best (arriba ∷ abajo ∷ []) 10 h
    × (◌≡◌ {A = List ℕ} (0 ∷ 1 ∷ 2 ∷ []) ((0 ∷ 1 ∷ []) ++ 2 ∷ []))
    × (con_nuevo.segmentos ≡ (2, record { id = 2; base = h.pos; limite = 10 }) ∷ memoria.segmentos)
calloc_segment-EsElegido_example =
    calloc_segment-EsElegido plegado memoria con_nuevo (0 ∷ 1 ∷ []) (0 ∷ 1 ∷ 2 ∷ []) 2 10 refl
      calloc_nuevo

abbrev tras_crear : Memoria
tras_crear = record con_nuevo { tablas = (7, 0 ∷ 1 ∷ 2 ∷ []) ∷ [] }

abbrev creado : Respuesta
creado = record {
  rflag = alojado;
  tabla = compartido ∷ propio ∷ record { id = 2; base = 16; limite = 10 } ∷ [];
}

create_nuevo : create_segment plegado memoria 7 2 10 ≡ ok (creado, tras_crear)
unfolding create_segment calloc_segment elegir_hueco alojar_en
create_nuevo = refl

abbrev tras_borrar : Memoria
tras_borrar = record memoria {
  huecos_libres = record { pos = 16; size = 84 } ∷ [];
  segmentos = (0, compartido) ∷ [];
  tablas = (7, 0 ∷ []) ∷ [];
}

borrar_propio :
    delete_segment memoria 7 1
    ≡ ok (some (record { rflag = alojado; tabla = compartido ∷ [] }), tras_borrar)
unfolding delete_segment alojar_nuevo_hueco
borrar_propio = refl

abbrev tras_salir : Memoria
tras_salir = record memoria {
  huecos_libres = record { pos = 16; size = 84 } ∷ [];
  segmentos = (0, compartido) ∷ [];
  tablas = [];
}

salir : exit_process memoria 7 ≡ ok tras_salir
unfolding exit_process alojar_nuevo_hueco
salir = refl

cubre-alojar_nuevo_hueco_example :
    cubre 45 (alojar_nuevo_hueco (arriba ∷ abajo ∷ []) 40 20)
    ≡ cubre 45 (arriba ∷ abajo ∷ []) + cubre_rango 45 40 20
cubre-alojar_nuevo_hueco_example = cubre-alojar_nuevo_hueco 45 (arriba ∷ abajo ∷ []) 40 20
