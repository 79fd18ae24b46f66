-- ===== src/Tests/Compactaciones.antt =====
-- The memory module with a hole of one byte and a hole of two, where a segment of three bytes needs a
-- compaction.
use unix_os_simulation.Base.{ℕ, ◌≡◌, refl, inl, inr, List, [], ◌∷◌, some, ok, Outcome, arith}
use unix_os_simulation.Memoria.{Segmento, Memoria, first}
use unix_os_simulation.Memoria.Huecos.Cobertura.{cubre_rango}
use unix_os_simulation.Memoria.Asignacion.{
  calloc_segment, falta_compactar, elegir_hueco, sumar_sizes,
}
use unix_os_simulation.Memoria.Asignacion.Cobertura.{IsTiled}
use unix_os_simulation.Memoria.Compactacion.{compactar_segmentos, tabla_global, espacio}
use unix_os_simulation.Memoria.Compactacion.Terminacion.{compactar_segmentos-termina}
use unix_os_simulation.Memoria.Tablas.{Respuesta, create_segment}
use unix_os_simulation.Memoria.Servicio.Enlaces.{IsEnlazada}
use unix_os_simulation.Memoria.Servicio.Pedidos.{Creado}
use unix_os_simulation.Memoria.Servicio.Bucle.{EsCompactada, compactar_segmentos-EsCompactada}
use unix_os_simulation.Memoria.Servicio.Reintento.{create_segment-compactar}
use unix_os_simulation.Tests.{plegado}

-- Segment 0 at 0, a hole at 2, segment 1 of process 5 at 3, a hole at 5.
abbrev partida : Memoria
partida = record {
  tam_memoria = 7;
  algoritmo = first;
  huecos_libres = record { pos = 2; size = 1 } ∷ record { pos = 5; size = 2 } ∷ [];
  segmentos =
      (1, record { id = 1; base = 3; limite = 2 })
      ∷ (0, record { id = 0; base = 0; limite = 2 })
      ∷ [];
  proximo = 2;
  tabla_inicial = 0 ∷ [];
  tablas = (5, 0 ∷ 1 ∷ []) ∷ [];
  user_space = λ x. espacio;
}

partida-IsTiled : IsTiled partida
unfolding cubre_rango
partida-IsTiled x = ground arith

partida-IsEnlazada : IsEnlazada [] partida
unfolding tabla_global
partida-IsEnlazada = record {
  tiled = partida-IsTiled;
  separada = (λ h i. ground arith, λ h k i j q. ground arith);
  llenos = λ e i. ground arith;
  unicas = λ p. ground arith;
  frescas = λ p l. ground arith;
  s0 = record { id = 0; base = 0; limite = 2 };
  inicial = refl;
  vive = refl;
  abajo = refl;
  cero = refl;
  cabezas = λ e. elim [ inl q ↦ rw (q) (1 ∷ [], refl, refl) | inr i ↦ absurd i ];
  contados = λ p n. ground arith;
}

abbrev respuesta : Respuesta
respuesta = record {
  rflag = falta_compactar;
  tabla = record { id = 0; base = 0; limite = 2 } ∷ record { id = 1; base = 3; limite = 2 } ∷ [];
}

pide_tres : create_segment plegado partida 5 2 3 ≡ ok (respuesta, partida)
unfolding create_segment calloc_segment elegir_hueco sumar_sizes
pide_tres = refl

compactar_segmentos-termina_example :
    (o : Outcome (List (ℕ × List Segmento) × Memoria)) × (compactar_segmentos plegado 4 partida
      ≡ some o)
compactar_segmentos-termina_example = compactar_segmentos-termina plegado 4 partida (omega arith)

compactar_segmentos-EsCompactada_example :
    (r : List (ℕ × List Segmento)) × (m' : Memoria) × (compactar_segmentos plegado 4 partida
      ≡ some (ok (r, m')))
    × EsCompactada partida m'
compactar_segmentos-EsCompactada_example =
    compactar_segmentos-EsCompactada plegado 4 partida partida-IsEnlazada (λ e. cc) (omega arith)

create_segment-compactar_example :
    (ts : List (ℕ × List Segmento)) × (m2 : Memoria) × (compactar_segmentos plegado 4 partida
      ≡ some (ok (ts, m2)))
    × Creado plegado m2 5 2 3
create_segment-compactar_example =
    create_segment-compactar plegado 4 partida partida 5 2 3 respuesta refl (omega arith)
      partida-IsEnlazada pide_tres refl (omega arith)

-- The state that `main` leaves for 16 bytes with a segment 0 of 4.
abbrev arrancada : Memoria
arrancada = record {
  tam_memoria = 16;
  algoritmo = first;
  huecos_libres = record { pos = 4; size = 12 } ∷ [];
  segmentos = (0, record { id = 0; base = 0; limite = 4 }) ∷ [];
  proximo = 1;
  tabla_inicial = 0 ∷ [];
  tablas = [];
  user_space = λ x. espacio;
}
