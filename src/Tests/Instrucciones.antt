-- ===== src/Tests/Instrucciones.antt =====
-- cpu.c and cpu.h at a concrete CPU, whose texts are split and written by fixed functions.
use unix_os_simulation.Base.{
  list_find, inl, inr, ℕ, ◌+◌, ◌-◌, ◌/◌, ◌%◌, ◌≤◌, ◌<◌, ◌≡◌, refl, ◌⊎◌, false, [], ◌∷◌, some,
  Outcome, ok, arith, Cadena, codes, length, In, strcmp_eq,
}
use unix_os_simulation.Base.Int.{pos, negsuc}
use unix_os_simulation.Biblioteca.{Segmento, ExecContext}
use unix_os_simulation.Cpu.{Textos, Cpu}
use unix_os_simulation.Cpu.Registros.{excedidos, obtener, EsRelleno, set_registro, set_registro_lem}
use unix_os_simulation.Cpu.Mmu.{mmu, es_el_segmento, mmu_inside}
use unix_os_simulation.Cpu.Instrucciones.{yield}
use unix_os_simulation.Cpu.Ciclo.{
  interrumpir, avanzar, ciclo, ciclos, ejecutar_contexto, buscar_funcion,
}
use unix_os_simulation.Cpu.Ciclo.Turno.{Entrega}
use unix_os_simulation.Cpu.Ciclo.Entrega.{ciclo-Entrega, ciclos-termina, ejecutar_contexto-termina}
use unix_os_simulation.Tests.Asignaciones.{memoria}

abbrev textos : Textos
textos = record {
  string_split = λ s. s ∷ [];
  string_from_format = λ m. codes "error";
  string_itoa = λ n. codes "0";
}

abbrev segmento : Segmento
segmento = record { id = 0; base = 8; limite = 64 }

abbrev contexto : ExecContext
contexto = record {
  pid = 5;
  instrucciones = codes "YIELD" ∷ codes "EXIT" ∷ [];
  program_counter = 0;
  registros = [];
  parametros = [];
  tabla_segmentos = segmento ∷ [];
}

abbrev cpu : Cpu
cpu = record {
  tam_max_segmento = 128;
  registros = (codes "AX", codes "0000") ∷ (codes "BX", codes "0000") ∷ [];
  contexto = contexto;
  interrupted = false;
  enviados = [];
  memoria = memoria;
}

abbrev cedida : Cpu
cedida = interrumpir (yield textos (avanzar cpu))

un_ciclo : ciclo textos cpu ≡ ok cedida
unfolding ciclo buscar_funcion strcmp_eq
un_ciclo = refl

ciclo-Entrega_example :
    Entrega cpu cedida
    × (cedida.contexto.program_counter ≡ 1)
    × (cedida.contexto.instrucciones ≡ contexto.instrucciones)
    × (0 < 2)
ciclo-Entrega_example = ciclo-Entrega textos cpu cedida un_ciclo

ciclos-termina_example : (r : Outcome Cpu) × (ciclos textos 3 cpu ≡ some r)
ciclos-termina_example = ciclos-termina textos 3 cpu (omega arith) (omega arith)

ejecutar_contexto-termina_example :
    (r : Outcome Cpu) × (ejecutar_contexto textos contexto cpu ≡ some r)
ejecutar_contexto-termina_example = ejecutar_contexto-termina textos contexto cpu

mmu_inside_example :
    (((mmu 128 (segmento ∷ []) (pos 10) (pos 4)).0 ≡ negsuc 0)
      × ((s : Segmento)
          → list_find (es_el_segmento (pos (10 / 128))) (segmento ∷ []) ≡ some s
          → s.limite < 10 % 128 + 4))
    ⊎ ((s : Segmento) × (p : ℕ) × In s (segmento ∷ [])
        × (s.id ≡ 10 / 128)
        × ((mmu 128 (segmento ∷ []) (pos 10) (pos 4)).0 ≡ pos p)
        × (p ≡ s.base + 10 % 128)
        × (p + 4 ≤ s.base + s.limite))
mmu_inside_example =
    mmu_inside 128 10 4 (segmento ∷ []) (omega arith)
      (λ s. elim [ inl e ↦ rw (e) (omega arith, omega arith) | inr n ↦ absurd n ])

ax : obtener (codes "AX") cpu.registros ≡ some (codes "0000")
unfolding obtener strcmp_eq
ax = refl

set_registro_lem_example :
    ((length (codes "HOLA") ≤ length (codes "0000"))
      × ((set_registro (codes "AX") (codes "HOLA") cpu.registros).0 ≡ excedidos 0)
      × ((v : Cadena) × (obtener
              (codes "AX")
              (set_registro (codes "AX") (codes "HOLA") cpu.registros).1
            ≡ some v)
          × EsRelleno (codes "0000") (codes "HOLA") v)
      × ((j : Cadena)
          → strcmp_eq (codes "AX") j ≡ false
          → obtener j (set_registro (codes "AX") (codes "HOLA") cpu.registros).1
            ≡ obtener j cpu.registros))
    ⊎ ((length (codes "0000") < length (codes "HOLA"))
        × (set_registro (codes "AX") (codes "HOLA") cpu.registros
            ≡ (excedidos (length (codes "HOLA") - length (codes "0000")), cpu.registros)))
set_registro_lem_example =
    set_registro_lem (codes "AX") (codes "HOLA") (codes "0000") cpu.registros ax
