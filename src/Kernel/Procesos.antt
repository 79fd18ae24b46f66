-- ===== src/Kernel/Procesos.antt =====
-- kernel.h: how processes come in and run: `gestionarNuevasConexiones`, one turn of
-- `gestionadorReady`, `enviar_PCB` and `recibir_PCB`, the head of the ready queue in `fifoRunning` and
-- `hrrnRunning`, and the I/O that holds a PCB.
use unix_os_simulation.Base.{
  ℕ, zero, suc, ◌-◌, List, [], ◌∷◌, ◌++◌, Outcome, ok, faults, deref, ◌>>=◌, Cadena, codes, ◌==◌,
  leb, if◌then◌else◌, length, replicate, list_remove,
}
use unix_os_simulation.Base.Int.{ℤ, pos, negsuc}
use unix_os_simulation.Biblioteca.{Segmento, ExecContext, cantidad_registros_cpu}
use unix_os_simulation.Biblioteca.OpCode
use unix_os_simulation.Kernel.{
  Kernel, Pcb, ejecuta, codigo, cierre, pide_segmento, contexto_a_cpu, enviar, a_ready,
}
use unix_os_simulation.Kernel.Diccionario.{dictionary_get, dictionary_put}

-- A write to the PCB.
abbrev pub con_pcb : ℕ → Pcb → Kernel → Kernel
con_pcb pid pcb k = record k { pcbs = dictionary_put ◌==◌ pid pcb k.pcbs }

-- The table of segments is not set before the process is admitted.
unfoldable pub crear_pcb : ℕ → List Cadena → Kernel → Kernel
crear_pcb pid paquete_consola k =
    record (con_pcb pid
      (record {
        instrucciones = paquete_consola;
        program_counter = 0;
        registros = replicate cantidad_registros_cpu (codes "0000");
        tabla_segmentos = [];
      })
      k) {
        tablas_archivos = dictionary_put ◌==◌ pid [] k.tablas_archivos;
        consolas_new = k.consolas_new ++ pid ∷ [];
        hay_consolas_new = suc k.hay_consolas_new;
      }

-- After the handshake, by the operation code of the packet, -1 for one that cannot be read.
unfoldable pub gestionar_nuevas_conexiones : ℤ → ℕ → List Cadena → Kernel → Kernel
unfolding crear_pcb
gestionar_nuevas_conexiones (pos cod_op) pid paquete_consola k =
    if cod_op == OpCode.mensaje
    then enviar (cierre pid) k
    else if cod_op == OpCode.paquete
    then crear_pcb pid paquete_consola k
    else k
gestionar_nuevas_conexiones (negsuc n) pid paquete_consola k =
    if n == 0 then enviar (cierre pid) (enviar (codigo pid (negsuc 0)) k) else k

-- The first PCB of the queue of new ones gets the table with which the memory module answers.
unfoldable pub admitir : List ℕ → List Segmento → Kernel → Outcome Kernel
admitir [] tabla k = faults
admitir (pid ∷ nuevas) tabla k = do
  pcb ← deref (dictionary_get ◌==◌ pid k.pcbs)
  ok (
      a_ready pid
        (record (con_pcb pid (record pcb { tabla_segmentos = tabla })
          (enviar (pide_segmento pid (pos 0) (pos 0)) k)) {
            consolas_new = nuevas;
            global_pcb_list = k.global_pcb_list ++ pid ∷ [];
          }))

-- One turn of the loop, behind its two `sem_wait`.
unfoldable pub gestionador_ready : List Segmento → Kernel → Outcome Kernel
unfolding admitir
gestionador_ready tabla k = admitir k.consolas_new tabla (record k {
  hay_consolas_new = k.hay_consolas_new - 1;
  hay_espacio_ready = k.hay_espacio_ready - 1;
})

unfoldable pub enviar_pcb : ℕ → Kernel → Outcome Kernel
enviar_pcb pid k = do
  pcb ← deref (dictionary_get ◌==◌ pid k.pcbs)
  ok (
      enviar
        (contexto_a_cpu (record {
          pid = pid;
          instrucciones = pcb.instrucciones;
          program_counter = pcb.program_counter;
          registros = pcb.registros;
          parametros = [];
          tabla_segmentos = pcb.tabla_segmentos;
        }))
        k)

-- The first of the ready queue goes to the CPU; `list_remove` gives null for an empty one.
unfoldable pub correr : List ℕ → Kernel → Outcome Kernel
unfolding enviar_pcb
correr [] k = faults
correr (pid ∷ resto) k = enviar_pcb pid (record k { consolas_ready = resto; hilo = ejecuta pid })

-- From the `sem_wait` on.
unfoldable pub correr_primero : Kernel → Outcome Kernel
unfolding correr
correr_primero k =
    correr k.consolas_ready (record k { hay_consolas_ready = k.hay_consolas_ready - 1 })

-- `strcpy` into the five bytes that the text "0000" got, for each register of the array.
unfoldable pub copiar_registros : ℕ → List Cadena → Outcome (List Cadena)
copiar_registros zero rs = ok []
copiar_registros (suc n) [] = faults
copiar_registros (suc n) (r ∷ rs) = do
  copia ← if leb (length r) 4 then ok r else faults
  copias ← copiar_registros n rs
  ok (copia ∷ copias)

unfoldable pub recibir_pcb : ExecContext → ℕ → Kernel → Outcome Kernel
unfolding copiar_registros
recibir_pcb devuelto pid k = do
  pcb ← deref (dictionary_get ◌==◌ pid k.pcbs)
  registros_ ← copiar_registros cantidad_registros_cpu devuelto.registros
  ok (
      con_pcb pid
        (record pcb {
          program_counter = devuelto.program_counter;
          registros = registros_;
          tabla_segmentos = devuelto.tabla_segmentos;
        })
        k)

-- A thread of its own holds the PCB; how long is left out.
unfoldable pub i_o : ℕ → Kernel → Kernel
i_o pid k = record k { durmiendo = k.durmiendo ++ pid ∷ [] }

-- The thread has slept.
unfoldable pub retener_pcb : ℕ → Kernel → Kernel
retener_pcb pid k = a_ready pid (record k { durmiendo = list_remove (λ x. x == pid) k.durmiendo })
