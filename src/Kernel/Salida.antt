-- ===== src/Kernel/Salida.antt =====
-- kernel.h: the end of a process: `cerrarArchivosDelProceso` and one turn of `gestionadorExit`.
use unix_os_simulation.Base.{
  ℕ, suc, List, [], ◌∷◌, Outcome, ok, faults, deref, ◌>>=◌, ◌-◌, ◌==◌, list_remove,
}
use unix_os_simulation.Base.Int.{pos}
use unix_os_simulation.Biblioteca.OpCode
use unix_os_simulation.Kernel.{Kernel, codigo, cierre, fin_de_proceso, enviar}
use unix_os_simulation.Kernel.Diccionario.{dictionary_get, dictionary_remove}
use unix_os_simulation.Kernel.Recursos.{liberar_recursos_del_proceso}
use unix_os_simulation.Kernel.Archivos.{tabla_de, liberar_archivo}

unfoldable pub cerrar_archivos : List ℕ → Kernel → Outcome Kernel
cerrar_archivos [] k = ok k
cerrar_archivos (un_descr ∷ tabla) k = do k1 ← liberar_archivo un_descr k; cerrar_archivos tabla k1

-- The PCB is freed, its console closed, and there is space for one more process.
unfoldable pub despedir : ℕ → Kernel → Kernel
despedir pid k = record (enviar (cierre pid) (enviar (codigo pid (pos OpCode.exit)) k)) {
  pcbs = dictionary_remove ◌==◌ pid k.pcbs;
  tablas_archivos = dictionary_remove ◌==◌ pid k.tablas_archivos;
  hay_espacio_ready = suc k.hay_espacio_ready;
}

unfoldable pub salir : List ℕ → Kernel → Outcome Kernel
unfolding cerrar_archivos despedir
salir [] k = faults
salir (pid ∷ resto) k = do
  pcb ← deref (dictionary_get ◌==◌ pid k.pcbs)
  k1 ← liberar_recursos_del_proceso pid (
      enviar (fin_de_proceso pid) (record k {
        consolas_exit = resto;
        global_pcb_list = list_remove (λ p. p == pid) k.global_pcb_list;
      }))
  k2 ← cerrar_archivos (tabla_de pid k1) k1
  ok (despedir pid k2)

-- One turn of the loop, behind its `sem_wait`.
unfoldable pub gestionador_exit : Kernel → Outcome Kernel
unfolding salir
gestionador_exit k =
    salir k.consolas_exit (record k { hay_consolas_exit = k.hay_consolas_exit - 1 })
