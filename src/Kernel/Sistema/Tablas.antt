-- ===== src/Kernel/Sistema/Tablas.antt =====
-- kernel.h: the table of open files and their queues in every state that the threads reach.
use unix_os_simulation.Base.{
  ℕ, zero, suc, ◌-◌, sym, subst, ◌&&◌, List, [], ◌∷◌, Outcome, deref, Sale, Sale-bind,
  Sale-bind_any, Sale-mono, Sale-ok, Cadena, ◌==◌, if_elim, list_find, list_remove, ltb,
}
use unix_os_simulation.Base.Int.{ℤ, pos, negsuc}
use unix_os_simulation.Biblioteca.{Segmento, ExecContext, cantidad_registros_cpu}
use unix_os_simulation.Biblioteca.OpCode
use unix_os_simulation.Kernel.{Kernel, planifica, kernel_inicial, fin_de_proceso, enviar}
use unix_os_simulation.Kernel.Diccionario.{dictionary_get}
use unix_os_simulation.Kernel.Marco.{archivero, Fijo}
use unix_os_simulation.Kernel.Marco.Recursos.{wait-Fijo, signal-Fijo, liberar_recursos-Fijo}
use unix_os_simulation.Kernel.Recursos.{
  wait_recurso_lista, signal_recurso_lista, liberar_recursos_del_proceso,
}
use unix_os_simulation.Kernel.Archivos.{tabla_de}
use unix_os_simulation.Kernel.Archivos.Abiertos.{IsAbierto}
use unix_os_simulation.Kernel.Archivos.Abiertos.Operaciones.{
  ConArchivos, atender-ConArchivos, cerrar_archivos-ConArchivos,
}
use unix_os_simulation.Kernel.Procesos.{
  crear_pcb, gestionar_nuevas_conexiones, admitir, gestionador_ready, enviar_pcb, correr,
  correr_primero, copiar_registros, recibir_pcb, i_o, retener_pcb,
}
use unix_os_simulation.Kernel.Segmentos.{
  con_segmentos, create_segment, compaction_manager, tomar_permiso, segun_flag,
  create_segment_respuesta, recibir_tablas_compactadas, compactada, delete_segment,
}
use unix_os_simulation.Kernel.Ficheros.{atender, revisar, recieves_filesystem_petition, block_node}
use unix_os_simulation.Kernel.Operaciones.{read_op}
use unix_os_simulation.Kernel.Operaciones.Casos.{read_op_cases}
use unix_os_simulation.Kernel.Salida.{cerrar_archivos, despedir, salir, gestionador_exit}
use unix_os_simulation.Kernel.Sistema.{
  flag_de, volver, ◌⟶◌, ◌⟶*◌, conecta, admite, ordena, corre, vuelve, responde, permite, compacto,
  despierta, revisa, atiende, sale, aqui, luego,
}

-- The calls that leave the files alone.
Fijo-ConArchivos :
    (k : Kernel) (o : Outcome Kernel) → ConArchivos k → Sale (Fijo k) o → Sale ConArchivos o
Fijo-ConArchivos k o s m = Sale-mono o m (λ k' (f, e). subst IsAbierto (sym e) s)

recibir-ConArchivos :
    (c : ExecContext) (pid : ℕ) (k : Kernel)
    → ConArchivos k
    → Sale ConArchivos (recibir_pcb c pid k)
unfolding recibir_pcb archivero
recibir-ConArchivos c pid k s =
    Sale-bind_any ConArchivos (deref (dictionary_get ◌==◌ pid k.pcbs)) _ (λ pcb.
      Sale-bind_any ConArchivos (copiar_registros cantidad_registros_cpu c.registros) _ (λ rs. s))

segmentos-ConArchivos :
    (pid : ℕ) (tabla : List Segmento) (k : Kernel)
    → ConArchivos k
    → Sale ConArchivos (con_segmentos pid tabla k)
unfolding con_segmentos archivero
segmentos-ConArchivos pid tabla k s =
    Sale-bind_any ConArchivos (deref (dictionary_get ◌==◌ pid k.pcbs)) _ (λ pcb. s)

tablas-ConArchivos :
    (tablas : List (ℕ × List Segmento)) (k : Kernel)
    → ConArchivos k
    → Sale ConArchivos (recibir_tablas_compactadas tablas k)
unfolding recibir_tablas_compactadas
tablas-ConArchivos [] k s = s
tablas-ConArchivos ((pid, tabla) ∷ tablas) k s =
    Sale-bind_any ConArchivos (deref (list_find (λ p. p == pid) k.global_pcb_list)) _ (λ p.
      Sale-bind ConArchivos ConArchivos (con_segmentos p tabla k) _
        (segmentos-ConArchivos p tabla k s) (λ k1 t. tablas-ConArchivos tablas k1 t))

read_op-ConArchivos :
    (cod_op pid : ℕ) (ps : List Cadena) (tabla : List Segmento) (k : Kernel)
    → ConArchivos k
    → Sale ConArchivos (read_op cod_op pid ps tabla k)
unfolding archivero recieves_filesystem_petition block_node i_o create_segment delete_segment
read_op-ConArchivos cod_op pid ps tabla k s =
    read_op_cases ConArchivos cod_op pid ps tabla k s s s
      (λ r. Fijo-ConArchivos k (wait_recurso_lista r pid k) s (wait-Fijo r pid k))
      (λ r. Fijo-ConArchivos k (signal_recurso_lista r pid k) s (signal-Fijo r pid k)) s (λ m. s)
      (λ i z. s)
      (λ i.
        Sale-bind ConArchivos ConArchivos (delete_segment pid i tabla k) _
          (segmentos-ConArchivos pid tabla _ s) (λ k1 t. t))

segun_flag-ConArchivos :
    (flag : ℤ) (pid : ℕ) (id size : ℤ) (k : Kernel)
    → ConArchivos k
    → ConArchivos (segun_flag flag pid id size k)
unfolding archivero segun_flag compaction_manager
segun_flag-ConArchivos (pos zero) pid id size k s = s
segun_flag-ConArchivos (pos (suc zero)) pid id size k s =
    if_elim ConArchivos (ltb 0 k.compaction_blockers) s s
segun_flag-ConArchivos (pos (suc (suc n))) pid id size k s = s
segun_flag-ConArchivos (negsuc zero) pid id size k s = s
segun_flag-ConArchivos (negsuc (suc n)) pid id size k s = s

conecta-ConArchivos :
    (cod_op : ℤ) (pid : ℕ) (paquete : List Cadena) (k : Kernel)
    → ConArchivos k
    → ConArchivos (gestionar_nuevas_conexiones cod_op pid paquete k)
unfolding archivero gestionar_nuevas_conexiones crear_pcb
conecta-ConArchivos (pos c) pid paquete k s =
    if_elim ConArchivos (c == OpCode.mensaje) s (if_elim ConArchivos (c == OpCode.paquete) s s)
conecta-ConArchivos (negsuc n) pid paquete k s = if_elim ConArchivos (n == 0) s s

admitir-ConArchivos :
    (nuevas : List ℕ) (tabla : List Segmento) (k : Kernel)
    → ConArchivos k
    → Sale ConArchivos (admitir nuevas tabla k)
unfolding archivero admitir
admitir-ConArchivos [] tabla k s = tt
admitir-ConArchivos (pid ∷ nuevas) tabla k s =
    Sale-bind_any ConArchivos (deref (dictionary_get ◌==◌ pid k.pcbs)) _ (λ pcb. s)

correr-ConArchivos :
    (lista : List ℕ) (k : Kernel) → ConArchivos k → Sale ConArchivos (correr lista k)
unfolding archivero correr enviar_pcb
correr-ConArchivos [] k s = tt
correr-ConArchivos (pid ∷ resto) k s =
    Sale-bind_any ConArchivos (deref (dictionary_get ◌==◌ pid k.pcbs)) _ (λ pcb. s)

salir-ConArchivos : (lista : List ℕ) (k : Kernel) → ConArchivos k → Sale ConArchivos (salir lista k)
unfolding archivero salir despedir
salir-ConArchivos [] k s = tt
salir-ConArchivos (pid ∷ resto) k s =
    let k0 = enviar (fin_de_proceso pid) (record k {
      consolas_exit = resto;
      global_pcb_list = list_remove (λ p. p == pid) k.global_pcb_list;
    }) in
    Sale-bind_any ConArchivos (deref (dictionary_get ◌==◌ pid k.pcbs)) _ (λ pcb.
      Sale-bind ConArchivos ConArchivos (liberar_recursos_del_proceso pid k0) _
        (Fijo-ConArchivos k0 (liberar_recursos_del_proceso pid k0) s (liberar_recursos-Fijo pid k0))
        (λ k1 t.
          Sale-bind ConArchivos ConArchivos (cerrar_archivos (tabla_de pid k1) k1) _
            (cerrar_archivos-ConArchivos (tabla_de pid k1) k1 t) (λ k2 u. u)))

-- One step.
⟶-ConArchivos : (k k' : Kernel) → ConArchivos k → k ⟶ k' → ConArchivos k'
unfolding archivero gestionador_ready correr_primero volver create_segment_respuesta compactada
    create_segment tomar_permiso retener_pcb revisar atender gestionador_exit
⟶-ConArchivos k k' s (conecta c pid p e) =
    subst ConArchivos (sym e) (conecta-ConArchivos c pid p k s)
⟶-ConArchivos k k' s (admite tabla a b e) =
    Sale-ok ConArchivos (gestionador_ready tabla k) k'
      (admitir-ConArchivos k.consolas_new tabla
        (record k {
          hay_consolas_new = k.hay_consolas_new - 1;
          hay_espacio_ready = k.hay_espacio_ready - 1;
        })
        s)
      e
⟶-ConArchivos k k' s (ordena orden a m e) = subst ConArchivos (sym e) s
⟶-ConArchivos k k' s (corre a b e) =
    Sale-ok ConArchivos (correr_primero k) k'
      (correr-ConArchivos k.consolas_ready
        (record k { hay_consolas_ready = k.hay_consolas_ready - 1 }) s)
      e
⟶-ConArchivos k k' s (vuelve c ctx tabla pid a e) =
    let k0 = record k { hilo = planifica } in
    Sale-ok ConArchivos (volver c ctx tabla pid k) k'
      (Sale-bind ConArchivos ConArchivos (recibir_pcb ctx pid k0) _
        (recibir-ConArchivos ctx pid k0 s)
        (λ k1 t. read_op-ConArchivos c pid ctx.parametros tabla k1 t))
      e
⟶-ConArchivos k k' s (responde flag tabla pid id size a e) =
    Sale-ok ConArchivos (create_segment_respuesta (flag_de flag) tabla pid id size k) k'
      (Sale-bind ConArchivos ConArchivos (con_segmentos pid tabla k) _
        (segmentos-ConArchivos pid tabla k s)
        (λ k1 t. segun_flag-ConArchivos (flag_de flag) pid id size k1 t))
      e
⟶-ConArchivos k k' s (permite pid id size a b e) = subst ConArchivos (sym e) s
⟶-ConArchivos k k' s (compacto tablas pid id size a e) =
    Sale-ok ConArchivos (compactada tablas pid id size k) k'
      (Sale-bind ConArchivos ConArchivos (recibir_tablas_compactadas tablas k) _
        (tablas-ConArchivos tablas k s) (λ k1 t. t))
      e
⟶-ConArchivos k k' s (despierta pid a e) = subst ConArchivos (sym e) s
⟶-ConArchivos k k' s (revisa a e) =
    subst ConArchivos (sym e)
      (if_elim ConArchivos ((k.compaction_blockers == 0) && k.compaction_required) s s)
⟶-ConArchivos k k' s (atiende r a b e) =
    Sale-ok ConArchivos (atender r k) k'
      (atender-ConArchivos r k.consolas_blocked
        (record k { hay_consolas_blocked = k.hay_consolas_blocked - 1 }) s)
      e
⟶-ConArchivos k k' s (sale b e) =
    Sale-ok ConArchivos (gestionador_exit k) k'
      (salir-ConArchivos k.consolas_exit (record k { hay_consolas_exit = k.hay_consolas_exit - 1 })
        s)
      e

-- In every state that the threads reach from the start of the kernel, the global table of open
-- files has distinct addresses of descriptors that exist, each file has at most one queue, and each
-- file that has a queue has a descriptor in the table.
pub alcanzable-IsAbierto :
    (grado : ℕ) (recursos : List (Cadena × ℕ)) (k : Kernel)
    → kernel_inicial grado recursos ⟶* k
    → IsAbierto (archivero k)
unfolding archivero
alcanzable-IsAbierto grado recursos k aqui = record {
  distintos = tt;
  frescos = λ d i. absurd i;
  vivos = λ d i. absurd i;
  unicas = tt;
  abiertas = λ n q e. cc;
}
alcanzable-IsAbierto grado recursos k (luego {k1 = k1} r p) =
    ⟶-ConArchivos k1 k (alcanzable-IsAbierto grado recursos k1 r) p
