-- ===== src/Kernel/Sistema/Esperas/Crece.antt =====
-- kernel.h: the threads but `gestionadorReady` and `operarFS` take nothing of what these two take from.
use unix_os_simulation.Base.{
  ℕ, suc, zero, ◌-◌, ◌≤◌, ◌≡◌, refl, sym, subst, true, ◌&&◌, List, [], ◌∷◌, Outcome, deref, Sale,
  Sale-bind, Sale-bind_any, Sale-mono, Sale-ok, Cadena, ◌==◌, if_elim, list_remove, ltb, arith,
}
use unix_os_simulation.Base.Int.{ℤ, pos, negsuc}
use unix_os_simulation.Biblioteca.{Segmento}
use unix_os_simulation.Biblioteca.OpCode
use unix_os_simulation.Kernel.{
  Kernel, planifica, fin_de_proceso, enviar, a_ready, adelante, finalizar,
}
use unix_os_simulation.Kernel.Diccionario.{dictionary_get}
use unix_os_simulation.Kernel.Marco.{
  Quieto, quieto, Marco, a_ready-Marco, adelante-Marco, finalizar-Marco,
}
use unix_os_simulation.Kernel.Marco.Recursos.{wait-Marco, signal-Marco, liberar_recursos-Marco}
use unix_os_simulation.Kernel.Marco.Ficheros.{
  cerrar_archivos-Marco, recibir_pcb-Marco, con_segmentos-Marco, delete_segment-Marco,
  recibir_tablas-Marco,
}
use unix_os_simulation.Kernel.Recursos.{
  wait_recurso_lista, signal_recurso_lista, liberar_recursos_del_proceso,
}
use unix_os_simulation.Kernel.Archivos.{tabla_de}
use unix_os_simulation.Kernel.Procesos.{
  crear_pcb, gestionar_nuevas_conexiones, enviar_pcb, correr, correr_primero, recibir_pcb, i_o,
  retener_pcb,
}
use unix_os_simulation.Kernel.Segmentos.{
  con_segmentos, create_segment, compaction_manager, tomar_permiso, segun_flag,
  create_segment_respuesta, recibir_tablas_compactadas, compactada, delete_segment,
}
use unix_os_simulation.Kernel.Ficheros.{block_node, recieves_filesystem_petition, revisar}
use unix_os_simulation.Kernel.Operaciones.{read_op}
use unix_os_simulation.Kernel.Operaciones.Casos.{read_op_cases}
use unix_os_simulation.Kernel.Salida.{cerrar_archivos, despedir, salir, gestionador_exit}
use unix_os_simulation.Kernel.Sistema.{
  flag_de, volver, ◌⟶◌, conecta, admite, ordena, corre, vuelve, responde, permite, compacto,
  despierta, revisa, atiende, sale,
}
use unix_os_simulation.Kernel.Sistema.Esperas.{Ajeno}

abbrev pub CreceDe : Quieto → Quieto → Type 0
CreceDe q q' =
    (q.q_hay_new ≤ q'.q_hay_new)
    × (q.q_hay_espacio ≤ q'.q_hay_espacio)
    × (q.q_hay_blocked ≤ q'.q_hay_blocked)
    × (q.q_reviso ≡ true → q'.q_reviso ≡ true)

-- The semaphores are as high as before or higher, and `operarFS` is behind its test if it was.
abbrev pub Crece : Kernel → Kernel → Type 0
Crece k k' = CreceDe (quieto k) (quieto k')

Marco-Crece : (k0 k k' : Kernel) → Crece k0 k → Marco k k' → Crece k0 k'
Marco-Crece k0 k k' c (e, f) = subst (CreceDe (quieto k0)) (sym e) c

dentro :
    (k0 k : Kernel) (llamada : Outcome Kernel)
    → Crece k0 k
    → Sale (Marco k) llamada
    → Sale (Crece k0) llamada
dentro k0 k llamada c m = Sale-mono llamada m (λ k' n. Marco-Crece k0 k k' c n)

read_op-Crece :
    (k0 : Kernel) (cod_op pid : ℕ) (ps : List Cadena) (tabla : List Segmento) (k : Kernel)
    → Crece k0 k
    → Sale (Crece k0) (read_op cod_op pid ps tabla k)
unfolding create_segment i_o quieto recieves_filesystem_petition block_node
read_op-Crece k0 cod_op pid ps tabla k c =
    read_op_cases (Crece k0) cod_op pid ps tabla k (c.0, c.1, omega (arith, c.2), c.3)
      (Marco-Crece k0 k (a_ready pid k) c (a_ready-Marco pid k)) c
      (λ r. dentro k0 k (wait_recurso_lista r pid k) c (wait-Marco r pid k))
      (λ r. dentro k0 k (signal_recurso_lista r pid k) c (signal-Marco r pid k)) c
      (λ m. Marco-Crece k0 k (finalizar m pid k) c (finalizar-Marco m pid k)) (λ i z. c)
      (λ i.
        Sale-bind (Crece k0) (Crece k0) (delete_segment pid i tabla k) _
          (dentro k0 k (delete_segment pid i tabla k) c (delete_segment-Marco pid i tabla k))
          (λ k1 d. Marco-Crece k0 k1 (adelante pid k1) d (adelante-Marco pid k1)))

correr-Crece :
    (k0 : Kernel) (lista : List ℕ) (k : Kernel) → Crece k0 k → Sale (Crece k0) (correr lista k)
unfolding quieto correr enviar_pcb
correr-Crece k0 [] k c = tt
correr-Crece k0 (pid ∷ resto) k c =
    Sale-bind_any (Crece k0) (deref (dictionary_get ◌==◌ pid k.pcbs)) _ (λ pcb. c)

salir-Crece :
    (k0 : Kernel) (lista : List ℕ) (k : Kernel) → Crece k0 k → Sale (Crece k0) (salir lista k)
unfolding quieto salir despedir
salir-Crece k0 [] k c = tt
salir-Crece k0 (pid ∷ resto) k c =
    let k1 = enviar (fin_de_proceso pid) (record k {
      consolas_exit = resto;
      global_pcb_list = list_remove (λ p. p == pid) k.global_pcb_list;
    }) in
    Sale-bind_any (Crece k0) (deref (dictionary_get ◌==◌ pid k.pcbs)) _ (λ pcb.
      Sale-bind (Crece k0) (Crece k0) (liberar_recursos_del_proceso pid k1) _
        (dentro k0 k1 (liberar_recursos_del_proceso pid k1) c (liberar_recursos-Marco pid k1))
        (λ k2 d.
          Sale-bind (Crece k0) (Crece k0) (cerrar_archivos (tabla_de pid k2) k2) _
            (dentro k0 k2 (cerrar_archivos (tabla_de pid k2) k2) d
              (cerrar_archivos-Marco (tabla_de pid k2) k2))
            (λ k3 x. (x.0, omega (arith, x.1), x.2, x.3))))

segun_flag-Crece :
    (k0 : Kernel) (flag : ℤ) (pid : ℕ) (id size : ℤ) (k : Kernel)
    → Crece k0 k
    → Crece k0 (segun_flag flag pid id size k)
unfolding segun_flag compaction_manager quieto
segun_flag-Crece k0 (pos zero) pid id size k c = c
segun_flag-Crece k0 (pos (suc zero)) pid id size k c =
    if_elim (Crece k0) (ltb 0 k.compaction_blockers) c c
segun_flag-Crece k0 (pos (suc (suc n))) pid id size k c = c
segun_flag-Crece k0 (negsuc zero) pid id size k c = c
segun_flag-Crece k0 (negsuc (suc n)) pid id size k c = c

conecta-Crece :
    (cod_op : ℤ) (pid : ℕ) (paquete : List Cadena) (k : Kernel)
    → Crece k k
    → Crece k (gestionar_nuevas_conexiones cod_op pid paquete k)
unfolding gestionar_nuevas_conexiones crear_pcb quieto
conecta-Crece (pos n) pid paquete k c =
    if_elim (Crece k) (n == OpCode.mensaje) c
      (if_elim (Crece k) (n == OpCode.paquete) (omega (arith, c.0), c.1, c.2, c.3) c)
conecta-Crece (negsuc n) pid paquete k c = if_elim (Crece k) (n == 0) c c

pub Ajeno-Crece : (k k' : Kernel) (p : k ⟶ k') → Ajeno p → Crece k k'
unfolding Ajeno quieto correr_primero volver create_segment_respuesta compactada create_segment
    tomar_permiso retener_pcb revisar gestionador_exit
Ajeno-Crece k k' p a = paso p a
  where
    c : Crece k k
    c = (omega arith, omega arith, omega arith, λ e. e)

    paso : (p : k ⟶ k') → Ajeno p → Crece k k'
    paso (conecta n pid l e) a = subst (Crece k) (sym e) (conecta-Crece n pid l k c)
    paso (admite tabla x y e) a = absurd a
    paso (ordena orden x m e) a = subst (Crece k) (sym e) c
    paso (corre x y e) a =
        Sale-ok (Crece k) (correr_primero k) k'
          (correr-Crece k k.consolas_ready
            (record k { hay_consolas_ready = k.hay_consolas_ready - 1 }) c)
          e
    paso (vuelve n ctx tabla pid x e) a =
        let k0 = record k { hilo = planifica } in
        Sale-ok (Crece k) (volver n ctx tabla pid k) k'
          (Sale-bind (Crece k) (Crece k) (recibir_pcb ctx pid k0) _
            (dentro k k0 (recibir_pcb ctx pid k0) c (recibir_pcb-Marco ctx pid k0))
            (λ k1 d. read_op-Crece k n pid ctx.parametros tabla k1 d))
          e
    paso (responde flag tabla pid id size x e) a =
        Sale-ok (Crece k) (create_segment_respuesta (flag_de flag) tabla pid id size k) k'
          (Sale-bind (Crece k) (Crece k) (con_segmentos pid tabla k) _
            (dentro k k (con_segmentos pid tabla k) c (con_segmentos-Marco pid tabla k))
            (λ k1 d. segun_flag-Crece k (flag_de flag) pid id size k1 d))
          e
    paso (permite pid id size x y e) a = subst (Crece k) (sym e) c
    paso (compacto tablas pid id size x e) a =
        Sale-ok (Crece k) (compactada tablas pid id size k) k'
          (Sale-bind (Crece k) (Crece k) (recibir_tablas_compactadas tablas k) _
            (dentro k k (recibir_tablas_compactadas tablas k) c (recibir_tablas-Marco tablas k))
            (λ k1 d. d))
          e
    paso (despierta pid x e) a =
        subst (Crece k) (sym e) (Marco-Crece k k (a_ready pid k) c (a_ready-Marco pid k))
    paso (revisa x e) a = subst (Crece k) (sym e) (
        if_elim (Crece k) ((k.compaction_blockers == 0) && k.compaction_required)
          (c.0, c.1, c.2, λ z. refl) (c.0, c.1, c.2, λ z. refl))
    paso (atiende r x y e) a = absurd a
    paso (sale y e) a =
        Sale-ok (Crece k) (gestionador_exit k) k'
          (salir-Crece k k.consolas_exit (record k { hay_consolas_exit = k.hay_consolas_exit - 1 })
            c)
          e
