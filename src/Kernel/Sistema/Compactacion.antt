-- ===== src/Kernel/Sistema/Compactacion.antt =====
-- kernel.h: the permission that `compaction_manager` waits for and `operarFS` gives, over all steps of
-- the threads.
pub mod Pasos
use unix_os_simulation.Base.{
  ℕ, zero, suc, ◌+◌, ◌-◌, ◌<◌, ◌≡◌, refl, sym, ap, subst, ◌∙◌, ◌⊎◌, inl, inr, Bool, true, false,
  ◌&&◌, List, [], ◌∷◌, ◌++◌, Outcome, ok, deref, ◌>>=◌, Sale, Sale-bind, Sale-bind_any, Sale-mono,
  Sale-ok, Cadena, ◌==◌, if◌then◌else◌, if_elim, if_elim_eq, list_remove, ltb, ltb→lt, arith,
}
use unix_os_simulation.Base.Int.{ℤ, pos, negsuc}
use unix_os_simulation.Biblioteca.{Segmento}
use unix_os_simulation.Biblioteca.OpCode
use unix_os_simulation.Kernel.{
  Kernel, BlockedNode, Hilo, planifica, ejecuta, crea, espera_permiso, compacta, adelante,
  fin_de_proceso, enviar,
}
use unix_os_simulation.Kernel.Diccionario.{dictionary_get}
use unix_os_simulation.Kernel.Marco.{Quieto, quieto, Marco}
use unix_os_simulation.Kernel.Marco.Recursos.{wait-Marco, signal-Marco, liberar_recursos-Marco}
use unix_os_simulation.Kernel.Marco.Ficheros.{
  cerrar_archivos-Marco, f_close-Marco, f_open-Marco, f_truncate-Marco, fseek-Marco, facceso-Marco,
  delete_segment-Marco,
}
use unix_os_simulation.Kernel.Recursos.{
  wait_recurso_lista, signal_recurso_lista, liberar_recursos_del_proceso,
}
use unix_os_simulation.Kernel.Archivos.{tabla_de, process_f_open, process_f_close}
use unix_os_simulation.Kernel.Procesos.{crear_pcb, gestionar_nuevas_conexiones, i_o}
use unix_os_simulation.Kernel.Segmentos.{
  create_segment, compaction_manager, segun_flag, delete_segment,
}
use unix_os_simulation.Kernel.Ficheros.{
  block_node, recieves_filesystem_petition, process_facceso, f_truncate_process, process_fseek,
  es_uno, sin_bloqueo, operar, atender_en, atender, revisar,
}
use unix_os_simulation.Kernel.Operaciones.{read_op}
use unix_os_simulation.Kernel.Operaciones.Casos.{read_op_cases, operar_cases}
use unix_os_simulation.Kernel.Salida.{cerrar_archivos, despedir, salir}

-- While the permission is awaited: it is there, or it is asked for and the test at the top of
-- `operarFS` is still to come, now or after an operation that keeps the compaction waiting.
abbrev pub EsperaDe : Hilo → ℕ → Bool → ℕ → Bool → Type 0
EsperaDe (espera_permiso pid id size) permission required blockers reviso =
    (0 < permission) ⊎ ((required ≡ true) × ((0 < blockers) ⊎ (reviso ≡ false)))
EsperaDe planifica permission required blockers reviso = Unit
EsperaDe (ejecuta pid) permission required blockers reviso = Unit
EsperaDe (crea pid id size) permission required blockers reviso = Unit
EsperaDe (compacta pid id size) permission required blockers reviso = Unit

abbrev EsperaEn : Hilo → Kernel → Type 0
EsperaEn h k =
    EsperaDe h k.compaction_permission k.compaction_required k.compaction_blockers k.fs_reviso

abbrev pub Atendida : Kernel → Type 0
Atendida k =
    EsperaDe k.hilo k.compaction_permission k.compaction_required k.compaction_blockers k.fs_reviso

abbrev Espera : Quieto → Type 0
Espera q = EsperaDe q.q_hilo q.q_permission q.q_required q.q_blockers q.q_reviso

pub Marco-Atendida :
    (k : Kernel) (llamada : Outcome Kernel)
    → Atendida k
    → Sale (Marco k) llamada
    → Sale Atendida llamada
unfolding quieto
Marco-Atendida k llamada s m = Sale-mono llamada m (λ k' (e, f). subst Espera (sym e) s)

-- Nobody waits.
libre : (h : Hilo) (k : Kernel) → h ≡ planifica → EsperaEn h k
libre h k e = subst (λ x. EsperaEn x k) (sym e) tt

pub read_op-Atendida :
    (cod_op pid : ℕ) (ps : List Cadena) (tabla : List Segmento) (k : Kernel)
    → k.hilo ≡ planifica
    → Sale Atendida (read_op cod_op pid ps tabla k)
unfolding quieto recieves_filesystem_petition block_node i_o create_segment
read_op-Atendida cod_op pid ps tabla k e =
    let s : Atendida k = libre k.hilo k e in
    read_op_cases Atendida cod_op pid ps tabla k
      (libre k.hilo (recieves_filesystem_petition cod_op pid ps k) e) s s
      (λ r. Marco-Atendida k (wait_recurso_lista r pid k) s (wait-Marco r pid k))
      (λ r. Marco-Atendida k (signal_recurso_lista r pid k) s (signal-Marco r pid k)) s (λ m. s)
      (λ i z. tt)
      (λ i.
        Sale-bind Atendida Atendida (delete_segment pid i tabla k) _
          (Marco-Atendida k (delete_segment pid i tabla k) s (delete_segment-Marco pid i tabla k))
          (λ k1 t. t))

pub segun_flag-Atendida :
    (flag : ℤ) (pid : ℕ) (id size : ℤ) (k : Kernel) → Atendida (segun_flag flag pid id size k)
unfolding quieto segun_flag compaction_manager
segun_flag-Atendida (pos zero) pid id size k = tt
segun_flag-Atendida (pos (suc zero)) pid id size k =
    if_elim_eq Atendida (ltb 0 k.compaction_blockers)
      (λ e. inr (refl, inl (ltb→lt 0 k.compaction_blockers e))) (λ e. tt)
segun_flag-Atendida (pos (suc (suc n))) pid id size k = tt
segun_flag-Atendida (negsuc zero) pid id size k = tt
segun_flag-Atendida (negsuc (suc n)) pid id size k = tt

-- The test at the top of the loop.
revisar-EsperaDe : (h : Hilo) (k : Kernel) → EsperaEn h k → EsperaEn h (revisar k)
unfolding quieto revisar
revisar-EsperaDe (espera_permiso pid id size) k s =
    if_elim_eq (EsperaEn (espera_permiso pid id size))
      ((k.compaction_blockers == 0) && k.compaction_required) (λ e. inl (omega arith))
      (λ e. quedan k.compaction_blockers k.compaction_required e s)
  where
    quedan :
        (b : ℕ) (r : Bool)
        → ((b == 0) && r) ≡ false
        → (0 < k.compaction_permission) ⊎ ((r ≡ true) × ((0 < b) ⊎ (k.fs_reviso ≡ false)))
        → (0 < k.compaction_permission) ⊎ ((r ≡ true) × ((0 < b) ⊎ (true ≡ false)))
    quedan b r e (inl p) = inl p
    quedan zero true e (inr (d, f)) = cc
    quedan zero false e (inr (d, f)) = cc
    quedan (suc b) r e (inr (d, f)) = inr (d, inl (omega arith))
revisar-EsperaDe planifica k s = tt
revisar-EsperaDe (ejecuta pid) k s = tt
revisar-EsperaDe (crea pid id size) k s = tt
revisar-EsperaDe (compacta pid id size) k s = tt

revisar-hilo : (k : Kernel) → (revisar k).hilo ≡ k.hilo
unfolding revisar
revisar-hilo k =
    if_elim (λ (x : Kernel). x.hilo ≡ k.hilo)
      ((k.compaction_blockers == 0) && k.compaction_required) refl refl

pub revisar-Atendida : (k : Kernel) → Atendida k → Atendida (revisar k)
unfolding quieto
revisar-Atendida k s =
    subst (λ h. EsperaEn h (revisar k)) (sym (revisar-hilo k)) (revisar-EsperaDe k.hilo k s)

-- What an operation of `operarFS` leaves alone, the counter excepted.
abbrev Igual : Kernel → Kernel → Type 0
Igual k k' =
    (k'.hilo ≡ k.hilo)
    × (k'.compaction_permission ≡ k.compaction_permission)
    × (k'.compaction_required ≡ k.compaction_required)

Marco-Igual : (k : Kernel) (o : Outcome Kernel) → Sale (Marco k) o → Sale (Igual k) o
unfolding quieto
Marco-Igual k o m = Sale-mono o m (λ k' (e, f). (
  ap (λ (q : Quieto). q.q_hilo) e,
  ap (λ (q : Quieto). q.q_permission) e,
  ap (λ (q : Quieto). q.q_required) e,
))

operar-Igual :
    (respuesta : ℤ) (nodo : BlockedNode) (k : Kernel) → Sale (Igual k) (operar respuesta nodo k)
operar-Igual respuesta nodo k =
    let pid = nodo.un_pcb in
    operar_cases (Igual k) respuesta nodo k
      (λ e n. Marco-Igual k (process_f_open (es_uno respuesta) n pid k) (f_open-Marco _ n pid k))
      (λ e n. Marco-Igual k (process_f_close n pid k) (f_close-Marco n pid k))
      (λ e.
        Marco-Igual k (f_truncate_process respuesta nodo.parametros pid k)
          (f_truncate-Marco respuesta nodo.parametros pid k))
      (λ e. Marco-Igual k (process_fseek nodo.parametros pid k) (fseek-Marco nodo.parametros pid k))
      (λ e op.
        Sale-bind (Igual k) (Igual k) (process_facceso op nodo.parametros pid k) _
          (Marco-Igual k (process_facceso op nodo.parametros pid k)
            (facceso-Marco op nodo.parametros pid k))
          (λ k1 t. t))

revisada :
    (h : Hilo) (k k' : Kernel)
    → EsperaEn h k
    → k'.compaction_permission ≡ k.compaction_permission
    → k'.compaction_required ≡ k.compaction_required
    → k'.fs_reviso ≡ false
    → EsperaEn h k'
revisada (espera_permiso pid id size) k k' (inl p) a b c = inl (rw (a) p)
revisada (espera_permiso pid id size) k k' (inr (d, f)) a b c = inr (b ∙ d, inr c)
revisada planifica k k' s a b c = tt
revisada (ejecuta pid) k k' s a b c = tt
revisada (crea pid id size) k k' s a b c = tt
revisada (compacta pid id size) k k' s a b c = tt

atender_en-Atendida :
    (nodos : List BlockedNode) (respuesta : ℤ) (k : Kernel)
    → Atendida k
    → Sale Atendida (atender_en nodos respuesta k)
unfolding quieto atender_en
atender_en-Atendida [] respuesta k s = tt
atender_en-Atendida (nodo ∷ nodos) respuesta k s =
    let k0 = record k { consolas_blocked = nodos } in
    Sale-bind (Igual k0) Atendida (operar respuesta nodo k0) _ (operar-Igual respuesta nodo k0)
      (λ k1 (a, b, c).
        let k2 = record k1 { fs_reviso = false } in
        subst (λ h. EsperaEn h k2) (sym a) (revisada k.hilo k k2 s b c refl))

pub atender-Atendida :
    (respuesta : ℤ) (k : Kernel) → Atendida k → Sale Atendida (atender respuesta k)
unfolding quieto atender
atender-Atendida respuesta k s =
    atender_en-Atendida k.consolas_blocked respuesta
      (record k { hay_consolas_blocked = k.hay_consolas_blocked - 1 }) s

pub salir-Atendida : (lista : List ℕ) (k : Kernel) → Atendida k → Sale Atendida (salir lista k)
unfolding quieto salir despedir
salir-Atendida [] k s = tt
salir-Atendida (pid ∷ resto) k s =
    let k0 = enviar (fin_de_proceso pid) (record k {
      consolas_exit = resto;
      global_pcb_list = list_remove (λ p. p == pid) k.global_pcb_list;
    }) in
    Sale-bind_any Atendida (deref (dictionary_get ◌==◌ pid k.pcbs)) _ (λ pcb.
      Sale-bind Atendida Atendida (liberar_recursos_del_proceso pid k0) _
        (Marco-Atendida k0 (liberar_recursos_del_proceso pid k0) s (liberar_recursos-Marco pid k0))
        (λ k1 s1.
          Sale-bind Atendida Atendida (cerrar_archivos (tabla_de pid k1) k1) _
            (Marco-Atendida k1 (cerrar_archivos (tabla_de pid k1) k1) s1
              (cerrar_archivos-Marco (tabla_de pid k1) k1))
            (λ k2 s2. s2)))

pub conecta-Atendida :
    (cod_op : ℤ) (pid : ℕ) (paquete : List Cadena) (k : Kernel)
    → Atendida k
    → Atendida (gestionar_nuevas_conexiones cod_op pid paquete k)
unfolding quieto gestionar_nuevas_conexiones crear_pcb
conecta-Atendida (pos c) pid paquete k s =
    if_elim Atendida (c == OpCode.mensaje) s (if_elim Atendida (c == OpCode.paquete) s s)
conecta-Atendida (negsuc n) pid paquete k s = if_elim Atendida (n == 0) s s

-- The test passes.
pub revisar-da :
    (k : Kernel)
    → k.compaction_blockers ≡ 0
    → k.compaction_required ≡ true
    → revisar k ≡ record k {
      compaction_permission = suc k.compaction_permission;
      compaction_required = false;
      fs_reviso = true;
    }
unfolding revisar
revisar-da k b r = rw (b, r) refl
