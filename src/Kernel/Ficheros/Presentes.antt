-- ===== src/Kernel/Ficheros/Presentes.antt =====
-- kernel.h: where PCBs stand after the operations of `operarFS`, and the space for more processes.
use unix_os_simulation.Base.{
  false, ◌>>=◌, ℕ, ◌+◌, ◌-◌, ◌≡◌, refl, ap, true, List, [], ◌∷◌, ◌++◌, Outcome, ok, deref, Sale,
  Sale-bind, Sale-bind_any, Sale-mono, Sale-and, Sale-ok, Cadena, codes, none, sym, subst,
  strcmp_eq, ◌==◌, if_elim, arith,
}
use unix_os_simulation.Base.Int.{ℤ, atoi, es_menos_uno}
use unix_os_simulation.Kernel.{Kernel, BlockedNode, trunca_archivo, enviar}
use unix_os_simulation.Kernel.Diccionario.{dictionary_get}
use unix_os_simulation.Kernel.Presencia.{presentes, Suma}
use unix_os_simulation.Kernel.Marco.{quieto, Quieto, Marco}
use unix_os_simulation.Kernel.Marco.Ficheros.{
  f_close-Marco, f_open-Marco, f_truncate-Marco, fseek-Marco, facceso-Marco,
}
use unix_os_simulation.Kernel.Recursos.Presentes.{adelante-Suma, finalizar-Suma}
use unix_os_simulation.Kernel.Archivos.{
  buscar_descriptor, tabla_de, process_f_open, process_f_close,
}
use unix_os_simulation.Kernel.Archivos.Colas.{f_close-Suma, f_open-Suma}
use unix_os_simulation.Kernel.Ficheros.{
  parametro, es_uno, es_dos, truncado, f_truncate_process, process_fseek, process_facceso, operar,
  atender_en, atender,
}
use unix_os_simulation.Kernel.Operaciones.Casos.{operar_cases}

module _ (w : ℕ → ℕ) where
  -- The PCBs that stand somewhere gain `n`, and the space stays.
  abbrev pub Deja : ℕ → Kernel → Kernel → Type 0
  Deja n k k' = Suma w k n k' × (k'.hay_espacio_ready ≡ k.hay_espacio_ready)

  -- A call within the frame.
  pub con_espacio :
      (P : Kernel → Type 0) (k : Kernel) (llamada : Outcome Kernel)
      → Sale P llamada
      → Sale (Marco k) llamada
      → Sale (λ k'. P k' × (k'.hay_espacio_ready ≡ k.hay_espacio_ready)) llamada
  unfolding quieto
  con_espacio P k llamada s m =
      Sale-and P _ llamada s
        (Sale-mono llamada m (λ k' (e, f). ap (λ (q : Quieto). q.q_hay_espacio) e))

  truncado-Suma :
      (confirmation : ℤ) (name : Cadena) (pid : ℕ) (k : Kernel)
      → Suma w k (w pid) (truncado confirmation name pid k)
  unfolding truncado presentes
  truncado-Suma confirmation name pid k =
      if_elim (Suma w k (w pid)) (es_menos_uno confirmation)
        (finalizar-Suma w (codes "F_TRUNCATE: OUT_OF_SPACE") pid (record k { replanificar = true }))
        (if_elim (Suma w k (w pid)) (es_dos confirmation)
          (finalizar-Suma w (codes "F_TRUNCATE: " ++ name ++ codes " not found") pid
            (record k { replanificar = true }))
          (adelante-Suma w pid k))

  f_truncate-Suma :
      (confirmation : ℤ) (ps : List Cadena) (pid : ℕ) (k : Kernel)
      → Sale (Suma w k (w pid)) (f_truncate_process confirmation ps pid k)
  unfolding f_truncate_process presentes
  f_truncate-Suma confirmation ps pid k = Sale-bind_any _ (parametro 0 ps) _ (λ name.
      Sale-bind_any _ (parametro 1 ps) _
        (λ size. truncado-Suma confirmation name pid (enviar (trunca_archivo name (atoi size)) k)))

  fseek-Suma :
      (ps : List Cadena) (pid : ℕ) (k : Kernel) → Sale (Suma w k (w pid)) (process_fseek ps pid k)
  unfolding process_fseek presentes
  fseek-Suma ps pid k = Sale-bind_any _ (parametro 0 ps) _ (λ name.
      Sale-bind_any _ (parametro 1 ps) _ (λ puntero.
        Sale-bind_any _ (buscar_descriptor k.descriptores name (tabla_de pid k)) _ (λ o.
          Sale-bind_any _ (deref o) _ (λ d.
            Sale-bind_any _ (deref (dictionary_get ◌==◌ d k.descriptores)) _
              (λ descr. omega arith)))))

  facceso-Suma :
      (cod_op : ℕ) (ps : List Cadena) (pid : ℕ) (k : Kernel)
      → Sale (Suma w k (w pid)) (process_facceso cod_op ps pid k)
  unfolding process_facceso presentes
  facceso-Suma cod_op ps pid k = Sale-bind_any _ (parametro 0 ps) _ (λ name.
      Sale-bind_any _ (buscar_descriptor k.descriptores name k.gdt) _ (λ o.
        Sale-bind_any _ (deref o) _ (λ d.
          Sale-bind_any _ (deref (dictionary_get ◌==◌ d k.descriptores)) _ (λ descr.
            Sale-bind_any _ (parametro 1 ps) _
              (λ a. Sale-bind_any _ (parametro 2 ps) _ (λ b. omega arith))))))

  -- By what is known of F_OPEN.
  operar-por :
      (R : ℕ → ℕ → Type 0) (respuesta : ℤ) (nodo : BlockedNode) (k : Kernel)
      → ((a b : ℕ) → a ≡ b → R a b)
      → ((name : Cadena)
          → Sale
              (λ k'. R (presentes w k') (presentes w k + w nodo.un_pcb))
              (process_f_open (es_uno respuesta) name nodo.un_pcb k))
      → Sale
          (λ k'.
            R (presentes w k') (presentes w k + w nodo.un_pcb)
            × (k'.hay_espacio_ready ≡ k.hay_espacio_ready))
          (operar respuesta nodo k)
  unfolding presentes
  operar-por R respuesta nodo k r abre =
      let pid = nodo.un_pcb in
      let Bien : Kernel → Type 0 = λ k'.
        R (presentes w k') (presentes w k + w pid) × (k'.hay_espacio_ready ≡ k.hay_espacio_ready) in
      let suave : (o : Outcome Kernel)
          → Sale (Suma w k (w pid)) o
          → Sale (Marco k) o
          → Sale Bien o =
        λ o s m. Sale-mono o (con_espacio (Suma w k (w pid)) k o s m) (λ k' (e, f). (r _ _ e, f)) in
      operar_cases Bien respuesta nodo k
        (λ e n.
          con_espacio (λ k'. R (presentes w k') (presentes w k + w pid)) k
            (process_f_open (es_uno respuesta) n pid k) (abre n) (f_open-Marco _ n pid k))
        (λ e n. suave (process_f_close n pid k) (f_close-Suma w n pid k) (f_close-Marco n pid k))
        (λ e.
          suave (f_truncate_process respuesta nodo.parametros pid k)
            (f_truncate-Suma respuesta nodo.parametros pid k)
            (f_truncate-Marco respuesta nodo.parametros pid k))
        (λ e.
          suave (process_fseek nodo.parametros pid k) (fseek-Suma nodo.parametros pid k)
            (fseek-Marco nodo.parametros pid k))
        (λ e op.
          Sale-bind Bien Bien (process_facceso op nodo.parametros pid k) _
            (suave (process_facceso op nodo.parametros pid k)
              (facceso-Suma op nodo.parametros pid k) (facceso-Marco op nodo.parametros pid k))
            (λ k1 b. b))

  -- One turn of `operarFS` takes a PCB out of its queue and puts it elsewhere.
  atender-por :
      (R : ℕ → ℕ → Type 0) (respuesta : ℤ) (nodos : List BlockedNode) (k : Kernel)
      → ((a b : ℕ) → a ≡ b → R a b)
      → nodos ≡ k.consolas_blocked
      → ((name : Cadena) (pid : ℕ) (k0 : Kernel)
          → k0.descriptores ≡ k.descriptores
          → k0.gdt ≡ k.gdt
          → k0.colas_archivos ≡ k.colas_archivos
          → Sale
              (λ k'. R (presentes w k') (presentes w k0 + w pid))
              (process_f_open (es_uno respuesta) name pid k0))
      → Sale
          (λ k'. R (presentes w k') (presentes w k) × (k'.hay_espacio_ready ≡ k.hay_espacio_ready))
          (atender_en nodos respuesta k)
  unfolding presentes atender_en
  atender-por R respuesta [] k r e abre = tt
  atender-por R respuesta (nodo ∷ nodos) k r e abre =
      let k0 = record k { consolas_blocked = nodos } in
      let igual : presentes w k0 + w nodo.un_pcb ≡ presentes w k = rw (sym e) (omega arith) in
      Sale-bind
        (λ k'.
          R (presentes w k') (presentes w k0 + w nodo.un_pcb)
          × (k'.hay_espacio_ready ≡ k0.hay_espacio_ready))
        _ (operar respuesta nodo k0) _
        (operar-por R respuesta nodo k0 r (λ n. abre n nodo.un_pcb k0 refl refl refl))
        (λ k1 (a, b). (subst (R (presentes w k1)) igual a, b))

  -- Where a file that is not in the global table has no queue.
  pub atender-Queda :
      (respuesta : ℤ) (k : Kernel)
      → ((name : Cadena)
          → buscar_descriptor k.descriptores name k.gdt ≡ ok none
          → dictionary_get strcmp_eq name k.colas_archivos ≡ none)
      → Sale
          (λ k'. (presentes w k' ≡ presentes w k) × (k'.hay_espacio_ready ≡ k.hay_espacio_ready))
          (atender respuesta k)
  unfolding presentes atender
  atender-Queda respuesta k sin =
      atender-por ◌≡◌ respuesta k.consolas_blocked
        (record k { hay_consolas_blocked = k.hay_consolas_blocked - 1 }) (λ a b e. e) refl
        (λ n pid k0 a b c.
          f_open-Suma w (es_uno respuesta) n pid k0 (λ e. rw (c) (sin n (rw (a, b) at e))))

-- What operarFS does for a node it has taken leaves its queue alone.
operar-bloqueadas :
    (respuesta : ℤ) (nodo : BlockedNode) (k : Kernel)
    → Sale (λ k'. k'.consolas_blocked ≡ k.consolas_blocked) (operar respuesta nodo k)
unfolding quieto
operar-bloqueadas respuesta nodo k =
    let pid = nodo.un_pcb in
    let Bien : Kernel → Type 0 = λ k'. k'.consolas_blocked ≡ k.consolas_blocked in
    let marco : (o : Outcome Kernel) → Sale (Marco k) o → Sale Bien o =
      λ o m. Sale-mono o m (λ k' (e, f). ap (λ (q : Quieto). q.q_blocked) e) in
    operar_cases Bien respuesta nodo k
      (λ e n. marco (process_f_open (es_uno respuesta) n pid k) (f_open-Marco _ n pid k))
      (λ e n. marco (process_f_close n pid k) (f_close-Marco n pid k))
      (λ e.
        marco (f_truncate_process respuesta nodo.parametros pid k)
          (f_truncate-Marco respuesta nodo.parametros pid k))
      (λ e. marco (process_fseek nodo.parametros pid k) (fseek-Marco nodo.parametros pid k))
      (λ e op.
        Sale-bind Bien Bien (process_facceso op nodo.parametros pid k) _
          (marco (process_facceso op nodo.parametros pid k)
            (facceso-Marco op nodo.parametros pid k))
          (λ k1 b. b))

atender-primero :
    (respuesta : ℤ) (k k' : Kernel) (ns : List BlockedNode)
    → k.consolas_blocked ≡ ns
    → atender_en ns respuesta (record k { hay_consolas_blocked = k.hay_consolas_blocked - 1 })
      ≡ ok k'
    → (nodo : BlockedNode) × (nodos : List BlockedNode) × (k.consolas_blocked ≡ nodo ∷ nodos)
      × (k'.consolas_blocked ≡ nodos)
unfolding atender_en
atender-primero respuesta k k' [] e h = cc
atender-primero respuesta k k' (nodo ∷ nodos) e h =
    let k0 = record k {
      hay_consolas_blocked = k.hay_consolas_blocked - 1;
      consolas_blocked = nodos;
    } in
    (
      nodo,
      nodos,
      e,
      Sale-ok (λ x. x.consolas_blocked ≡ nodos)
          (operar respuesta nodo k0 >>= λ k1. ok (record k1 { fs_reviso = false })) k'
          (Sale-bind (λ x. x.consolas_blocked ≡ nodos) _ (operar respuesta nodo k0) _
            (operar-bloqueadas respuesta nodo k0) (λ k1 b. b))
          h,
    )

-- One turn of operarFS that returns, where every queue of a file is that of a file in the global
-- table, finds a node in the queue of blocked PCBs and leaves that queue without its first node and
-- otherwise as it was; and that PCB, like all others, stands in the places of PCBs as often as
-- before, by any weight of the PCBs: in exactly one other place.
pub atender-presentes :
    (respuesta : ℤ) (k k' : Kernel)
    → ((name : Cadena)
        → buscar_descriptor k.descriptores name k.gdt ≡ ok none
        → dictionary_get strcmp_eq name k.colas_archivos ≡ none)
    → atender respuesta k ≡ ok k'
    → (nodo : BlockedNode) × (nodos : List BlockedNode) × (k.consolas_blocked ≡ nodo ∷ nodos)
      × (k'.consolas_blocked ≡ nodos)
      × ((w : ℕ → ℕ) → presentes w k' ≡ presentes w k)
unfolding atender
atender-presentes respuesta k k' sin h =
    let (nodo, nodos, e, f) = atender-primero respuesta k k' k.consolas_blocked refl h in
    (
      nodo,
      nodos,
      e,
      f,
      λ w.
          (Sale-ok
            (λ x. (presentes w x ≡ presentes w k) × (x.hay_espacio_ready ≡ k.hay_espacio_ready))
            (atender respuesta k) k' (atender-Queda w respuesta k sin) h).0,
    )
