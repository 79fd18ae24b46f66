-- ===== src/Kernel/Sistema/Admision/Pasos.antt =====
-- kernel.h: the steps of the threads as steps of the bag of admitted processes.
use unix_os_simulation.Base.{
  ℕ, ◌-◌, ◌≡◌, refl, sym, ap, subst, ◌∙◌, ◌&&◌, List, [], ◌∷◌, Sale, Sale-bind, Sale-mono, Sale-ok,
  Cadena, ◌==◌, if_elim, arith,
}
use unix_os_simulation.Base.Int.{ℤ}
use unix_os_simulation.Biblioteca.{Segmento, ExecContext}
use unix_os_simulation.Kernel.{Kernel, planifica, ejecuta, crea, compacta, kernel_inicial}
use unix_os_simulation.Kernel.Marco.{archivero}
use unix_os_simulation.Kernel.Archivos.Abiertos.{IsAbierto}
use unix_os_simulation.Kernel.Procesos.{gestionador_ready, correr_primero, recibir_pcb, retener_pcb}
use unix_os_simulation.Kernel.Segmentos.{
  con_segmentos, create_segment, tomar_permiso, create_segment_respuesta,
  recibir_tablas_compactadas, compactada,
}
use unix_os_simulation.Kernel.Ficheros.{atender, revisar}
use unix_os_simulation.Kernel.Operaciones.{read_op}
use unix_os_simulation.Kernel.Salida.{gestionador_exit}
use unix_os_simulation.Kernel.Sistema.{
  flag_de, volver, ◌⟶◌, ◌⟶*◌, conecta, admite, ordena, corre, vuelve, responde, permite, compacto,
  despierta, revisa, atiende, sale,
}
use unix_os_simulation.Memoria.Asignacion.{Codigo}
use unix_os_simulation.Kernel.Presencia.{peso_hilo, presentes, peso-append}
use unix_os_simulation.Kernel.Archivos.Abiertos.{IsAbierto-sin}
use unix_os_simulation.Kernel.Ficheros.Presentes.{atender-Queda}
use unix_os_simulation.Kernel.Operaciones.Presentes.{read_op-Deja}
use unix_os_simulation.Kernel.Sistema.Tablas.{alcanzable-IsAbierto}
use unix_os_simulation.Kernel.Sistema.Admision.{
  ◌⇒◌, queda, entra, termina, carga, peso-quitar, recibir-Deja, segmentos-Deja, tablas-Deja,
  conecta-Queda, admitir-entra, correr-Queda, segun_flag-Queda, salir-termina,
}

volver-Suma :
    (w : ℕ → ℕ) (cod_op : ℕ) (c : ExecContext) (tabla : List Segmento) (pid : ℕ) (k : Kernel)
    → k.hilo ≡ ejecuta pid
    → Sale
        (λ k'. (presentes w k' ≡ presentes w k) × (k'.hay_espacio_ready ≡ k.hay_espacio_ready))
        (volver cod_op c tabla pid k)
unfolding volver presentes
volver-Suma w cod_op c tabla pid k h =
    let k0 = record k { hilo = planifica } in
    let u = ap (peso_hilo w) h in
    Sale-bind _ _ (recibir_pcb c pid k0) _ (recibir-Deja w c pid k0) (λ k1 ((a, b), d).
      Sale-mono (read_op cod_op pid c.parametros tabla k1)
        (read_op-Deja w cod_op pid c.parametros tabla k1 d)
        (λ k2 (e, f). (omega (arith, a, e, u), f ∙ b)))

responder-Suma :
    (w : ℕ → ℕ) (flag : Codigo) (tabla : List Segmento) (pid : ℕ) (id size : ℤ) (k : Kernel)
    → k.hilo ≡ crea pid id size
    → Sale
        (λ k'. (presentes w k' ≡ presentes w k) × (k'.hay_espacio_ready ≡ k.hay_espacio_ready))
        (create_segment_respuesta (flag_de flag) tabla pid id size k)
unfolding create_segment_respuesta
responder-Suma w flag tabla pid id size k h =
    Sale-bind _ _ (con_segmentos pid tabla k) _ (segmentos-Deja w pid tabla k) (λ k1 ((a, b), c).
      let (d, e) = segun_flag-Queda flag pid id size k1 (c ∙ h) in (omega (arith, a, d w), e ∙ b))

compactada-Suma :
    (w : ℕ → ℕ) (tablas : List (ℕ × List Segmento)) (pid : ℕ) (id size : ℤ) (k : Kernel)
    → k.hilo ≡ compacta pid id size
    → Sale
        (λ k'. (presentes w k' ≡ presentes w k) × (k'.hay_espacio_ready ≡ k.hay_espacio_ready))
        (compactada tablas pid id size k)
unfolding compactada create_segment presentes
compactada-Suma w tablas pid id size k h =
    let u = ap (peso_hilo w) h in
    Sale-bind _ _ (recibir_tablas_compactadas tablas k) _ (tablas-Deja w tablas k)
      (λ k1 ((a, b), c). let v = ap (peso_hilo w) c in (omega (arith, a, u, v), b))

-- A call that leaves the bag and the space alone, by each weight.
por_pesos :
    (k k' : Kernel)
    → ((w : ℕ → ℕ)
        → (presentes w k' ≡ presentes w k) × (k'.hay_espacio_ready ≡ k.hay_espacio_ready))
    → carga k ⇒ carga k'
unfolding carga
por_pesos k k' f = queda (λ w. (f w).0) (f (λ p. 0)).1

-- One step.
⟶-refina : (k k' : Kernel) → IsAbierto (archivero k) → k ⟶ k' → carga k ⇒ carga k'
unfolding carga presentes gestionador_ready correr_primero tomar_permiso retener_pcb revisar
    gestionador_exit
⟶-refina k k' s (conecta c pid p e) =
    let (a, b) = conecta-Queda c pid p k in subst (λ x. carga k ⇒ carga x) (sym e) (queda a b)
⟶-refina k k' s (admite tabla a b e) =
    let (pid, f, g) =
      Sale-ok _ (gestionador_ready tabla k) k'
        (admitir-entra k.consolas_new tabla (record k {
          hay_consolas_new = k.hay_consolas_new - 1;
          hay_espacio_ready = k.hay_espacio_ready - 1;
        }))
        e in
    entra pid f (omega (arith, b, g))
⟶-refina k k' s (ordena orden a (l, m) e) =
    subst (λ x. carga k ⇒ carga x) (sym e) (queda (λ w. omega (arith, m w)) refl)
⟶-refina k k' s (corre a b e) =
    let (f, g) =
      Sale-ok _ (correr_primero k) k'
        (correr-Queda k.consolas_ready (record k { hay_consolas_ready = k.hay_consolas_ready - 1 })
          refl a)
        e in
    queda f g
⟶-refina k k' s (vuelve c ctx tabla pid a e) =
    por_pesos k k'
      (λ w. Sale-ok _ (volver c ctx tabla pid k) k' (volver-Suma w c ctx tabla pid k a) e)
⟶-refina k k' s (responde flag tabla pid id size a e) = por_pesos k k' (λ w.
    Sale-ok _ (create_segment_respuesta (flag_de flag) tabla pid id size k) k'
      (responder-Suma w flag tabla pid id size k a) e)
⟶-refina k k' s (permite pid id size a b e) =
    subst (λ x. carga k ⇒ carga x) (sym e)
      (queda (λ w. let u = ap (peso_hilo w) a in omega (arith, u)) refl)
⟶-refina k k' s (compacto tablas pid id size a e) = por_pesos k k' (λ w.
    Sale-ok _ (compactada tablas pid id size k) k' (compactada-Suma w tablas pid id size k a) e)
⟶-refina k k' s (despierta pid a e) =
    subst (λ x. carga k ⇒ carga x) (sym e)
      (queda
        (λ w.
          omega (arith, peso-quitar w pid k.durmiendo a, peso-append w k.consolas_ready (pid ∷ [])))
        refl)
⟶-refina k k' s (revisa a e) =
    subst (λ x. carga k ⇒ carga x) (sym e)
      (if_elim (λ (x : Kernel). carga k ⇒ carga x)
        ((k.compaction_blockers == 0) && k.compaction_required) (queda (λ w. refl) refl)
        (queda (λ w. refl) refl))
⟶-refina k k' s (atiende r a b e) =
    por_pesos k k' (λ w. Sale-ok _ (atender r k) k' (atender-Queda w r k (IsAbierto-sin k s)) e)
⟶-refina k k' s (sale b e) =
    let (pid, f, g) =
      Sale-ok _ (gestionador_exit k) k'
        (salir-termina k.consolas_exit (record k { hay_consolas_exit = k.hay_consolas_exit - 1 })
          refl)
        e in
    termina pid f g

-- Every step of the threads from a state that they reach is a step of the abstract view, which has
-- the bag of admitted processes and the free places: nothing changes, one process takes a place
-- that is free, or one process gives its place back.
pub alcanzable-refina :
    (grado : ℕ) (recursos : List (Cadena × ℕ)) (k k' : Kernel)
    → kernel_inicial grado recursos ⟶* k
    → k ⟶ k'
    → carga k ⇒ carga k'
alcanzable-refina grado recursos k k' r p =
    ⟶-refina k k' (alcanzable-IsAbierto grado recursos k r) p
