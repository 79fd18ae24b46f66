-- ===== src/Kernel/Sistema/Esperas/Refina.antt =====
-- kernel.h: the steps with their waits as steps of the bag of admitted processes.
use unix_os_simulation.Base.{
  ℕ, ◌+◌, ◌≤◌, ◌≡◌, refl, sym, ap, subst, ◌⊎◌, inl, inr, List, Cadena, arith,
}
use unix_os_simulation.Kernel.Presencia.{peso_nodos, presentes}
use unix_os_simulation.Kernel.Sistema.{◌⟶◌, admite, atiende}
use unix_os_simulation.Kernel.Sistema.Admision.{Carga, ◌⇒◌, queda, entra, termina, carga}
use unix_os_simulation.Kernel.Sistema.Admision.Pasos.{alcanzable-refina}
use unix_os_simulation.Kernel.Sistema.Esperas.{
  Estado, consola_tomada, lugar_tomado, visto, ◌⟹◌, toma_consola, toma_lugar, recibe_tabla,
  toma_nodo, responde_fs, ajeno, ◌⟹*◌, y_luego, estado_inicial,
}
use unix_os_simulation.Kernel.Sistema.Esperas.Alcance.{Respaldado, alcanzado}
use unix_os_simulation.Kernel.Sistema.Esperas.Garantias.{retenidos, presentes-visto, lugares-visto}

-- The abstract view: the PCB that `operarFS` has taken is admitted, and a place that
-- `gestionadorReady` has taken is free until the process stands in the ready queue.
unfoldable pub carga_de : Estado → Carga
carga_de s = record {
  admitidos = λ w. presentes w (visto s) + peso_nodos w (retenidos s);
  lugares = (visto s).hay_espacio_ready + lugar_tomado s.admision;
}

-- A step with waits is none of the step without, or one.
proyecta : (s s' : Estado) → Respaldado s → s ⟹ s' → (s'.kernel ≡ s.kernel) ⊎ (s.kernel ⟶ s'.kernel)
unfolding consola_tomada lugar_tomado
proyecta s s' v (toma_consola a h e) = inl (ap (λ (x : Estado). x.kernel) e)
proyecta s s' v (toma_lugar a h e) = inl (ap (λ (x : Estado). x.kernel) e)
proyecta s s' v (recibe_tabla tabla k' a h e) =
    let c = subst (λ x. consola_tomada x ≤ (s.kernel).hay_consolas_new) a v.consola in
    let l = subst (λ x. lugar_tomado x ≤ (s.kernel).hay_espacio_ready) a v.lugar in
    inr (subst (λ x. s.kernel ⟶ x.kernel) (sym e) (admite tabla c l h))
proyecta s s' v (toma_nodo a b h e) = inl (ap (λ (x : Estado). x.kernel) e)
proyecta s s' v (responde_fs respuesta k' a h e) =
    let (x, y) = v.nodo a in
    inr (subst (λ z. s.kernel ⟶ z.kernel) (sym e) (atiende respuesta y x h))
proyecta s s' v (ajeno k' p q e) = inr (subst (λ x. s.kernel ⟶ x.kernel) (sym e) p)

module _ (c c' d d' : Carga) (f : (w : ℕ → ℕ) → d.admitidos w ≡ c.admitidos w)
    (f' : (w : ℕ → ℕ) → d'.admitidos w ≡ c'.admitidos w) (l : d.lugares ≡ c.lugares)
    (l' : d'.lugares ≡ c'.lugares) where
  ⇒-igual : c ⇒ c' → d ⇒ d'
  ⇒-igual (queda a b) = queda (λ w. omega (arith, a w, f w, f' w)) (omega (arith, b, l, l'))
  ⇒-igual (entra pid a b) = entra pid (λ w. omega (arith, a w, f w, f' w)) (omega (arith, b, l, l'))
  ⇒-igual (termina pid a b) =
      termina pid (λ w. omega (arith, a w, f w, f' w)) (omega (arith, b, l, l'))

-- Every step of the threads, each between two waits, from a state that they reach is a step of the
-- abstract view, which has the bag of admitted processes, with the PCB that operarFS has taken, and
-- the places without an admitted process, with the one that gestionadorReady has taken for the
-- process to come: nothing changes, one process takes a place, or one process gives its place back.
pub visto-refina :
    (grado : ℕ) (recursos : List (Cadena × ℕ)) (s s' : Estado)
    → estado_inicial grado recursos ⟹* s
    → s ⟹ s'
    → carga_de s ⇒ carga_de s'
unfolding carga_de carga
visto-refina grado recursos s s' r p =
    let r' = y_luego r p in
    ⇒-igual (carga s.kernel) (carga s'.kernel) (carga_de s) (carga_de s')
      (presentes-visto grado recursos s r) (presentes-visto grado recursos s' r')
      (lugares-visto grado recursos s r) (lugares-visto grado recursos s' r')
      (paso (proyecta s s' (alcanzado grado recursos s r).1 p))
  where
    paso : (s'.kernel ≡ s.kernel) ⊎ (s.kernel ⟶ s'.kernel) → carga s.kernel ⇒ carga s'.kernel
    paso (inl e) = subst (λ k. carga s.kernel ⇒ carga k) (sym e) (queda (λ w. refl) refl)
    paso (inr q) =
        alcanzable-refina grado recursos s.kernel s'.kernel (alcanzado grado recursos s r).0 q
