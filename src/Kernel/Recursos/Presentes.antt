-- ===== src/Kernel/Recursos/Presentes.antt =====
-- kernel.h: where PCBs stand before and after WAIT, SIGNAL and the release of resources.
use unix_os_simulation.Base.{
  ℕ, zero, suc, ◌+◌, ◌≡◌, refl, ◌∙◌, List, [], ◌∷◌, ◌++◌, Option, none, some, ok, deref, Sale,
  Sale-bind, Sale-bind_any, Sale-ok, Sale-mono, Cadena, strcmp_eq, ◌==◌, arith,
}
use unix_os_simulation.Kernel.{Kernel, a_ready, adelante, finalizar}
use unix_os_simulation.Kernel.Diccionario.{
  dictionary_get, suma, suma-put_new, suma-put, suma-remove,
}
use unix_os_simulation.Kernel.Presencia.{peso, presentes, Suma, peso-append}
use unix_os_simulation.Kernel.Recursos.{
  copiar_recurso, registrar_en, registrar_recursos_del_proceso, bloquear, tomar, wait_en,
  wait_recurso_lista, quitar_de, quitar_recurso_del_proceso, esperan, liberar_recurso_en,
  liberar_recurso_y_actualizar_ready, signal_en, signal_recurso_lista, liberar_todos,
  liberar_asignados, liberar_recursos_del_proceso,
}

module _ (w : ℕ → ℕ) where
  pub a_ready-Suma : (pid : ℕ) (k : Kernel) → Suma w k (w pid) (a_ready pid k)
  unfolding presentes
  a_ready-Suma pid k = omega (arith, peso-append w k.consolas_ready (pid ∷ []))

  pub adelante-Suma : (pid : ℕ) (k : Kernel) → Suma w k (w pid) (adelante pid k)
  unfolding presentes
  adelante-Suma pid k = omega arith

  pub finalizar-Suma :
      (mensaje : Cadena) (pid : ℕ) (k : Kernel) → Suma w k (w pid) (finalizar mensaje pid k)
  unfolding presentes
  finalizar-Suma mensaje pid k = omega (arith, peso-append w k.consolas_exit (pid ∷ []))

  bloquear-Suma :
      (recurso : Cadena) (pid : ℕ) (k : Kernel) (o : Option (List ℕ))
      → dictionary_get strcmp_eq recurso k.recursos_en_uso ≡ o
      → Suma w k (w pid) (bloquear o recurso pid k)
  unfolding presentes bloquear
  bloquear-Suma recurso pid k none e =
      omega (arith, suma-put_new strcmp_eq (peso w) recurso (pid ∷ []) k.recursos_en_uso e)
  bloquear-Suma recurso pid k (some l) e = omega (
    arith,
    suma-put strcmp_eq (peso w) recurso (l ++ pid ∷ []) l k.recursos_en_uso e,
    peso-append w l (pid ∷ []),
  )

  tomar-Suma :
      (n : ℕ) (recurso : Cadena) (pid : ℕ) (k : Kernel) → Suma w k (w pid) (tomar n recurso pid k)
  unfolding presentes tomar
  tomar-Suma zero recurso pid k =
      bloquear-Suma recurso pid k (dictionary_get strcmp_eq recurso k.recursos_en_uso) refl
  tomar-Suma (suc n) recurso pid k = omega arith

  registrar-Suma :
      (pid : ℕ) (recurso : Cadena) (k : Kernel) (o : Option (Option (List Cadena)))
      → Sale (λ k'. presentes w k' ≡ presentes w k) (registrar_en o recurso pid k)
  unfolding presentes registrar_en
  registrar-Suma pid recurso k none = refl
  registrar-Suma pid recurso k (some none) = tt
  registrar-Suma pid recurso k (some (some rs)) = refl

  pub wait-Suma :
      (recurso : Cadena) (pid : ℕ) (k : Kernel)
      → Sale (Suma w k (w pid)) (wait_recurso_lista recurso pid k)
  unfolding wait_recurso_lista wait_en registrar_recursos_del_proceso
  wait-Suma recurso pid k = go (dictionary_get strcmp_eq recurso k.recursos_disponibles)
    where
      go : (o : Option ℕ) → Sale (Suma w k (w pid)) (wait_en o recurso pid k)
      go none = finalizar-Suma _ pid k
      go (some n) =
          Sale-bind _ (Suma w k (w pid)) (registrar_recursos_del_proceso recurso pid k) _
            (Sale-bind_any _ (copiar_recurso recurso) _ (λ r. registrar-Suma pid r k _))
            (λ k1 s. tomar-Suma n recurso pid k1 ∙ omega (arith, s))

  quitar-Suma :
      (pid : ℕ) (recurso : Cadena) (k : Kernel) (o : Option (Option (List Cadena)))
      → Sale (λ k'. presentes w k' ≡ presentes w k) (quitar_de o recurso pid k)
  unfolding presentes quitar_de
  quitar-Suma pid recurso k none = tt
  quitar-Suma pid recurso k (some none) = tt
  quitar-Suma pid recurso k (some (some rs)) = refl

  suma-esperan :
      (recurso : Cadena) (p : ℕ) (ps : List ℕ) (d : List (Cadena × List ℕ))
      → dictionary_get strcmp_eq recurso d ≡ some (p ∷ ps)
      → suma strcmp_eq (peso w) (esperan recurso ps d) + w p ≡ suma strcmp_eq (peso w) d
  suma-esperan recurso p [] d e = omega (arith, suma-remove strcmp_eq (peso w) recurso (p ∷ []) d e)
  suma-esperan recurso p (x ∷ ps) d e =
      omega (arith, suma-put strcmp_eq (peso w) recurso (x ∷ ps) (p ∷ x ∷ ps) d e)

  pub liberar_recurso-Suma :
      (recurso : Cadena) (k : Kernel)
      → Sale (λ k'. presentes w k' ≡ presentes w k) (liberar_recurso_y_actualizar_ready recurso k)
  unfolding liberar_recurso_y_actualizar_ready liberar_recurso_en presentes
  liberar_recurso-Suma recurso k = go (dictionary_get strcmp_eq recurso k.recursos_en_uso) refl
    where
      go :
          (o : Option (List ℕ))
          → dictionary_get strcmp_eq recurso k.recursos_en_uso ≡ o
          → Sale (λ k'. presentes w k' ≡ presentes w k) (liberar_recurso_en o recurso k)
      go none e =
          Sale-bind_any _ (deref (dictionary_get strcmp_eq recurso k.recursos_disponibles)) _
            (λ n. refl)
      go (some []) e = tt
      go (some (p ∷ ps)) e =
          Sale-bind_any _ (deref (dictionary_get strcmp_eq recurso k.recursos_disponibles)) _ (λ n.
            omega (
              arith,
              suma-esperan recurso p ps k.recursos_en_uso e,
              peso-append w k.consolas_ready (p ∷ []),
            ))

  pub signal-Suma :
      (recurso : Cadena) (pid : ℕ) (k : Kernel)
      → Sale (Suma w k (w pid)) (signal_recurso_lista recurso pid k)
  unfolding signal_recurso_lista signal_en quitar_recurso_del_proceso
  signal-Suma recurso pid k = go (dictionary_get strcmp_eq recurso k.recursos_disponibles)
    where
      despues :
          (k1 : Kernel)
          → presentes w k1 ≡ presentes w k
          → Sale (Suma w k (w pid)) (liberar_recurso_y_actualizar_ready recurso (adelante pid k1))
      despues k1 s =
          Sale-mono (liberar_recurso_y_actualizar_ready recurso (adelante pid k1))
            (liberar_recurso-Suma recurso (adelante pid k1))
            (λ k2 e. e ∙ omega (arith, adelante-Suma pid k1, s))

      go : (o : Option ℕ) → Sale (Suma w k (w pid)) (signal_en o recurso pid k)
      go none = finalizar-Suma _ pid k
      go (some n) =
          Sale-bind _ (Suma w k (w pid)) (quitar_recurso_del_proceso recurso pid k) _
            (quitar-Suma pid recurso k _) despues

  liberar_todos-Suma :
      (rs : List Cadena) (k : Kernel)
      → Sale (λ k'. presentes w k' ≡ presentes w k) (liberar_todos rs k)
  unfolding liberar_todos
  liberar_todos-Suma [] k = refl
  liberar_todos-Suma (r ∷ rs) k =
      Sale-bind _ _ (liberar_recurso_y_actualizar_ready r k) _ (liberar_recurso-Suma r k)
        (λ k1 s. Sale-mono (liberar_todos rs k1) (liberar_todos-Suma rs k1) (λ k2 e. e ∙ s))

  pub liberar_recursos-Suma :
      (pid : ℕ) (k : Kernel)
      → Sale (λ k'. presentes w k' ≡ presentes w k) (liberar_recursos_del_proceso pid k)
  unfolding liberar_recursos_del_proceso liberar_asignados presentes
  liberar_recursos-Suma pid k = go (dictionary_get ◌==◌ pid k.recursos_por_proceso)
    where
      go :
          (o : Option (Option (List Cadena)))
          → Sale (λ k'. presentes w k' ≡ presentes w k) (liberar_asignados o pid k)
      go none = refl
      go (some none) = tt
      go (some (some [])) = refl
      go (some (some (r ∷ rs))) =
          Sale-bind _ _ (liberar_todos (r ∷ rs) k) _ (liberar_todos-Suma (r ∷ rs) k) (λ k1 s. s)

-- A WAIT that returns puts the PCB that the CPU gave back into exactly one of the places where PCBs
-- stand, and every PCB else stands there as often as before, by any weight of the PCBs.
pub wait_recurso_lista-presentes :
    (recurso : Cadena) (pid : ℕ) (k k' : Kernel)
    → wait_recurso_lista recurso pid k ≡ ok k'
    → (w : ℕ → ℕ) → presentes w k' ≡ presentes w k + w pid
wait_recurso_lista-presentes recurso pid k k' h w =
    Sale-ok (Suma w k (w pid)) (wait_recurso_lista recurso pid k) k' (wait-Suma w recurso pid k) h

-- A SIGNAL that returns puts the PCB that the CPU gave back into exactly one of the places where
-- PCBs stand, and every PCB else, the one that is woken included, stands there as often as before, by
-- any weight of the PCBs.
pub signal_recurso_lista-presentes :
    (recurso : Cadena) (pid : ℕ) (k k' : Kernel)
    → signal_recurso_lista recurso pid k ≡ ok k'
    → (w : ℕ → ℕ) → presentes w k' ≡ presentes w k + w pid
signal_recurso_lista-presentes recurso pid k k' h w =
    Sale-ok (Suma w k (w pid)) (signal_recurso_lista recurso pid k) k' (signal-Suma w recurso pid k)
      h

-- The release of all that an ended process was assigned, when it returns, leaves every PCB in the
-- places where PCBs stand as often as before, by any weight of the PCBs.
pub liberar_recursos_del_proceso-presentes :
    (pid : ℕ) (k k' : Kernel)
    → liberar_recursos_del_proceso pid k ≡ ok k'
    → (w : ℕ → ℕ) → presentes w k' ≡ presentes w k
liberar_recursos_del_proceso-presentes pid k k' h w =
    Sale-ok _ (liberar_recursos_del_proceso pid k) k' (liberar_recursos-Suma w pid k) h
