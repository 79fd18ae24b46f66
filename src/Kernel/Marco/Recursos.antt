-- ===== src/Kernel/Marco/Recursos.antt =====
-- kernel.h: what WAIT, SIGNAL and the release of resources leave alone.
use unix_os_simulation.Base.{
  ℕ, zero, suc, refl, List, [], ◌∷◌, ◌++◌, Option, none, some, Outcome, ok, deref, Sale,
  Sale-bind_any, Sale-mono, Cadena, codes, strcmp_eq, length-append, arith,
}
use unix_os_simulation.Kernel.{Kernel, adelante}
use unix_os_simulation.Kernel.Marco.{
  quieto, Marco, archivero, Fijo, Fijo-trans, Fijo-bind, adelante-Marco, finalizar-Marco,
}
use unix_os_simulation.Kernel.Diccionario.{dictionary_get}
use unix_os_simulation.Kernel.Recursos.{
  copiar_recurso, registrar_en, registrar_recursos_del_proceso, bloquear, tomar, wait_en,
  wait_recurso_lista, quitar_de, quitar_recurso_del_proceso, liberar_recurso_en,
  liberar_recurso_y_actualizar_ready, signal_en, signal_recurso_lista, liberar_todos,
  liberar_asignados, liberar_recursos_del_proceso,
}

bloquear-Fijo :
    (recurso : Cadena) (pid : ℕ) (k : Kernel) (o : Option (List ℕ))
    → Fijo k (bloquear o recurso pid k)
unfolding quieto archivero bloquear
bloquear-Fijo recurso pid k none = ((refl, λ c. c), refl)
bloquear-Fijo recurso pid k (some l) = ((refl, λ c. c), refl)

tomar-Fijo : (n : ℕ) (recurso : Cadena) (pid : ℕ) (k : Kernel) → Fijo k (tomar n recurso pid k)
unfolding quieto archivero tomar
tomar-Fijo zero recurso pid k = bloquear-Fijo recurso pid k _
tomar-Fijo (suc n) recurso pid k = ((refl, λ c. (omega (arith, c.0), c.1)), refl)

registrar-Fijo :
    (pid : ℕ) (recurso : Cadena) (k : Kernel) (o : Option (Option (List Cadena)))
    → Sale (Fijo k) (registrar_en o recurso pid k)
unfolding quieto archivero registrar_en
registrar-Fijo pid recurso k none = ((refl, λ c. c), refl)
registrar-Fijo pid recurso k (some none) = tt
registrar-Fijo pid recurso k (some (some rs)) = ((refl, λ c. c), refl)

wait_en-Fijo :
    (recurso : Cadena) (pid : ℕ) (k : Kernel) (o : Option ℕ)
    → Sale (Fijo k) (wait_en o recurso pid k)
unfolding archivero wait_en registrar_recursos_del_proceso
wait_en-Fijo recurso pid k none =
    (finalizar-Marco (codes "WAIT: " ++ recurso ++ codes " inexistente") pid k, refl)
wait_en-Fijo recurso pid k (some n) =
    Fijo-bind k (registrar_recursos_del_proceso recurso pid k) (λ k1. ok (tomar n recurso pid k1))
      (Sale-bind_any _ (copiar_recurso recurso) _ (λ r. registrar-Fijo pid r k _))
      (λ k1. tomar-Fijo n recurso pid k1)

pub wait-Fijo :
    (recurso : Cadena) (pid : ℕ) (k : Kernel) → Sale (Fijo k) (wait_recurso_lista recurso pid k)
unfolding wait_recurso_lista
wait-Fijo recurso pid k = wait_en-Fijo recurso pid k _

quitar-Fijo :
    (pid : ℕ) (recurso : Cadena) (k : Kernel) (o : Option (Option (List Cadena)))
    → Sale (Fijo k) (quitar_de o recurso pid k)
unfolding quieto archivero quitar_de
quitar-Fijo pid recurso k none = tt
quitar-Fijo pid recurso k (some none) = tt
quitar-Fijo pid recurso k (some (some rs)) = ((refl, λ c. c), refl)

liberar_en-Fijo :
    (recurso : Cadena) (k : Kernel) (o : Option (List ℕ))
    → Sale (Fijo k) (liberar_recurso_en o recurso k)
unfolding quieto archivero liberar_recurso_en
liberar_en-Fijo recurso k none =
    Sale-bind_any (Fijo k) (deref (dictionary_get strcmp_eq recurso k.recursos_disponibles)) _
      (λ n. ((refl, λ c. c), refl))
liberar_en-Fijo recurso k (some []) = tt
liberar_en-Fijo recurso k (some (p ∷ ps)) =
    Sale-bind_any (Fijo k) (deref (dictionary_get strcmp_eq recurso k.recursos_disponibles)) _
      (λ n. ((refl, λ c. (omega (arith, length-append k.consolas_ready (p ∷ []), c.0), c.1)), refl))

liberar_recurso-Fijo :
    (recurso : Cadena) (k : Kernel) → Sale (Fijo k) (liberar_recurso_y_actualizar_ready recurso k)
unfolding liberar_recurso_y_actualizar_ready
liberar_recurso-Fijo recurso k = liberar_en-Fijo recurso k _

signal_en-Fijo :
    (recurso : Cadena) (pid : ℕ) (k : Kernel) (o : Option ℕ)
    → Sale (Fijo k) (signal_en o recurso pid k)
unfolding archivero signal_en quitar_recurso_del_proceso
signal_en-Fijo recurso pid k none =
    (finalizar-Marco (codes "SIGNAL: " ++ recurso ++ codes " inexistente") pid k, refl)
signal_en-Fijo recurso pid k (some n) =
    Fijo-bind k (quitar_recurso_del_proceso recurso pid k)
      (λ k1. liberar_recurso_y_actualizar_ready recurso (adelante pid k1))
      (quitar-Fijo pid recurso k _)
      (λ k1.
        Sale-mono (liberar_recurso_y_actualizar_ready recurso (adelante pid k1))
          (liberar_recurso-Fijo recurso (adelante pid k1))
          (λ k2 m. Fijo-trans k1 (adelante pid k1) k2 ((adelante-Marco pid k1, refl)) m))

pub signal-Fijo :
    (recurso : Cadena) (pid : ℕ) (k : Kernel) → Sale (Fijo k) (signal_recurso_lista recurso pid k)
unfolding signal_recurso_lista
signal-Fijo recurso pid k = signal_en-Fijo recurso pid k _

liberar_todos-Fijo : (rs : List Cadena) (k : Kernel) → Sale (Fijo k) (liberar_todos rs k)
unfolding quieto archivero liberar_todos
liberar_todos-Fijo [] k = ((refl, λ c. c), refl)
liberar_todos-Fijo (r ∷ rs) k =
    Fijo-bind k (liberar_recurso_y_actualizar_ready r k) (liberar_todos rs)
      (liberar_recurso-Fijo r k) (liberar_todos-Fijo rs)

liberar_asignados-Fijo :
    (pid : ℕ) (k : Kernel) (o : Option (Option (List Cadena)))
    → Sale (Fijo k) (liberar_asignados o pid k)
unfolding quieto archivero liberar_asignados
liberar_asignados-Fijo pid k none = ((refl, λ c. c), refl)
liberar_asignados-Fijo pid k (some none) = tt
liberar_asignados-Fijo pid k (some (some [])) = ((refl, λ c. c), refl)
liberar_asignados-Fijo pid k (some (some (r ∷ rs))) =
    Fijo-bind k (liberar_todos (r ∷ rs) k) _ (liberar_todos-Fijo (r ∷ rs) k)
      (λ k1. ((refl, λ c. c), refl))

pub liberar_recursos-Fijo :
    (pid : ℕ) (k : Kernel) → Sale (Fijo k) (liberar_recursos_del_proceso pid k)
unfolding liberar_recursos_del_proceso
liberar_recursos-Fijo pid k = liberar_asignados-Fijo pid k _

module _ (k : Kernel) (llamada : Outcome Kernel) where
  pub Fijo-Marco : Sale (Fijo k) llamada → Sale (Marco k) llamada
  Fijo-Marco h = Sale-mono llamada h (λ k' m. m.0)

pub wait-Marco :
    (recurso : Cadena) (pid : ℕ) (k : Kernel) → Sale (Marco k) (wait_recurso_lista recurso pid k)
wait-Marco recurso pid k = Fijo-Marco k (wait_recurso_lista recurso pid k) (wait-Fijo recurso pid k)

pub signal-Marco :
    (recurso : Cadena) (pid : ℕ) (k : Kernel) → Sale (Marco k) (signal_recurso_lista recurso pid k)
signal-Marco recurso pid k =
    Fijo-Marco k (signal_recurso_lista recurso pid k) (signal-Fijo recurso pid k)

pub liberar_recursos-Marco :
    (pid : ℕ) (k : Kernel) → Sale (Marco k) (liberar_recursos_del_proceso pid k)
liberar_recursos-Marco pid k =
    Fijo-Marco k (liberar_recursos_del_proceso pid k) (liberar_recursos-Fijo pid k)
