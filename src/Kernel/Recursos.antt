-- ===== src/Kernel/Recursos.antt =====
-- kernel.h: WAIT, SIGNAL and the release of what a process holds when it ends.
pub mod Presentes
pub mod Conservacion
use unix_os_simulation.Base.{
  if◌then◌else◌, leb, length, ℕ, zero, suc, ◌+◌, ◌-◌, Bool, List, [], ◌∷◌, ◌++◌, Option, none, some,
  Outcome, ok, faults, deref, ◌>>=◌, Cadena, codes, strcmp_eq, ◌==◌, list_remove,
}
use unix_os_simulation.Kernel.{Kernel, a_ready, adelante, finalizar}
use unix_os_simulation.Kernel.Diccionario.{dictionary_get, dictionary_put, dictionary_remove}

abbrev pub con_asignados : ℕ → List Cadena → Kernel → Kernel
con_asignados pid rs k = record k {
  recursos_por_proceso = dictionary_put ◌==◌ pid (some rs) k.recursos_por_proceso;
}

-- The list of a process, by what the dictionary has for it.
unfoldable pub registrar_en : Option (Option (List Cadena)) → Cadena → ℕ → Kernel → Outcome Kernel
registrar_en none recurso pid k = ok (con_asignados pid (recurso ∷ []) k)
registrar_en (some none) recurso pid k = faults
registrar_en (some (some rs)) recurso pid k = ok (con_asignados pid (rs ++ recurso ∷ []) k)

-- `sizeof(recurso)+1` bytes of the name are copied, which are 9: a longer name has no end, and whoever
-- reads it reads past the copy.
unfoldable pub copiar_recurso : Cadena → Outcome Cadena
copiar_recurso recurso = if leb (length recurso) 8 then ok recurso else faults

unfoldable pub registrar_recursos_del_proceso : Cadena → ℕ → Kernel → Outcome Kernel
unfolding copiar_recurso registrar_en
registrar_recursos_del_proceso recurso pid k = do
  backup_recurso ← copiar_recurso recurso
  registrar_en (dictionary_get ◌==◌ pid k.recursos_por_proceso) backup_recurso pid k

-- The PCB joins those that wait for the resource.
unfoldable pub bloquear : Option (List ℕ) → Cadena → ℕ → Kernel → Kernel
bloquear none recurso pid k = record k {
  recursos_en_uso = dictionary_put strcmp_eq recurso (pid ∷ []) k.recursos_en_uso;
}
bloquear (some lista) recurso pid k = record k {
  recursos_en_uso = dictionary_put strcmp_eq recurso (lista ++ pid ∷ []) k.recursos_en_uso;
}

-- One instance is taken if there is one.
unfoldable pub tomar : ℕ → Cadena → ℕ → Kernel → Kernel
unfolding bloquear
tomar zero recurso pid k =
    bloquear (dictionary_get strcmp_eq recurso k.recursos_en_uso) recurso pid k
tomar (suc n) recurso pid k =
    adelante pid (record k {
      recursos_disponibles = dictionary_put strcmp_eq recurso n k.recursos_disponibles;
    })

unfoldable pub wait_en : Option ℕ → Cadena → ℕ → Kernel → Outcome Kernel
unfolding registrar_recursos_del_proceso tomar
wait_en none recurso pid k =
    ok (finalizar (codes "WAIT: " ++ recurso ++ codes " inexistente") pid k)
wait_en (some n) recurso pid k = do
  k' ← registrar_recursos_del_proceso recurso pid k
  ok (tomar n recurso pid k')

unfoldable pub wait_recurso_lista : Cadena → ℕ → Kernel → Outcome Kernel
unfolding wait_en
wait_recurso_lista recurso pid k =
    wait_en (dictionary_get strcmp_eq recurso k.recursos_disponibles) recurso pid k

-- The first entry with that name leaves the list of the process, if there is one.
unfoldable pub quitar_de : Option (Option (List Cadena)) → Cadena → ℕ → Kernel → Outcome Kernel
quitar_de (some (some rs)) recurso pid k =
    ok (con_asignados pid (list_remove (λ a. strcmp_eq a recurso) rs) k)
quitar_de _ recurso pid k = faults

unfoldable pub quitar_recurso_del_proceso : Cadena → ℕ → Kernel → Outcome Kernel
unfolding quitar_de
quitar_recurso_del_proceso recurso pid k =
    quitar_de (dictionary_get ◌==◌ pid k.recursos_por_proceso) recurso pid k

-- The list of those that wait, without its first.
abbrev pub esperan : Cadena → List ℕ → List (Cadena × List ℕ) → List (Cadena × List ℕ)
esperan recurso [] d = dictionary_remove strcmp_eq recurso d
esperan recurso (p ∷ ps) d = dictionary_put strcmp_eq recurso (p ∷ ps) d

-- The instance goes to the first PCB that waits, or back to the free ones.
unfoldable pub liberar_recurso_en : Option (List ℕ) → Cadena → Kernel → Outcome Kernel
liberar_recurso_en none recurso k = do
  n ← deref (dictionary_get strcmp_eq recurso k.recursos_disponibles)
  ok (record k {
    recursos_disponibles = dictionary_put strcmp_eq recurso (suc n) k.recursos_disponibles;
  })
liberar_recurso_en (some []) recurso k = faults
liberar_recurso_en (some (pcb_unlocked ∷ lista)) recurso k = do
  n ← deref (dictionary_get strcmp_eq recurso k.recursos_disponibles)
  ok (a_ready pcb_unlocked (record k { recursos_en_uso = esperan recurso lista k.recursos_en_uso }))

unfoldable pub liberar_recurso_y_actualizar_ready : Cadena → Kernel → Outcome Kernel
unfolding liberar_recurso_en
liberar_recurso_y_actualizar_ready recurso k =
    liberar_recurso_en (dictionary_get strcmp_eq recurso k.recursos_en_uso) recurso k

unfoldable pub signal_en : Option ℕ → Cadena → ℕ → Kernel → Outcome Kernel
unfolding quitar_recurso_del_proceso liberar_recurso_y_actualizar_ready
signal_en none recurso pid k =
    ok (finalizar (codes "SIGNAL: " ++ recurso ++ codes " inexistente") pid k)
signal_en (some n) recurso pid k = do
  k' ← quitar_recurso_del_proceso recurso pid k
  liberar_recurso_y_actualizar_ready recurso (adelante pid k')

unfoldable pub signal_recurso_lista : Cadena → ℕ → Kernel → Outcome Kernel
unfolding signal_en
signal_recurso_lista recurso pid k =
    signal_en (dictionary_get strcmp_eq recurso k.recursos_disponibles) recurso pid k

unfoldable pub liberar_todos : List Cadena → Kernel → Outcome Kernel
unfolding liberar_recurso_y_actualizar_ready
liberar_todos [] k = ok k
liberar_todos (r ∷ rs) k = do k' ← liberar_recurso_y_actualizar_ready r k; liberar_todos rs k'

-- The list is destroyed, and its entry in the dictionary stays.
abbrev pub destruir : ℕ → Kernel → Kernel
destruir pid k = record k {
  recursos_por_proceso = dictionary_put ◌==◌ pid none k.recursos_por_proceso;
}

unfoldable pub liberar_asignados : Option (Option (List Cadena)) → ℕ → Kernel → Outcome Kernel
unfolding liberar_todos
liberar_asignados none pid k = ok k
liberar_asignados (some none) pid k = faults
liberar_asignados (some (some [])) pid k = ok k
liberar_asignados (some (some (r ∷ rs))) pid k = do
  k' ← liberar_todos (r ∷ rs) k
  ok (destruir pid k')

unfoldable pub liberar_recursos_del_proceso : ℕ → Kernel → Outcome Kernel
unfolding liberar_asignados
liberar_recursos_del_proceso pid k =
    liberar_asignados (dictionary_get ◌==◌ pid k.recursos_por_proceso) pid k
