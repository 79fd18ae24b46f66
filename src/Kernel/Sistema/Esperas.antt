-- ===== src/Kernel/Sistema/Esperas.antt =====
-- kernel.h: the waits of `gestionadorReady` and `operarFS` as states of their own. Between two waits a
-- thread holds what it has taken: a unit of a semaphore, a place, a PCB of a queue. `kernel` counts
-- all of that where it was until the answer comes, and `visto` is without it: what the other threads
-- find. The others only add to the queues and semaphores that these two take from. A request that
-- waits for its answer comes into `enviados` with the answer, and what `process_f_open` writes before
-- it waits is counted with what it writes after, for a file that no process has open; a process whose
-- DELETE_SEGMENT waits for the memory counts as running.
pub mod Crece
pub mod Alcance
pub mod Garantias
pub mod Serie
pub mod Permiso
pub mod Refina
use unix_os_simulation.Base.{
  ℕ, ◌-◌, ◌<◌, ◌≡◌, Bool, true, false, List, [], ◌∷◌, ok, Cadena, if◌then◌else◌,
}
use unix_os_simulation.Base.Int.{ℤ}
use unix_os_simulation.Biblioteca.{Segmento}
use unix_os_simulation.Kernel.{Kernel, BlockedNode, kernel_inicial}
use unix_os_simulation.Kernel.Procesos.{gestionador_ready}
use unix_os_simulation.Kernel.Ficheros.{atender}
use unix_os_simulation.Kernel.Sistema.{
  ◌⟶◌, conecta, admite, ordena, corre, vuelve, responde, permite, compacto, despierta, revisa,
  atiende, sale,
}

-- Where `gestionadorReady` is: before hayConsolasNew, before hayEspacioReady, or before the table of the
-- PCB that it has taken out of its queue.
pub data Admision : Type 0 where
  espera_consola : Admision
  espera_lugar : Admision
  espera_tabla : Admision

pub record Estado : Type 0 where
  pub kernel : Kernel
  pub admision : Admision
  -- `operarFS` has taken the first node and waits for the file system.
  pub espera_fs : Bool

-- What is taken of hayConsolasNew and of hayEspacioReady.
unfoldable pub consola_tomada : Admision → ℕ
consola_tomada espera_consola = 0
consola_tomada espera_lugar = 1
consola_tomada espera_tabla = 1

unfoldable pub lugar_tomado : Admision → ℕ
lugar_tomado espera_consola = 0
lugar_tomado espera_lugar = 0
lugar_tomado espera_tabla = 1

unfoldable pub resto : {A : Type 0} → List A → List A
resto [] = []
resto (x ∷ xs) = xs

-- The queues and counters as the other threads find them.
unfoldable pub visto : Estado → Kernel
unfolding consola_tomada lugar_tomado resto
visto s =
    let k = s.kernel in
    record k {
      hay_consolas_new = k.hay_consolas_new - consola_tomada s.admision;
      hay_espacio_ready = k.hay_espacio_ready - lugar_tomado s.admision;
      consolas_new = elim (s.admision) [
        | espera_consola ↦ k.consolas_new
        | espera_lugar ↦ k.consolas_new
        | espera_tabla ↦ resto k.consolas_new
      ];
      hay_consolas_blocked = k.hay_consolas_blocked - (if s.espera_fs then 1 else 0);
      consolas_blocked = if s.espera_fs then resto k.consolas_blocked else k.consolas_blocked;
    }

-- The step is not one of these two threads'.
unfoldable pub Ajeno : {k k' : Kernel} → k ⟶ k' → Type 0
Ajeno (conecta c pid p e) = Unit
Ajeno (admite tabla a b e) = ⊥
Ajeno (ordena orden a m e) = Unit
Ajeno (corre a b e) = Unit
Ajeno (vuelve c ctx tabla pid a e) = Unit
Ajeno (responde flag tabla pid id size a e) = Unit
Ajeno (permite pid id size a b e) = Unit
Ajeno (compacto tablas pid id size a e) = Unit
Ajeno (despierta pid a e) = Unit
Ajeno (revisa a e) = Unit
Ajeno (atiende r a b e) = ⊥
Ajeno (sale b e) = Unit

infix 40 ◌⟹◌ ◌⟹*◌
pub data ◌⟹◌ (s : Estado) (s' : Estado) : Type 0 where
  toma_consola :
      s.admision ≡ espera_consola
      → 0 < (s.kernel).hay_consolas_new
      → s' ≡ record s { admision = espera_lugar }
      → s ⟹ s'
  toma_lugar :
      s.admision ≡ espera_lugar
      → 0 < (s.kernel).hay_espacio_ready
      → s' ≡ record s { admision = espera_tabla }
      → s ⟹ s'
  recibe_tabla :
      (tabla : List Segmento) (k' : Kernel)
      → s.admision ≡ espera_tabla
      → gestionador_ready tabla s.kernel ≡ ok k'
      → s' ≡ record s { kernel = k'; admision = espera_consola }
      → s ⟹ s'
  toma_nodo :
      s.espera_fs ≡ false
      → (s.kernel).fs_reviso ≡ true
      → 0 < (s.kernel).hay_consolas_blocked
      → s' ≡ record s { espera_fs = true }
      → s ⟹ s'
  responde_fs :
      (respuesta : ℤ) (k' : Kernel)
      → s.espera_fs ≡ true
      → atender respuesta s.kernel ≡ ok k'
      → s' ≡ record s { kernel = k'; espera_fs = false }
      → s ⟹ s'
  ajeno : (k' : Kernel) (p : s.kernel ⟶ k') → Ajeno p → s' ≡ record s { kernel = k' } → s ⟹ s'

pub data ◌⟹*◌ (s : Estado) : Estado → Type 0 where
  quieto_en : s ⟹* s
  y_luego : {s1 s2 : Estado} → s ⟹* s1 → s1 ⟹ s2 → s ⟹* s2

abbrev pub estado_inicial : ℕ → List (Cadena × ℕ) → Estado
estado_inicial grado recursos = record {
  kernel = kernel_inicial grado recursos;
  admision = espera_consola;
  espera_fs = false;
}
