-- ===== src/Kernel/Sistema/Esperas/Garantias.antt =====
-- kernel.h: the semaphores, the queues and the degree of multiprogramming as the other threads find them,
-- in every state that the threads reach.
use unix_os_simulation.Base.{
  ℕ, ◌+◌, ◌-◌, ◌≤◌, ◌≡◌, refl, Bool, true, false, List, [], ◌∷◌, Cadena, if◌then◌else◌, length,
  arith,
}
use unix_os_simulation.Kernel.{BlockedNode}
use unix_os_simulation.Kernel.Presencia.{peso_nodos, presentes}
use unix_os_simulation.Kernel.Marco.{quieto}
use unix_os_simulation.Kernel.Sistema.Semaforos.{bloqueos, IsSincronizado}
use unix_os_simulation.Kernel.Sistema.Semaforos.Pasos.{alcanzable-IsSincronizado}
use unix_os_simulation.Kernel.Sistema.Grado.{alcanzable-grado}
use unix_os_simulation.Kernel.Sistema.Esperas.{
  Admision, espera_consola, espera_lugar, espera_tabla, Estado, consola_tomada, lugar_tomado, resto,
  visto, ◌⟹*◌, estado_inicial,
}
use unix_os_simulation.Kernel.Sistema.Esperas.Alcance.{Respaldado, alcanzado}

-- The node that `operarFS` has taken out of its queue.
unfoldable pub primero : Bool → List BlockedNode → List BlockedNode
primero false ns = []
primero true [] = []
primero true (n ∷ ns) = n ∷ []

unfoldable pub retenidos : Estado → List BlockedNode
retenidos s = primero s.espera_fs (s.kernel).consolas_blocked

-- The queue of the file system with and without its first node.
pub peso_nodos-primero :
    (w : ℕ → ℕ) (b : Bool) (ns : List BlockedNode)
    → peso_nodos w (if b then resto ns else ns) + peso_nodos w (primero b ns) ≡ peso_nodos w ns
unfolding primero resto
peso_nodos-primero w false ns = omega arith
peso_nodos-primero w true [] = omega arith
peso_nodos-primero w true (n ∷ ns) = omega arith

pub bloqueos-primero :
    (b : Bool) (ns : List BlockedNode)
    → bloqueos (if b then resto ns else ns) + bloqueos (primero b ns) ≡ bloqueos ns
unfolding primero resto
bloqueos-primero false ns = omega arith
bloqueos-primero true [] = omega arith
bloqueos-primero true (n ∷ ns) = omega arith

length-blocked :
    (b : Bool) (ns : List BlockedNode) (n : ℕ)
    → n ≡ length ns
    → n - (if b then 1 else 0) ≡ length (if b then resto ns else ns)
unfolding resto
length-blocked false ns n e = omega (arith, e)
length-blocked true [] n e = omega (arith, e)
length-blocked true (x ∷ ns) n e = omega (arith, e)

length-new :
    (a : Admision) (ns : List ℕ) (n : ℕ)
    → n ≡ length ns
    → consola_tomada a ≤ n
    → (n - consola_tomada a) + consola_tomada a
      ≡ length (elim a [ espera_consola ↦ ns | espera_lugar ↦ ns | espera_tabla ↦ resto ns ])
        + lugar_tomado a
unfolding consola_tomada lugar_tomado resto
length-new espera_consola ns n e h = omega (arith, e)
length-new espera_lugar ns n e h = omega (arith, e, h)
length-new espera_tabla [] n e h = omega (arith, e, h)
length-new espera_tabla (x ∷ ns) n e h = omega (arith, e, h)

peso_nodos-uno : (ns : List BlockedNode) → peso_nodos (λ p. 1) ns ≡ length ns
peso_nodos-uno [] = refl
peso_nodos-uno (n ∷ ns) = omega (arith, peso_nodos-uno ns)

module _ (grado : ℕ) (recursos : List (Cadena × ℕ)) (s : Estado)
    (r : estado_inicial grado recursos ⟹* s) where
  sincronizado : IsSincronizado s.kernel
  sincronizado = alcanzable-IsSincronizado grado recursos s.kernel (alcanzado grado recursos s r).0

  respaldado : Respaldado s
  respaldado = (alcanzado grado recursos s r).1

  -- In every state that the threads reach from the start of the kernel, the semaphores
  -- hayConsolasReady, hayConsolasExit and hayConsolasBlocked are as high as their queues are long;
  -- so is hayConsolasNew, but for the time in which gestionadorReady has taken it and waits for
  -- hayEspacioReady, when it is one lower; and compactionBlockers is the number of F_WRITE and
  -- F_READ operations in the queue of the file system, with the one that operarFS has taken.
  pub visto-semaforos :
      ((visto s).hay_consolas_new + consola_tomada s.admision
        ≡ length (visto s).consolas_new + lugar_tomado s.admision)
      × ((visto s).hay_consolas_ready ≡ length (visto s).consolas_ready)
      × ((visto s).hay_consolas_exit ≡ length (visto s).consolas_exit)
      × ((visto s).hay_consolas_blocked ≡ length (visto s).consolas_blocked)
      × ((visto s).compaction_blockers
          ≡ bloqueos (visto s).consolas_blocked + bloqueos (retenidos s))
  unfolding visto retenidos quieto
  visto-semaforos =
      let k = s.kernel in
      let ((a, b), (c, d, e)) = sincronizado in
      (
        length-new s.admision k.consolas_new k.hay_consolas_new c respaldado.consola,
        a,
        b,
        length-blocked s.espera_fs k.consolas_blocked k.hay_consolas_blocked d,
        omega (arith, e, bloqueos-primero s.espera_fs k.consolas_blocked),
      )

  pub presentes-visto :
      (w : ℕ → ℕ) → presentes w (visto s) + peso_nodos w (retenidos s) ≡ presentes w s.kernel
  unfolding presentes visto retenidos
  presentes-visto w = omega (arith, peso_nodos-primero w s.espera_fs (s.kernel).consolas_blocked)

  pub lugares-visto :
      (visto s).hay_espacio_ready + lugar_tomado s.admision ≡ (s.kernel).hay_espacio_ready
  unfolding visto
  lugares-visto = omega (arith, respaldado.lugar)

  -- In every state that the threads reach from the start of the kernel, the number of processes
  -- that are admitted and stand in a queue, sleep or run, with the one that operarFS has taken,
  -- with the place that gestionadorReady has taken while it waits for the table of a process, and
  -- with the counter of hayEspacioReady, is the degree of multiprogramming of the configuration.
  pub visto-grado :
      presentes (λ pid. 1) (visto s)
        + length (retenidos s)
        + lugar_tomado s.admision
        + (visto s).hay_espacio_ready
      ≡ grado
  visto-grado =
      let g = alcanzable-grado grado recursos s.kernel (alcanzado grado recursos s r).0 in
      omega (arith, g, presentes-visto (λ p. 1), lugares-visto, peso_nodos-uno (retenidos s))
