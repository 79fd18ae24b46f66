-- ===== src/Kernel/Presencia.antt =====
-- kernel.h: the places where the PCB of an admitted process stands: the ready queue, the exit queue,
-- the queue of the file system, the queues of the resources and of the files, a thread that sleeps
-- for I/O, and the thread that runs PCBs. Each PCB is counted with a weight: 1 for one PCB and 0 for
-- all others says how often that PCB stands there, 1 for all how many stand there.
use unix_os_simulation.Base.{
  ℕ, ◌+◌, ◌≡◌, List, [], ◌∷◌, ◌++◌, strcmp_eq, ◌==◌, if◌then◌else◌, arith,
}
use unix_os_simulation.Kernel.{
  Kernel, BlockedNode, Hilo, planifica, ejecuta, crea, espera_permiso, compacta,
}
use unix_os_simulation.Kernel.Diccionario.{suma}

abbrev pub uno_si : ℕ → ℕ → ℕ
uno_si q p = if q == p then 1 else 0

abbrev pub peso : (ℕ → ℕ) → List ℕ → ℕ
peso w [] = 0
peso w (p ∷ ps) = w p + peso w ps

abbrev pub peso_nodos : (ℕ → ℕ) → List BlockedNode → ℕ
peso_nodos w [] = 0
peso_nodos w (n ∷ ns) = w n.un_pcb + peso_nodos w ns

abbrev pub peso_hilo : (ℕ → ℕ) → Hilo → ℕ
peso_hilo w planifica = 0
peso_hilo w (ejecuta pid) = w pid
peso_hilo w (crea pid id size) = w pid
peso_hilo w (espera_permiso pid id size) = w pid
peso_hilo w (compacta pid id size) = w pid

unfoldable pub presentes : (ℕ → ℕ) → Kernel → ℕ
presentes w k =
    peso w k.consolas_ready
    + peso w k.consolas_exit
    + peso_nodos w k.consolas_blocked
    + peso w k.durmiendo
    + peso_hilo w k.hilo
    + suma strcmp_eq (peso w) k.recursos_en_uso
    + suma strcmp_eq (peso w) k.colas_archivos

-- The equation for what a call leaves.
abbrev pub Suma : (ℕ → ℕ) → Kernel → ℕ → Kernel → Type 0
Suma w k n k' = presentes w k' ≡ presentes w k + n

pub peso-append : (w : ℕ → ℕ) (xs ys : List ℕ) → peso w (xs ++ ys) ≡ peso w xs + peso w ys
peso-append w [] ys = omega arith
peso-append w (x ∷ xs) ys = omega (arith, peso-append w xs ys)

pub peso_nodos-append :
    (w : ℕ → ℕ) (xs ys : List BlockedNode)
    → peso_nodos w (xs ++ ys) ≡ peso_nodos w xs + peso_nodos w ys
peso_nodos-append w [] ys = omega arith
peso_nodos-append w (x ∷ xs) ys = omega (arith, peso_nodos-append w xs ys)
