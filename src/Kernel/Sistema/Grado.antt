-- ===== src/Kernel/Sistema/Grado.antt =====
-- kernel.h: how many processes are admitted at once.
use unix_os_simulation.Base.{ℕ, ◌+◌, ◌≡◌, List, Cadena, arith}
use unix_os_simulation.Kernel.{Kernel, kernel_inicial}
use unix_os_simulation.Kernel.Presencia.{presentes}
use unix_os_simulation.Kernel.Sistema.{◌⟶*◌, aqui, luego}
use unix_os_simulation.Kernel.Sistema.Admision.{Carga, ◌⇒◌, queda, entra, termina, carga}
use unix_os_simulation.Kernel.Sistema.Admision.Pasos.{alcanzable-refina}

-- The places that are taken and the free ones.
⇒-suma :
    (c c' : Carga) → c ⇒ c' → c'.admitidos (λ p. 1) + c'.lugares ≡ c.admitidos (λ p. 1) + c.lugares
⇒-suma c c' (queda f e) = omega (arith, f (λ p. 1), e)
⇒-suma c c' (entra pid f e) = omega (arith, f (λ p. 1), e)
⇒-suma c c' (termina pid f e) = omega (arith, f (λ p. 1), e)

-- In every state that the threads reach from the start of the kernel, the number of processes that
-- are admitted and stand in a queue, sleep or run, with the counter of hayEspacioReady, is the
-- degree of multiprogramming of the configuration, which it therefore never passes.
pub alcanzable-grado :
    (grado : ℕ) (recursos : List (Cadena × ℕ)) (k : Kernel)
    → kernel_inicial grado recursos ⟶* k
    → presentes (λ pid. 1) k + k.hay_espacio_ready ≡ grado
unfolding presentes carga
alcanzable-grado grado recursos k aqui = omega arith
alcanzable-grado grado recursos k (luego {k1 = k1} r p) =
    let d = ⇒-suma (carga k1) (carga k) (alcanzable-refina grado recursos k1 k r p) in
    omega (arith, d, alcanzable-grado grado recursos k1 r)
