-- ===== src/Cpu/Ciclo/Entrega.antt =====
-- cpu.c: what a turn of the cycle does to the flag, to the contexts sent to the kernel and to the
-- program counter, and how long the cycle runs.
use unix_os_simulation.Base.{
  ℕ, zero, suc, ◌+◌, ◌≡◌, ◌<◌, refl, Bool, true, false, List, [], ◌∷◌, some, Outcome, ok, exits,
  faults, deref, >>=-eq-ok, Cadena, length, get_elem?, arith,
}
use unix_os_simulation.Biblioteca.{ExecContext}
use unix_os_simulation.Cpu.{Textos, Cpu}
use unix_os_simulation.Cpu.Registros.{lista_tokens, cargar_registros}
use unix_os_simulation.Cpu.Ciclo.{avanzar, girar, seguir, ciclo, ciclos, iniciar, ejecutar_contexto}
use unix_os_simulation.Cpu.Ciclo.Turno.{
  Entrega, sigue, entrega, MismoPrograma, Turno, Turno-decodificar,
}

Entrega-avanzar : (c c' : Cpu) → Entrega (avanzar c) c' → Entrega c c'
Entrega-avanzar c c' (sigue h k) = sigue h k
Entrega-avanzar c c' (entrega m x h k) = entrega m x h k

deref-get_elem? :
    {A : Type 0} (xs : List A) (n : ℕ) (a : A) → deref (get_elem? xs n) ≡ ok a → n < length xs
deref-get_elem? [] n a h = cc
deref-get_elem? (x ∷ xs) zero a h = omega arith
deref-get_elem? (x ∷ xs) (suc n) a h = let r = deref-get_elem? xs n a h in ground arith

module _ (t : Textos) where
  -- Whatever the instruction at the program counter is, a turn of the cycle that returns moves the
  -- program counter on by one and keeps the instructions; either it sends no context and leaves the
  -- flag, or it sends exactly one context to the kernel and sets the flag that ends the cycle; and
  -- there was an instruction at the program counter.
  pub ciclo-Entrega :
      (c c' : Cpu)
      → ciclo t c ≡ ok c'
      → Entrega c c'
        × (c'.contexto.program_counter ≡ suc c.contexto.program_counter)
        × (c'.contexto.instrucciones ≡ c.contexto.instrucciones)
        × (c.contexto.program_counter < length c.contexto.instrucciones)
  unfolding ciclo Turno MismoPrograma
  ciclo-Entrega c c' h =
      let (i, e, k) =
        >>=-eq-ok (deref (get_elem? c.contexto.instrucciones c.contexto.program_counter)) _ h in
      let d = Turno-decodificar t (t.string_split i) (avanzar c) c' k in
      (Entrega-avanzar c c' (d.0), d.1.0, d.1.1, deref-get_elem? _ _ i e)

  -- The cycle ends: fuel for one turn more than the instructions left is enough, whatever the
  -- instructions are and wherever the program counter stands.
  pub ciclos-termina :
      (fuel : ℕ) (c : Cpu)
      → length c.contexto.instrucciones < fuel + c.contexto.program_counter
      → 0 < fuel
      → (r : Outcome Cpu) × (ciclos t fuel c ≡ some r)
  unfolding ciclos girar seguir
  ciclos-termina zero c h p = ground arith
  ciclos-termina (suc fuel) c h p = go (ciclos-termina fuel) (c.interrupted)
    where
      Termina : Type 0
      Termina =
          (c' : Cpu)
          → length c'.contexto.instrucciones < fuel + c'.contexto.program_counter
          → 0 < fuel
          → (r : Outcome Cpu) × (ciclos t fuel c' ≡ some r)

      tras :
          Termina
          → (o : Outcome Cpu) → ciclo t c ≡ o
          → (r : Outcome Cpu) × (seguir t (ciclos t fuel) o ≡ some r)
      tras k (ok c') e =
          let (d, pc, i, b) = ciclo-Entrega c c' e in
          let l : length c'.contexto.instrucciones ≡ length c.contexto.instrucciones = rw (i) in
          k c' (omega arith) (omega arith)
      tras k exits e = (exits, refl)
      tras k faults e = (faults, refl)

      go : Termina → (b : Bool) → (r : Outcome Cpu) × (girar t (ciclos t fuel) b c ≡ some r)
      go k true = (ok c, refl)
      go k false = tras k (ciclo t c) refl

  -- The cycle on a received context ends, whatever its instructions: one turn more than there are
  -- instructions is fuel enough.
  pub ejecutar_contexto-termina :
      (ctx : ExecContext) (c : Cpu) → (r : Outcome Cpu) × (ejecutar_contexto t ctx c ≡ some r)
  unfolding ejecutar_contexto iniciar
  ejecutar_contexto-termina ctx c = go (cargar_registros lista_tokens ctx.registros c.registros)
    where
      go : (o : Outcome (List (Cadena × Cadena))) → (r : Outcome Cpu) × (iniciar t ctx c o ≡ some r)
      go (ok rs) =
          ciclos-termina (suc (length ctx.instrucciones))
            (record c { registros = rs; contexto = ctx; interrupted = false }) (omega arith)
            (omega arith)
      go exits = (exits, refl)
      go faults = (faults, refl)
