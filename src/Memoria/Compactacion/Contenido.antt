-- ===== src/Memoria/Compactacion/Contenido.antt =====
-- What one turn of the compaction does to the bytes of the segment that it moves.
use unix_os_simulation.Base.{ℕ, ◌+◌, ◌-◌, ◌≤◌, ◌<◌, ◌≡◌, ap, ◌⊎◌, arith, ltb, if◌then◌else◌}
use unix_os_simulation.Memoria.{Hueco, Segmento}
use unix_os_simulation.Memoria.Compactacion.{espacio, mover_bloque}

-- When a segment above a hole is moved into it, its byte k arrives if k is below the distance of
-- the move, and a space is at its new place otherwise: of a segment longer than that distance the
-- rest is blanked.
pub mover_bloque_lem :
    (us : ℕ → ℕ) (h : Hueco) (s : Segmento) (k : ℕ)
    → h.pos < s.base
    → k < s.limite
    → mover_bloque us h s (h.pos + k)
      ≡ (if ltb k (s.base - h.pos) then us (s.base + k) else espacio)
unfolding mover_bloque
mover_bloque_lem us h s k lt kl = ground (arith, ap us (misma s.base h.pos k))
  where
    misma : (b p j : ℕ) → b + (p + j - p) ≡ b + j
    misma b p j = omega arith

-- The bytes outside of the two ranges stay as they were.
pub mover_bloque_others :
    (us : ℕ → ℕ) (h : Hueco) (s : Segmento) (x : ℕ)
    → (x < h.pos) ⊎ (h.pos + s.limite ≤ x)
    → (x < s.base) ⊎ (s.base + s.limite ≤ x)
    → mover_bloque us h s x ≡ us x
unfolding mover_bloque
mover_bloque_others us h s x p q = ground arith
