-- ===== src/Memoria/Tablas/Cobertura.antt =====
-- memoria.h: what the holes and the segments cover after the requests of the kernel.
use unix_os_simulation.Base.{
  ℕ, ◌+◌, ◌≡◌, refl, inl, inr, true, List, [], ◌∷◌, Option, none, some, Outcome, ok, ◌>>=◌, arith,
  ◌==◌, Bool-cases, ==_iff, Option-cases, subst,
}
use unix_os_simulation.Commons.{Commons}
use unix_os_simulation.Memoria.{Segmento, Memoria, lookup, put, remove}
use unix_os_simulation.Memoria.Huecos.Cobertura.{cubre_rango, cubre-alojar_nuevo_hueco}
use unix_os_simulation.Memoria.Asignacion.{conocido}
use unix_os_simulation.Memoria.Asignacion.Cobertura.{
  cubre_segmentos, IsTiled, calloc_segment-IsTiled,
}
use unix_os_simulation.Memoria.Tablas.{
  Respuesta, create_segment, delete_segment, quitar_por_id, liberar_segmento, liberar_segmentos,
  exit_process,
}

cubre_segmentos-remove :
    (x p : ℕ) (h : List (ℕ × Segmento)) (s : Segmento)
    → lookup p h ≡ some s
    → cubre_segmentos x (remove p h) + cubre_rango x s.base s.limite ≡ cubre_segmentos x h
cubre_segmentos-remove x p [] s e = cc
cubre_segmentos-remove x p ((q, t) ∷ h) s e = ground (arith, cubre_segmentos-remove x p h s)

pub liberar_segmento-IsTiled :
    (m : Memoria) (p : ℕ) (s : Segmento)
    → lookup p m.segmentos ≡ some s
    → IsTiled m
    → IsTiled (liberar_segmento m p s)
unfolding liberar_segmento
liberar_segmento-IsTiled m p s e t x = omega (
  arith,
  t x,
  cubre-alojar_nuevo_hueco x m.huecos_libres s.base s.limite,
  cubre_segmentos-remove x p m.segmentos s e,
)

-- What the search for an ID found, if it found anything.
abbrev pub Encontrado : List (ℕ × Segmento) → ℕ → Outcome (Option (ℕ × Segmento) × List ℕ) → Type 0
Encontrado h i (ok (some (p, s), _)) = (lookup p h ≡ some s) × (s.id ≡ i)
Encontrado h i _ = Unit

Encontrado-keep :
    (h : List (ℕ × Segmento)) (i q : ℕ) (o : Outcome (Option (ℕ × Segmento) × List ℕ))
    → Encontrado h i o
    → Encontrado h i (o >>= λ r. ok (r.0, q ∷ r.1))
Encontrado-keep h i q (ok (some (p, s), ps)) e = e
Encontrado-keep h i q (ok (none, ps)) e = e
Encontrado-keep h i q _ e = e

pub quitar_por_id-Encontrado :
    (h : List (ℕ × Segmento)) (i : ℕ) (ps : List ℕ) → Encontrado h i (quitar_por_id h i ps)
unfolding quitar_por_id
quitar_por_id-Encontrado h i [] = tt
quitar_por_id-Encontrado h i (q ∷ ps) = elim (Option-cases (lookup q h)) [
  | inl f ↦ rw (f, quitar_por_id) tt
  | inr (t, f) ↦ elim (Bool-cases (t.id == i)) [
    | inl b ↦ rw (f, quitar_por_id) (rw b (f, (==_iff t.id i).0 b))
    | inr b ↦
        rw (f, quitar_por_id) (rw b (Encontrado-keep h i q _ (quitar_por_id-Encontrado h i ps)))
  ]
]

IsTiled-of : (m m' : Memoria) → m ≡ m' → IsTiled m → IsTiled m'
IsTiled-of m m' e = subst IsTiled e

pub liberar_segmentos-IsTiled :
    (m : Memoria) (ps : List ℕ) (m' : Memoria)
    → IsTiled m
    → liberar_segmentos m ps ≡ ok m'
    → IsTiled m'
unfolding liberar_segmentos
liberar_segmentos-IsTiled m [] m' t e = IsTiled-of m m' (ground arith) t
liberar_segmentos-IsTiled m (p ∷ ps) m' t e = elim (Option-cases (lookup p m.segmentos)) [
  | inl f ↦ absurd (ground arith)
  | inr (s, f) ↦
      liberar_segmentos-IsTiled (liberar_segmento m p s) ps m' (liberar_segmento-IsTiled m p s f t)
        (ground arith)
]

-- Under a known algorithm, a create request that returns, for a known process or a new one, keeps
-- every byte of the user space in exactly one hole or segment.
pub create_segment-IsTiled :
    (c : Commons) (m : Memoria) (pid seg_id size : ℕ) (r : Respuesta) (m' : Memoria)
    → conocido m.algoritmo ≡ true
    → IsTiled m
    → create_segment c m pid seg_id size ≡ ok (r, m')
    → IsTiled m'
unfolding create_segment
create_segment-IsTiled c m pid seg_id size r m' k t e = elim (Option-cases (lookup pid m.tablas)) [
  | inl f ↦ IsTiled-of (record m { tablas = put pid m.tabla_inicial m.tablas }) m' (ground arith) t
  | inr (tabla, f) ↦
      let (codigo, tabla', m1, ec, t1, _) = calloc_segment-IsTiled c m tabla seg_id size k t in
      IsTiled-of (record m1 { tablas = put pid tabla' m1.tablas }) m' (ground arith) t1
]

delete_found-IsTiled :
    (m : Memoria) (pid seg_id : ℕ) (tabla : List ℕ) (r : Option Respuesta) (m' : Memoria)
    → IsTiled m
    → lookup pid m.tablas ≡ some tabla
    → (o : Outcome (Option (ℕ × Segmento) × List ℕ)) → quitar_por_id m.segmentos seg_id tabla ≡ o
    → delete_segment m pid seg_id ≡ ok (r, m')
    → IsTiled m'
unfolding delete_segment
delete_found-IsTiled m pid seg_id tabla r m' t f (ok (some (p, s), rest)) q e =
    let found =
      subst (Encontrado m.segmentos seg_id) q (quitar_por_id-Encontrado m.segmentos seg_id tabla) in
    let m1 = record m { tablas = put pid rest m.tablas } in
    IsTiled-of (liberar_segmento m1 p s) m' (ground arith)
      (liberar_segmento-IsTiled m1 p s found.0 t)
delete_found-IsTiled m pid seg_id tabla r m' t f _ q e = absurd (ground arith)

-- A delete request that returns, for a known process or an unknown one, keeps every byte of the
-- user space in exactly one hole or segment.
pub delete_segment-IsTiled :
    (m : Memoria) (pid seg_id : ℕ) (r : Option Respuesta) (m' : Memoria)
    → IsTiled m
    → delete_segment m pid seg_id ≡ ok (r, m')
    → IsTiled m'
unfolding delete_segment
delete_segment-IsTiled m pid seg_id r m' t e = elim (Option-cases (lookup pid m.tablas)) [
  | inl f ↦ IsTiled-of (m) m' (ground arith) t
  | inr (tabla, f) ↦
      delete_found-IsTiled m pid seg_id tabla r m' t f (quitar_por_id m.segmentos seg_id tabla) refl
        e
]

-- The EXIT case of esperarKernel, when it returns, keeps every byte of the user space in exactly
-- one hole or segment.
pub exit_process-IsTiled :
    (m : Memoria) (pid : ℕ) (m' : Memoria) → IsTiled m → exit_process m pid ≡ ok m' → IsTiled m'
unfolding exit_process
exit_process-IsTiled m pid m' t e = elim (Option-cases (lookup pid m.tablas)) [
  | inl f ↦ absurd (ground arith)
  | inr ([], f) ↦ IsTiled-of (record m { tablas = remove pid m.tablas }) m' (ground arith) t
  | inr (p ∷ ps, f) ↦
      liberar_segmentos-IsTiled (record m { tablas = remove pid m.tablas }) ps m' t (ground arith)
]
