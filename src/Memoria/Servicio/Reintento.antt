-- ===== src/Memoria/Servicio/Reintento.antt =====
-- memoria.h: a create request that needs a compaction, the compaction, and the request again.
use unix_os_simulation.Base.{
  ℕ, ◌≤◌, ◌<◌, ◌≡◌, ◌≢◌, refl, ap, sym, ◌∙◌, subst, inl, inr, true, List, [], some, ok, arith, leb,
  In, Bool-cases, Option-cases,
}
use unix_os_simulation.Commons.{Commons}
use unix_os_simulation.Memoria.{Hueco, Segmento, Memoria, lookup}
use unix_os_simulation.Memoria.Asignacion.{
  alojado, falta_compactar, conocido, codigo_rechazo, sumar_sizes, Codigo,
}
use unix_os_simulation.Memoria.Asignacion.Eleccion.{espacio_libre, sumar_sizes-eq}
use unix_os_simulation.Memoria.Compactacion.{compactar_segmentos}
use unix_os_simulation.Memoria.Compactacion.Terminacion.{suma_bases}
use unix_os_simulation.Memoria.Tablas.{Respuesta, create_segment}
use unix_os_simulation.Memoria.Servicio.Enlaces.{IsEnlazada}
use unix_os_simulation.Memoria.Servicio.Pedidos.{Creado, create_segment_cases, create_segment_nueva}
use unix_os_simulation.Memoria.Servicio.Bucle.{compactar_segmentos-EsCompactada}

falta_alcanza :
    (hs : List Hueco) (size : ℕ)
    → codigo_rechazo hs size ≡ falta_compactar
    → size ≤ espacio_libre hs
falta_alcanza hs size e = elim (Bool-cases (leb size (sumar_sizes 0 hs))) [
  | inl b ↦ ground (arith, sumar_sizes-eq 0 hs)
  | inr b ↦ ground (arith, e)
]

hay_hueco : (hs : List Hueco) (size : ℕ) → 0 < size → size ≤ espacio_libre hs → hs ≢ []
hay_hueco hs size p l e = let z = ap espacio_libre e in omega (arith, z)

respuesta-eq : (a b : Respuesta × Memoria) → ok a ≡ ok b → (a.0 ≡ b.0) × (a.1 ≡ b.1)
respuesta-eq a b e = let z : a ≡ b = cc in (ap (λ x. x.0) z, ap (λ x. x.1) z)

otra_respuesta :
    (c : Commons) (m m1 : Memoria) (pid id size : ℕ) (r : Respuesta)
    → create_segment c m pid id size ≡ ok (r, m1)
    → r.rflag ≡ falta_compactar
    → ¬ Creado c m pid id size
otra_respuesta c m m1 pid id size r e q (r', m', g, n, _) =
    let (a, _) = respuesta-eq (r, m1) (r', m') (sym e ∙ g) in
    let z : ◌≡◌ {A = Codigo} falta_compactar alojado =
      sym q ∙ (ap (λ (x : Respuesta). x.rflag) a ∙ n) in
    cc

-- The answer 1 comes from a process that has a table, and the memory is as it was.
falta_compactar_lem :
    (c : Commons) (m m1 : Memoria) (pid id size : ℕ) (r : Respuesta)
    → conocido m.algoritmo ≡ true
    → 0 < size
    → IsEnlazada [] m
    → create_segment c m pid id size ≡ ok (r, m1)
    → r.rflag ≡ falta_compactar
    → (t : List ℕ) × (lookup pid m.tablas ≡ some t)
      × (m1 ≡ m)
      × (size ≤ espacio_libre m.huecos_libres)
falta_compactar_lem c m m1 pid id size r k pos v e q = elim (Option-cases (lookup pid m.tablas)) [
  | inl f ↦
      absurd (otra_respuesta c m m1 pid id size r e q (create_segment_nueva c m pid id size v f))
  | inr (t, f) ↦ elim (create_segment_cases c m pid id size t k pos v f) [
    | inl (ss, _, g) ↦
        let (a, b) =
          respuesta-eq (r, m1)
            (record { rflag = codigo_rechazo m.huecos_libres size; tabla = ss }, m) (sym e ∙ g) in
        (t, f, b, falta_alcanza m.huecos_libres size (sym (ap (λ (x : Respuesta). x.rflag) a) ∙ q))
    | inr creado ↦ absurd (otra_respuesta c m m1 pid id size r e q creado)
  ]
]

-- In a memory whose tables and heap hang together, under a known algorithm, when a create request
-- for a segment that is not empty is answered with 1, that a compaction is needed, then with one
-- unit of fuel more than the sum of the bases the compaction ends, and the same request after it is
-- answered with 0 and keeps tables and heap together.
pub create_segment-compactar :
    (c : Commons) (fuel : ℕ) (m m1 : Memoria) (pid id size : ℕ) (r : Respuesta)
    → conocido m.algoritmo ≡ true
    → 0 < size
    → IsEnlazada [] m
    → create_segment c m pid id size ≡ ok (r, m1)
    → r.rflag ≡ falta_compactar
    → suma_bases m.segmentos < fuel
    → (ts : List (ℕ × List Segmento)) × (m2 : Memoria) × (compactar_segmentos c fuel m1
        ≡ some (ok (ts, m2)))
      × Creado c m2 pid id size
create_segment-compactar c fuel m m1 pid id size r k pos v e q l =
    let (t, f, same, le) = falta_compactar_lem c m m1 pid id size r k pos v e q in
    let (ts, m2, g, w) =
      compactar_segmentos-EsCompactada c fuel m v (hay_hueco m.huecos_libres size pos le) l in
    (
      ts,
      m2,
      rw (same) g,
      elim (create_segment_cases c m2 pid id size t (ap conocido w.sigue.1 ∙ k) pos w.sigue.0
          (ap (lookup pid) w.tablas ∙ f)) [
            | inl (_, no_fit, _) ↦ absurd (
                omega (
                  arith,
                  le,
                  w.entero,
                  no_fit w.hueco (subst (In w.hueco) (sym w.unico) (inl refl)),
                ))
            | inr creado ↦ creado
          ],
    )
