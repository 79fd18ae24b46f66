-- ===== src/Memoria/Servicio/Borrado.antt =====
-- memoria.h: `delete_segment` and the EXIT case when tables and heap hang together.
use unix_os_simulation.Base.{
  ℕ, ◌+◌, ◌≡◌, ◌≢◌, refl, ap, sym, ◌∙◌, inl, inr, false, List, [], ◌∷◌, some, ok, ◌>>=◌, arith,
  ◌==◌, In, Bool-cases, subst,
}
use unix_os_simulation.Memoria.{Segmento, Memoria, lookup, put, remove}
use unix_os_simulation.Memoria.Huecos.Separacion.{alojar_nuevo_hueco-IsSeparada}
use unix_os_simulation.Memoria.Punteros.{
  uno, veces, lookup-veces, In-put, In-remove, veces-remove, lookup-remove_ne,
  veces-tabla_global-put, veces-tabla_global-remove, lookup-put_self, In-lookup,
}
use unix_os_simulation.Memoria.Tablas.{
  Respuesta, delete_segment, quitar_por_id, liberar_segmento, liberar_segmentos, exit_process,
}
use unix_os_simulation.Memoria.Asignacion.{alojado}
use unix_os_simulation.Memoria.Tablas.Cobertura.{liberar_segmento-IsTiled}
use unix_os_simulation.Memoria.Servicio.Enlaces.{
  segmento_0, IsEnlazada, Vivos, resolver-Vivos, tabla-Vivos,
}
use unix_os_simulation.Memoria.Servicio.Pedidos.{Sigue}

liberar_segmento-IsEnlazada :
    (ps : List ℕ) (m : Memoria) (p : ℕ) (s : Segmento) (v : IsEnlazada (p ∷ ps) m)
    → p ≢ segmento_0
    → lookup p m.segmentos ≡ some s
    → IsEnlazada ps (liberar_segmento m p s)
unfolding liberar_segmento
liberar_segmento-IsEnlazada ps m p s v n f = record {
  tiled = liberar_segmento-IsTiled m p s f v.tiled;
  separada =
      alojar_nuevo_hueco-IsSeparada m.huecos_libres s.base s.limite v.separada
        (v.llenos (p, s) (In-lookup p m.segmentos s f));
  llenos = λ e i. v.llenos e (In-remove p m.segmentos e i);
  unicas = λ q. omega (arith, v.unicas q, veces-remove p q s m.segmentos f);
  frescas = λ q l. omega (arith, v.frescas q l, veces-remove p q s m.segmentos f);
  s0 = v.s0;
  inicial = v.inicial;
  vive = lookup-remove_ne p segmento_0 m.segmentos n ∙ v.vive;
  abajo = v.abajo;
  cero = v.cero;
  cabezas = v.cabezas;
  contados = λ q k. omega (arith, v.contados q k, veces-remove p q s m.segmentos f);
}

liberar_segmentos-Sigue :
    (m : Memoria) (ps : List ℕ) (v : IsEnlazada ps m)
    → veces segmento_0 ps ≡ 0
    → (m' : Memoria) × (liberar_segmentos m ps ≡ ok m') × Sigue m m'
unfolding liberar_segmentos
liberar_segmentos-Sigue m [] v z = (m, refl, (v, refl, refl))
liberar_segmentos-Sigue m (p ∷ ps) v z =
    let n : p ≢ segmento_0 = λ q. ground arith in
    let (s, f) = lookup-veces p m.segmentos (ground (arith, v.contados p n)) in
    let (m', e, (w, a, t)) =
      liberar_segmentos-Sigue (liberar_segmento m p s) ps
        (liberar_segmento-IsEnlazada ps m p s v n f) (ground arith) in
    (m', rw (liberar_segmentos, f, ◌>>=◌) e, (w, a, t))

sin_tabla-IsEnlazada :
    (m : Memoria) (pid : ℕ) (t ps : List ℕ) (v : IsEnlazada [] m)
    → lookup pid m.tablas ≡ some t
    → t ≡ segmento_0 ∷ ps
    → IsEnlazada ps (record m { tablas = remove pid m.tablas })
sin_tabla-IsEnlazada m pid t ps v f e = record {
  tiled = v.tiled;
  separada = v.separada;
  llenos = v.llenos;
  unicas = v.unicas;
  frescas = v.frescas;
  s0 = v.s0;
  inicial = v.inicial;
  vive = v.vive;
  abajo = v.abajo;
  cero = v.cero;
  cabezas = λ d i. v.cabezas d (In-remove pid m.tablas d i);
  contados = λ q n.
      ground (arith, v.contados q n, veces-tabla_global-remove q pid t m.tablas f, ap (veces q) e);
}

-- The EXIT case for a process that has a table.
pub exit_process-Sigue :
    (m : Memoria) (pid : ℕ) (t : List ℕ)
    → lookup pid m.tablas ≡ some t
    → IsEnlazada [] m
    → (m' : Memoria) × (exit_process m pid ≡ ok m') × Sigue m m'
unfolding exit_process
exit_process-Sigue m pid t f v =
    let (ps, e, z) = v.cabezas (pid, t) (In-lookup pid m.tablas t f) in
    let (m', l, w) =
      liberar_segmentos-Sigue (record m { tablas = remove pid m.tablas }) ps
        (sin_tabla-IsEnlazada m pid t ps v f e) z in
    (m', rw (exit_process, f, e) l, w)

-- A pointer of the list leads to a segment with the ID.
abbrev pub Tiene : List (ℕ × Segmento) → ℕ → List ℕ → Type 0
Tiene h id ps = (p : ℕ) × In p ps × ((s : Segmento) × (lookup p h ≡ some s) × (s.id ≡ id))

abbrev Quitado : List (ℕ × Segmento) → ℕ → List ℕ → Type 0
Quitado h id ps =
    (p : ℕ) × (s : Segmento) × (rest : List ℕ) × (quitar_por_id h id ps ≡ ok (some (p, s), rest))
    × (lookup p h ≡ some s)
    × ((q : ℕ) → veces q rest + uno q p ≡ veces q ps)

quitar_por_id-Quitado :
    (h : List (ℕ × Segmento)) (id : ℕ) (ps : List ℕ) → Vivos h ps → Tiene h id ps → Quitado h id ps
unfolding quitar_por_id
quitar_por_id-Quitado h id [] v (p, i, _) = absurd i
quitar_por_id-Quitado h id (q ∷ qs) v (p, i, (s, f, e)) =
    let (t, g) = v q (inl refl) in
    elim (Bool-cases (t.id == id)) [
      | inl b ↦ (q, t, qs, rw (quitar_por_id, g, ◌>>=◌, b) refl, g, λ x. omega arith)
      | inr b ↦
          let sigue : In p qs = ground (arith, i, f, g, e) in
          let (p', s', rest, r, l, c) =
            quitar_por_id-Quitado h id qs (λ x j. v x (inr j)) (p, sigue, (s, f, e)) in
          (p', s', q ∷ rest, rw (quitar_por_id, g, ◌>>=◌, b, r) refl, l, λ x. omega (arith, c x))
    ]

sin_segmento-IsEnlazada :
    (m : Memoria) (pid p : ℕ) (t ps rest : List ℕ)
    → IsEnlazada [] m
    → lookup pid m.tablas ≡ some t
    → t ≡ segmento_0 ∷ ps
    → veces segmento_0 ps ≡ 0
    → ((q : ℕ) → veces q rest + uno q p ≡ veces q ps)
    → IsEnlazada (p ∷ []) (record m { tablas = put pid (segmento_0 ∷ rest) m.tablas })
sin_segmento-IsEnlazada m pid p t ps rest v f e z c = record {
  tiled = v.tiled;
  separada = v.separada;
  llenos = v.llenos;
  unicas = v.unicas;
  frescas = v.frescas;
  s0 = v.s0;
  inicial = v.inicial;
  vive = v.vive;
  abajo = v.abajo;
  cero = v.cero;
  cabezas = λ d i. elim (In-put pid t (segmento_0 ∷ rest) m.tablas d f i) [
    | inl old ↦ v.cabezas d old
    | inr q ↦ rw (q) (rest, refl, omega (arith, c segmento_0, z))
  ];
  contados = λ q n. ground (
    arith,
    v.contados q n,
    c q,
    ap (veces q) e,
    veces-tabla_global-put q pid t (segmento_0 ∷ rest) m.tablas f,
  );
}

borrar_de :
    (m : Memoria) (pid id : ℕ) (t ps : List ℕ) (v : IsEnlazada [] m)
    → lookup pid m.tablas ≡ some t
    → t ≡ segmento_0 ∷ ps
    → veces segmento_0 ps ≡ 0
    → id ≢ 0
    → Quitado m.segmentos id ps
    → (r : Respuesta) × (m' : Memoria) × (delete_segment m pid id ≡ ok (some r, m')) × Sigue m m'
unfolding delete_segment quitar_por_id
borrar_de m pid id t ps v f e z n (p, s, rest, q, l, c) =
    let b : (v.s0.id == id) ≡ false = ground (arith, v.cero) in
    let m1 = record m { tablas = put pid (segmento_0 ∷ rest) m.tablas } in
    let w = sin_segmento-IsEnlazada m pid p t ps rest v f e z c in
    let k : p ≢ segmento_0 = λ g. ground (arith, c segmento_0) in
    let (ss, r) = resolver-Vivos m.segmentos (segmento_0 ∷ rest) (
      tabla-Vivos (p ∷ []) m1 (pid, segmento_0 ∷ rest) w
        (In-lookup pid m1.tablas (segmento_0 ∷ rest)
          (lookup-put_self pid (segmento_0 ∷ rest) m.tablas))) in
    (
      record { rflag = alojado; tabla = ss },
      liberar_segmento m1 p s,
      rw (delete_segment, f, e, quitar_por_id, v.vive, ◌>>=◌, b, q, r) refl,
      (liberar_segmento-IsEnlazada [] m1 p s w k l, refl, refl),
    )

sin_cabeza :
    (h : List (ℕ × Segmento)) (id : ℕ) (s0 : Segmento) (ps : List ℕ)
    → lookup segmento_0 h ≡ some s0
    → s0.id ≢ id
    → Tiene h id (segmento_0 ∷ ps)
    → Tiene h id ps
sin_cabeza h id s0 ps f n (p, inl q, (s, g, e)) = absurd (ground arith)
sin_cabeza h id s0 ps f n (p, inr i, d) = (p, i, d)

-- A delete request for a segment that the process has, but for segment 0.
pub delete_segment-Sigue :
    (m : Memoria) (pid id : ℕ) (t : List ℕ)
    → lookup pid m.tablas ≡ some t
    → id ≢ 0
    → Tiene m.segmentos id t
    → IsEnlazada [] m
    → (r : Respuesta) × (m' : Memoria) × (delete_segment m pid id ≡ ok (some r, m')) × Sigue m m'
delete_segment-Sigue m pid id t f n d v =
    let (ps, e, z) = v.cabezas (pid, t) (In-lookup pid m.tablas t f) in
    let vivos = tabla-Vivos [] m (pid, t) v (In-lookup pid m.tablas t f) in
    borrar_de m pid id t ps v f e z n (
      quitar_por_id-Quitado m.segmentos id ps (λ p i. vivos p (subst (In p) (sym e) (inr i)))
        (sin_cabeza m.segmentos id v.s0 ps v.vive (λ q. n (sym q ∙ v.cero))
          (subst (Tiene m.segmentos id) e d)))
