-- ===== src/Memoria/Servicio/Sesion.antt =====
-- memoria.c and memoria.h: the states of the memory module from its start on, while the kernel asks for
-- what the module can do.
use unix_os_simulation.Base.{
  ℕ, ◌≤◌, ◌<◌, ◌≡◌, ◌≢◌, refl, ◌⊎◌, inl, inr, true, List, [], ◌∷◌, none, some, ok, ◌>>=◌, arith, In,
}
use unix_os_simulation.Commons.{Commons}
use unix_os_simulation.Memoria.{Segmento, Hueco, Memoria, Algoritmo, lookup}
use unix_os_simulation.Memoria.Huecos.{iniciar_lista_huecos_libres}
use unix_os_simulation.Memoria.Huecos.Cobertura.{cubre_rango}
use unix_os_simulation.Memoria.Huecos.Separacion.{IsSeparada}
use unix_os_simulation.Memoria.Asignacion.{conocido, alojar_en, allocate_segment}
use unix_os_simulation.Memoria.Asignacion.Cobertura.{
  IsTiled, calloc_segment_cases, cubre-ocupar_hueco,
}
use unix_os_simulation.Memoria.Asignacion.Separacion.{ocupar_hueco-IsSeparada}
use unix_os_simulation.Memoria.Compactacion.{espacio, tabla_global}
use unix_os_simulation.Memoria.Compactacion.Terminacion.{suma_bases}
use unix_os_simulation.Memoria.Tablas.{Respuesta}
use unix_os_simulation.Memoria.Servicio.{
  memoria_inicial, Peticion, crear, borrar, salir, compactar, otra, Respondido, nada, una_tabla,
  todas, atender_kernel,
}
use unix_os_simulation.Memoria.Servicio.Enlaces.{IsEnlazada}
use unix_os_simulation.Memoria.Servicio.Pedidos.{Sigue}
use unix_os_simulation.Memoria.Servicio.Borrado.{Tiene}

-- The user space before segment 0 is there.
abbrev vacia : Algoritmo → ℕ → Memoria
vacia a tam = record {
  tam_memoria = tam;
  algoritmo = a;
  huecos_libres = record { pos = 0; size = tam } ∷ [];
  segmentos = [];
  proximo = 0;
  tabla_inicial = [];
  tablas = [];
  user_space = λ x. espacio;
}

vacia-IsTiled : (a : Algoritmo) (tam : ℕ) → IsTiled (vacia a tam)
unfolding cubre_rango
vacia-IsTiled a tam x = ground arith

vacia-IsSeparada : (a : Algoritmo) (tam : ℕ) → 0 < tam → IsSeparada (vacia a tam).huecos_libres
vacia-IsSeparada a tam l =
    (λ h. elim [ inl e ↦ rw (e) l | inr i ↦ absurd i ], λ h k i j q. ground arith)

module _ (a : Algoritmo) (tam tam_0 : ℕ) (pos : 0 < tam_0) (le : tam_0 ≤ tam) (h : Hueco)
    (i : In h (vacia a tam).huecos_libres) (f : tam_0 ≤ h.size) where
  abbrev primera : Memoria
  primera = let r = alojar_en (vacia a tam) [] 0 tam_0 h in record (r.2) { tabla_inicial = r.1 }

  primera-IsEnlazada : IsEnlazada [] primera
  unfolding alojar_en allocate_segment tabla_global
  primera-IsEnlazada = record {
    tiled = λ x. omega (
      arith,
      vacia-IsTiled a tam x,
      cubre-ocupar_hueco x (vacia a tam).huecos_libres h tam_0 i f,
    );
    separada =
        ocupar_hueco-IsSeparada (vacia a tam) h tam_0 (vacia-IsTiled a tam)
          (vacia-IsSeparada a tam (omega (arith, pos, le))) i pos f;
    llenos = λ e. elim [ inl q ↦ rw (q) pos | inr j ↦ absurd j ];
    unicas = λ p. ground arith;
    frescas = λ p l. ground arith;
    s0 = record { id = 0; base = h.pos; limite = tam_0 };
    inicial = refl;
    vive = refl;
    abajo = ground (arith, i);
    cero = refl;
    cabezas = λ e j. absurd j;
    contados = λ p n. ground arith;
  }

-- Under a known algorithm, and with a segment 0 that is not empty and fits, `main` sets up a memory
-- whose tables and heap hang together.
pub memoria_inicial-IsEnlazada :
    (c : Commons) (a : Algoritmo) (tam tam_0 : ℕ)
    → conocido a ≡ true
    → 0 < tam_0
    → tam_0 ≤ tam
    → (m : Memoria) × (memoria_inicial c a tam tam_0 ≡ ok m) × IsEnlazada [] m × (m.algoritmo ≡ a)
unfolding memoria_inicial iniciar_lista_huecos_libres alojar_en allocate_segment
memoria_inicial-IsEnlazada c a tam tam_0 k pos le =
    elim (calloc_segment_cases c (vacia a tam) [] 0 tam_0 k) [
      | inl (no_fit, _) ↦
          absurd (omega (arith, le, no_fit (record { pos = 0; size = tam }) (inl refl)))
      | inr (h, i, f, _, e) ↦ (
        primera a tam tam_0 pos le h i f,
        rw (memoria_inicial, iniciar_lista_huecos_libres, e, ◌>>=◌) refl,
        primera-IsEnlazada a tam tam_0 pos le h i f,
        refl,
      )
    ]

-- What the kernel may ask for: a first request of any size, no empty segment later; no segment that the
-- process does not have, not segment 0; no end of a process without a table, no compaction of a full
-- memory.
abbrev pub Valida : Memoria → Peticion → Type 0
Valida m (crear pid id size) = (lookup pid m.tablas ≡ none) ⊎ (0 < size)
Valida m (borrar pid id) =
    (t : List ℕ) × (lookup pid m.tablas ≡ some t) × (id ≢ 0) × Tiene m.segmentos id t
Valida m (salir pid) = (t : List ℕ) × (lookup pid m.tablas ≡ some t)
Valida m compactar = m.huecos_libres ≢ []
Valida m otra = ⊥

-- A table for a segment that is created or deleted, all tables for a compaction, nothing for an end.
abbrev pub Contesta : Peticion → Respondido → Type 0
Contesta (crear pid id size) r = (t : Respuesta) × (r ≡ una_tabla t)
Contesta (borrar pid id) r = (t : Respuesta) × (r ≡ una_tabla t)
Contesta (salir pid) r = r ≡ nada
Contesta compactar r = (ts : List (ℕ × List Segmento)) × (r ≡ todas ts)
Contesta otra r = ⊥

abbrev pub Atendida : Commons → ℕ → Memoria → Peticion → Type 0
Atendida c fuel m p =
    (r : Respondido) × (m' : Memoria) × (atender_kernel c fuel m p ≡ some (ok (r, m')))
    × Contesta p r
    × Sigue m m'

-- The states of the module from its start on, over answers to valid requests.
pub data Alcanzada (c : Commons) (a : Algoritmo) (tam tam_0 : ℕ) : Memoria → Type 0 where
  inicio : {m : Memoria} → memoria_inicial c a tam tam_0 ≡ ok m → Alcanzada c a tam tam_0 m
  turno :
      {m m' : Memoria}
      → Alcanzada c a tam tam_0 m
      → (p : Peticion) → Valida m p
      → (fuel : ℕ) → suma_bases m.segmentos < fuel
      → (r : Respondido) → atender_kernel c fuel m p ≡ some (ok (r, m'))
      → Alcanzada c a tam tam_0 m'
