-- ===== src/Cpu/Registros.antt =====
-- cpu.h: the registers, `inicializarRegistros`, `set` and `set_sin_retardo`, `cargarRegistros` and
-- `cargarRegistrosContexto`.
use unix_os_simulation.Base.{
  ℕ, zero, suc, ◌+◌, refl, get_elem?, ◌-◌, ◌≤◌, ◌<◌, ◌≡◌, ◌⊎◌, inl, inr, false, List, [], ◌∷◌, ◌++◌,
  Option, none, some, Outcome, ok, faults, deref, ◌>>=◌, arith, Cadena, codes, strcmp_eq,
  strcmp_eq_refl, strcmp_eq_sound, length, length-append, length-replicate, replicate, leb, leb→le,
  if◌then◌else◌, Bool-cases,
}

abbrev pub Registros : Type 0
Registros = List (Cadena × Cadena)

abbrev pub lista_tokens : List Cadena
lista_tokens =
    codes "AX"
    ∷ codes "BX"
    ∷ codes "CX"
    ∷ codes "DX"
    ∷ codes "EAX"
    ∷ codes "EBX"
    ∷ codes "ECX"
    ∷ codes "EDX"
    ∷ codes "RAX"
    ∷ codes "RBX"
    ∷ codes "RCX"
    ∷ codes "RDX"
    ∷ []

-- Four registers of 4 bytes, four of 8, four of 16, under the names in order.
unfoldable pub inicializar_desde : ℕ → List Cadena → Registros
inicializar_desde i [] = []
inicializar_desde i (t ∷ ts) =
    (t, replicate (if leb i 3 then 4 else if leb i 7 then 8 else 16) b'0')
    ∷ inicializar_desde (suc i) ts

unfoldable pub inicializar_registros : Registros
unfolding inicializar_desde
inicializar_registros = inicializar_desde 0 lista_tokens

-- `dictionary_get`
unfoldable pub obtener : Cadena → Registros → Option Cadena
obtener k [] = none
obtener k ((n, v) ∷ rs) = if strcmp_eq n k then some v else obtener k rs

-- A write through the pointer that `dictionary_get` returned.
unfoldable pub escribir : Cadena → Cadena → Registros → Registros
escribir k w [] = []
escribir k w ((n, v) ∷ rs) = if strcmp_eq n k then (n, w) ∷ rs else (n, v) ∷ escribir k w rs

-- The register is filled with `'0'`, and the value copied over its front, when it fits.
abbrev pub rellenar : Cadena → Cadena → Cadena
rellenar reg valor = valor ++ replicate (length reg - length valor) b'0'

-- What `set` answers: -1 for an unknown register, or by how many bytes the value is too long.
pub data Retorno : Type 0 where
  no_encontrado : Retorno
  excedidos : ℕ → Retorno

unfoldable pub set_registro : Cadena → Cadena → Registros → Retorno × Registros
set_registro reg_name valor rs = elim (obtener reg_name rs) [
  | none ↦ (no_encontrado, rs)
  | some reg ↦
      if leb (length valor) (length reg)
      then (excedidos 0, escribir reg_name (rellenar reg valor) rs)
      else (excedidos (length valor - length reg), rs)
]

-- The same without the delay; the register must be there.
unfoldable pub set_sin_retardo : Cadena → Cadena → Registros → Outcome Registros
set_sin_retardo reg_name valor rs = do
  reg ← deref (obtener reg_name rs)
  if leb (length valor) (length reg) then ok (escribir reg_name (rellenar reg valor) rs) else ok rs

-- Before a cycle: the registers of the context, one after the other; the array has an entry for each.
unfoldable pub cargar_registros : List Cadena → List Cadena → Registros → Outcome Registros
unfolding set_sin_retardo
cargar_registros [] vs rs = ok rs
cargar_registros (t ∷ ts) [] rs = faults
cargar_registros (t ∷ ts) (v ∷ vs) rs = do rs' ← set_sin_retardo t v rs; cargar_registros ts vs rs'

-- Before the context goes back: a copy of all registers.
unfoldable pub cargar_registros_contexto : Registros → List Cadena
cargar_registros_contexto [] = []
cargar_registros_contexto ((n, v) ∷ rs) = v ∷ cargar_registros_contexto rs

pub obtener-escribir :
    (j k w : Cadena) (rs : Registros)
    → obtener j (escribir k w rs) ≡ (
        if strcmp_eq k j
        then elim (obtener k rs) [ none ↦ none | some _ ↦ some w ]
        else obtener j rs)
unfolding obtener escribir
obtener-escribir j k w [] = ground arith
obtener-escribir j k w ((n, v) ∷ rs) =
    ground (arith, strcmp_eq_sound n k, strcmp_eq_sound k j, obtener-escribir j k w rs)

length-rellenar :
    (reg valor : Cadena) → length valor ≤ length reg → length (rellenar reg valor) ≡ length reg
length-rellenar reg valor h = omega (
  arith,
  length-append valor (replicate (length reg - length valor) b'0'),
  length-replicate {A = ℕ} (length reg - length valor) b'0',
)

get_elem?-front : (xs ys : Cadena) (i : ℕ) → i < length xs → get_elem? (xs ++ ys) i ≡ get_elem? xs i
get_elem?-front [] ys i l = absurd (omega arith)
get_elem?-front (x ∷ xs) ys zero l = refl
get_elem?-front (x ∷ xs) ys (suc i) l = get_elem?-front xs ys i (omega arith)

get_elem?-ceros :
    (xs : Cadena) (n i : ℕ)
    → length xs ≤ i
    → i < length xs + n
    → get_elem? (xs ++ replicate n b'0') i ≡ some 48
get_elem?-ceros [] zero i l m = absurd (omega arith)
get_elem?-ceros [] (suc n) zero l m = refl
get_elem?-ceros [] (suc n) (suc i) l m = get_elem?-ceros [] n i (omega arith) (omega arith)
get_elem?-ceros (x ∷ xs) n zero l m = absurd (omega arith)
get_elem?-ceros (x ∷ xs) n (suc i) l m = get_elem?-ceros xs n i (omega arith) (omega arith)

-- `v` is the value, with the byte 48 behind it up to the length of the register.
pub record EsRelleno (reg valor v : Cadena) : Type 0 where
  pub largo : length v ≡ length reg
  pub frente : (i : ℕ) → i < length valor → get_elem? v i ≡ get_elem? valor i
  pub fondo : (i : ℕ) → length valor ≤ i → i < length reg → get_elem? v i ≡ some 48

rellenar-EsRelleno :
    (reg valor : Cadena) → length valor ≤ length reg → EsRelleno reg valor (rellenar reg valor)
rellenar-EsRelleno reg valor h = record {
  largo = length-rellenar reg valor h;
  frente = get_elem?-front valor (replicate (length reg - length valor) b'0');
  fondo = λ i l m. get_elem?-ceros valor (length reg - length valor) i l (omega arith);
}

-- A register of the dictionary takes a value that fits, as long as the register, with the value in
-- front and the digit zero at every place behind it, and every other register stays; a value that
-- is too long is refused, with the number of bytes too many, and nothing changes.
pub set_registro_lem :
    (k valor reg : Cadena) (rs : Registros)
    → obtener k rs ≡ some reg
    → ((length valor ≤ length reg)
        × ((set_registro k valor rs).0 ≡ excedidos 0)
        × ((v : Cadena) × (obtener k (set_registro k valor rs).1 ≡ some v) × EsRelleno reg valor v)
        × ((j : Cadena)
            → strcmp_eq k j ≡ false
            → obtener j (set_registro k valor rs).1 ≡ obtener j rs))
      ⊎ ((length reg < length valor)
          × (set_registro k valor rs ≡ (excedidos (length valor - length reg), rs)))
unfolding set_registro
set_registro_lem k valor reg rs e = elim (Bool-cases (leb (length valor) (length reg))) [
  | inl fits ↦ inl (
    leb→le (length valor) (length reg) fits,
    rw (e, set_registro) (rw fits),
    (
      rellenar reg valor,
      rw (e, set_registro)
          (rw fits (rw (obtener-escribir k k (rellenar reg valor) rs, strcmp_eq_refl k, e))),
      rellenar-EsRelleno reg valor (leb→le (length valor) (length reg) fits),
    ),
    λ j other.
        rw (e, set_registro) (rw fits (rw (obtener-escribir j k (rellenar reg valor) rs, other))),
  )
  | inr long ↦ inr (ground arith, rw (e, set_registro) (rw long))
]
