-- ===== src/Biblioteca/Paquete/RoundTrip.antt =====
-- The bytes that a packet gains by each value, and what a receiver makes of them.
use unix_os_simulation.Base.{
  ℕ, ◌+◌, ◌<◌, ◌≡◌, refl, sym, ap, ◌∙◌, List, [], ◌∷◌, ◌++◌, append-nil, append_assoc, Outcome, ok,
  ◌>>=◌, arith, length, take, length-append,
}
use unix_os_simulation.Biblioteca.{Segmento}
use unix_os_simulation.Biblioteca.Enteros.{
  int_bytes, int_mod, leer_int, leer_int-int_bytes, leer_bloque-append, length-int_bytes,
}
use unix_os_simulation.Biblioteca.Paquete.{
  Paquete, agregar_int, agregar_a_paquete, cadena, agregar_cadenas, empaquetar_registros,
  agregar_segmento_a_paquete, agregar_segmentos, serializar_paquete, recibir_buffer,
  crear_paquete_contexto, leer_cadenas, leer_segmentos,
}

-- A terminated string in a block of its own size, short enough for an `int`.
abbrev pub IsCadena : List ℕ → Type 0
IsCadena b = (cadena b ≡ ok b) × (length b < int_mod)

abbrev pub All {ℓ κ} : {A : Type ℓ} → (A → Type κ) → List A → Type κ
All P [] = Unit
All P (x ∷ xs) = P x × All P xs

abbrev pub Cabe : Segmento → Type 0
Cabe s = (s.id < int_mod) × (s.base < int_mod) × (s.limite < int_mod)

-- The packet with more bytes at the end of its stream.
unfoldable pub extender : Paquete → List ℕ → Paquete
extender p b = record p { stream = p.stream ++ b; size = p.size + length b }

abbrev pub valor_bytes : List ℕ → List ℕ
valor_bytes v = int_bytes (length v) ++ v

abbrev pub valores_bytes : List (List ℕ) → List ℕ
valores_bytes [] = []
valores_bytes (v ∷ vs) = valor_bytes v ++ valores_bytes vs

abbrev pub segmento_bytes : Segmento → List ℕ
segmento_bytes s = int_bytes s.id ++ (int_bytes s.base ++ int_bytes s.limite)

abbrev pub segmentos_bytes : List Segmento → List ℕ
segmentos_bytes [] = []
segmentos_bytes (s ∷ ss) = segmento_bytes s ++ segmentos_bytes ss

pub Paquete-ext :
    (p q : Paquete)
    → p.codigo_operacion ≡ q.codigo_operacion
    → p.size ≡ q.size
    → p.stream ≡ q.stream
    → p ≡ q
Paquete-ext p q a b c = ground arith

pub extender-extender :
    (p : Paquete) (a b : List ℕ) → extender (extender p a) b ≡ extender p (a ++ b)
unfolding extender
extender-extender p a b =
    Paquete-ext _ _ refl (omega (arith, length-append a b)) (append_assoc p.stream a b)

pub extender-nil : (p : Paquete) → extender p [] ≡ p
unfolding extender
extender-nil p = Paquete-ext _ _ refl (omega arith) (append-nil p.stream)

pub agregar_int-extender : (p : Paquete) (n : ℕ) → agregar_int p n ≡ extender p (int_bytes n)
unfolding agregar_int extender
agregar_int-extender p n = Paquete-ext _ _ refl (omega (arith, length-int_bytes n)) refl

pub agregar_a_paquete-extender :
    (p : Paquete) (v : List ℕ) → agregar_a_paquete p v ≡ extender p (valor_bytes v)
unfolding agregar_a_paquete extender
agregar_a_paquete-extender p v =
    Paquete-ext _ _ refl
      (omega (arith, length-int_bytes (length v), length-append (int_bytes (length v)) v)) refl

pub agregar_cadenas-extender :
    (p : Paquete) (es : List (List ℕ))
    → All IsCadena es
    → agregar_cadenas p es ≡ ok (extender p (valores_bytes es))
unfolding agregar_cadenas
agregar_cadenas-extender p [] h = ap ok (sym (extender-nil p))
agregar_cadenas-extender p (e ∷ es) h =
    rw (h.0.0, agregar_a_paquete-extender p e)
      (agregar_cadenas-extender (extender p (valor_bytes e)) es h.1
        ∙ ap ok (extender-extender p (valor_bytes e) (valores_bytes es)))

pub empaquetar_registros-extender :
    (p : Paquete) (rs : List (List ℕ))
    → All IsCadena rs
    → empaquetar_registros (length rs) p rs ≡ ok (extender p (valores_bytes rs))
unfolding empaquetar_registros
empaquetar_registros-extender p [] h = ap ok (sym (extender-nil p))
empaquetar_registros-extender p (e ∷ es) h =
    rw (h.0.0, agregar_a_paquete-extender p e)
      (empaquetar_registros-extender (extender p (valor_bytes e)) es h.1
        ∙ ap ok (extender-extender p (valor_bytes e) (valores_bytes es)))

agregar_segmento_a_paquete-extender :
    (p : Paquete) (s : Segmento) → agregar_segmento_a_paquete p s ≡ extender p (segmento_bytes s)
unfolding agregar_segmento_a_paquete int_bytes extender
agregar_segmento_a_paquete-extender p s = refl

pub agregar_segmentos-extender :
    (p : Paquete) (ss : List Segmento) → agregar_segmentos p ss ≡ extender p (segmentos_bytes ss)
unfolding agregar_segmentos
agregar_segmentos-extender p [] = sym (extender-nil p)
agregar_segmentos-extender p (s ∷ ss) = rw (agregar_segmento_a_paquete-extender p s) (
    agregar_segmentos-extender (extender p (segmento_bytes s)) ss
    ∙ extender-extender p (segmento_bytes s) (segmentos_bytes ss))

take-length : (xs : List ℕ) → take (length xs) xs ≡ xs
take-length [] = refl
take-length (x ∷ xs) = ap (◌∷◌ x) (take-length xs)

-- Reading back.
pub leer_cadenas-valores_bytes :
    (vs : List (List ℕ)) (rest : List ℕ)
    → All IsCadena vs
    → leer_cadenas (length vs) (valores_bytes vs ++ rest) ≡ ok (vs, rest)
unfolding leer_cadenas
leer_cadenas-valores_bytes [] rest h = refl
leer_cadenas-valores_bytes (v ∷ vs) rest h = simp append_assoc (
    rw (
      leer_int-int_bytes (length v) (v ++ (valores_bytes vs ++ rest)) h.0.1,
      leer_bloque-append v (valores_bytes vs ++ rest),
      leer_cadenas-valores_bytes vs rest h.1,
    ))

pub leer_segmentos-segmentos_bytes :
    (ss : List Segmento) (rest : List ℕ)
    → All Cabe ss
    → leer_segmentos (length ss) (segmentos_bytes ss ++ rest) ≡ ok (ss, rest)
unfolding leer_segmentos
leer_segmentos-segmentos_bytes [] rest h = refl
leer_segmentos-segmentos_bytes (s ∷ ss) rest h = simp append_assoc (
    rw (
      leer_int-int_bytes s.id
          (int_bytes s.base ++ (int_bytes s.limite ++ (segmentos_bytes ss ++ rest))) h.0.0,
      leer_int-int_bytes s.base (int_bytes s.limite ++ (segmentos_bytes ss ++ rest)) h.0.1,
      leer_int-int_bytes s.limite (segmentos_bytes ss ++ rest) h.0.2,
      leer_segmentos-segmentos_bytes ss rest h.1,
    ))

-- What one `serializar_paquete` sends, `recibir_operacion` and `recibir_buffer` take apart.
pub recibir_buffer-serializar_paquete :
    (p : Paquete) (rest : List ℕ)
    → p.size ≡ length p.stream
    → p.size < int_mod
    → p.codigo_operacion < int_mod
    → (leer_int (serializar_paquete p ++ rest) >>= λ r. recibir_buffer r.1) ≡ ok (p.stream, rest)
unfolding serializar_paquete recibir_buffer
recibir_buffer-serializar_paquete p rest e h c =
    rw (e, take-length p.stream)
      (simp append_assoc (
        rw (
          leer_int-int_bytes p.codigo_operacion (int_bytes (length p.stream) ++ (p.stream ++ rest))
              c,
          leer_int-int_bytes (length p.stream) (p.stream ++ rest) (rw e at h),
          leer_bloque-append p.stream rest,
        )))

-- The operation code that the receiver's loop reads first, and what `recv` then reads.
abbrev pub recibe :
    {A : Type 0} → (List ℕ → Outcome (A × List ℕ)) → List ℕ → Outcome (ℕ × A × List ℕ)
recibe recv sock = do op ← leer_int sock; r ← recv op.1; ok (op.0, r.0, r.1)

-- The bytes of a packet with the given operation code and stream.
abbrev pub enviado : ℕ → List ℕ → List ℕ
enviado op b = serializar_paquete (extender (crear_paquete_contexto op) b)

pub recibir_buffer-enviado :
    (op : ℕ) (b rest : List ℕ)
    → op < int_mod
    → length b < int_mod
    → (leer_int (enviado op b ++ rest) ≡ ok (op, int_bytes (length b) ++ (b ++ rest)))
      × (recibir_buffer (int_bytes (length b) ++ (b ++ rest)) ≡ ok (b, rest))
unfolding serializar_paquete crear_paquete_contexto recibir_buffer extender
recibir_buffer-enviado op b rest h l =
    let z : 0 + length b ≡ length b = omega arith in
    (
      rw (z, take-length b)
          (simp append_assoc (leer_int-int_bytes op (int_bytes (length b) ++ (b ++ rest)) h)),
      rw (leer_int-int_bytes (length b) (b ++ rest) l) (leer_bloque-append b rest),
    )

-- A receiver that reads `v` from the stream `b` reads it from the socket.
pub recibe-enviado :
    {A : Type 0} (leer : List ℕ → Outcome A) (op : ℕ) (b rest : List ℕ) (v : A)
    → op < int_mod
    → length b < int_mod
    → leer b ≡ ok v
    → recibe (λ s. recibir_buffer s >>= λ r. leer r.0 >>= λ a. ok (a, r.1)) (enviado op b ++ rest)
      ≡ ok (op, v, rest)
recibe-enviado leer op b rest v h l e =
    let (a, c) = recibir_buffer-enviado op b rest h l in rw (a, c, e)
