-- ===== src/Cpu/Ciclo/Turno.antt =====
-- cpu.c: what each instruction does to the flag, to the contexts sent to the kernel and to the
-- program, by the function of Instrucciones that it calls.
use unix_os_simulation.Base.{
  ℕ, zero, suc, ◌≡◌, refl, subst, ◌∙◌, true, List, [], ◌∷◌, ◌++◌, Option, none, some, Outcome, ok,
  faults, deref, ◌>>=◌, >>=-eq-ok, Cadena, length,
}
use unix_os_simulation.Base.Int.{ℤ, pos, negsuc, atoi}
use unix_os_simulation.Biblioteca.{ExecContext}
use unix_os_simulation.Biblioteca.OpCode
use unix_os_simulation.Memoria.Espacio.{leer_espacio, escribir_espacio}
use unix_os_simulation.Cpu.{Textos, Cpu}
use unix_os_simulation.Cpu.Registros.{Retorno, no_encontrado, excedidos, obtener, set_registro}
use unix_os_simulation.Cpu.Mmu.{mmu}
use unix_os_simulation.Cpu.Instrucciones.{
  enviar_contexto, guardar_registros, con_parametros, exit_process_error, tras_set, set, yield,
  exit_process, i_o, pedir, error_seg_fault, hasta_nul, mov_in_desde, mov_in, mov_out_en,
  mov_out_de, mov_out, f_acceso_en, f_acceso,
}
use unix_os_simulation.Cpu.Ciclo.{
  Funcion, set_id, yield_id, exit_id, i_o_id, wait_id, signal_id, mov_in_id, mov_out_id, f_open_id,
  f_close_id, f_seek_id, f_read_id, f_write_id, f_truncate_id, create_segment_id, delete_segment_id,
  diccionario_functions_id, buscar_funcion, sacar, interrumpir, tras_ejecutar_set, ejecutar_set,
  ejecutar, llamar, decodificar,
}

-- The cycle goes on and nothing was sent, or it ends and one context was sent.
pub data Entrega (c c' : Cpu) : Type 0 where
  sigue : c'.interrupted ≡ c.interrupted → c'.enviados ≡ c.enviados → Entrega c c'
  entrega :
      (motivo : ℕ) (ctx : ExecContext)
      → c'.interrupted ≡ true
      → c'.enviados ≡ c.enviados ++ (motivo, ctx) ∷ []
      → Entrega c c'

-- The instructions stay, and so does the program counter.
unfoldable pub MismoPrograma : Cpu → Cpu → Type 0
MismoPrograma c c' =
    (c'.contexto.program_counter ≡ c.contexto.program_counter)
    × (c'.contexto.instrucciones ≡ c.contexto.instrucciones)

unfoldable pub Turno : Cpu → Cpu → Type 0
Turno c c' = Entrega c c' × MismoPrograma c c'

module _ (m : Cadena) (c : Cpu) where
  Turno-exit_process_error : Turno c (exit_process_error m c)
  unfolding exit_process_error enviar_contexto con_parametros Turno MismoPrograma
  Turno-exit_process_error = (entrega OpCode.error _ refl refl, (refl, refl))

Turno-refl : (c : Cpu) → Turno c c
unfolding Turno MismoPrograma
Turno-refl c = (sigue refl refl, (refl, refl))

-- A change that keeps the flag, the contexts sent and the program, before a turn.
Turno-after :
    (c b c' : Cpu)
    → b.interrupted ≡ c.interrupted
    → b.enviados ≡ c.enviados
    → MismoPrograma c b
    → Turno b c'
    → Turno c c'
unfolding Turno MismoPrograma
Turno-after c b c' i e p t = go (t.0)
  where
    go : Entrega b c' → Entrega c c' × MismoPrograma c c'
    go (sigue h k) = (sigue (h ∙ i) (k ∙ e), (t.1.0 ∙ p.0, t.1.1 ∙ p.1))
    go (entrega m x h k) = (entrega m x h (rw (k, e)), (t.1.0 ∙ p.0, t.1.1 ∙ p.1))

Turno-sacar : (c : Cpu) (a : Cadena × Cpu) (c' : Cpu) → sacar c ≡ ok a → Turno (a.1) c' → Turno c c'
unfolding sacar con_parametros MismoPrograma
Turno-sacar c a c' e = go (c.contexto.parametros) refl
  where
    go : (ps : List Cadena) → c.contexto.parametros ≡ ps → Turno (a.1) c' → Turno c c'
    go [] h t = let z : sacar c ≡ faults = rw (h, sacar) in cc
    go (p ∷ ps) h t =
        let z : sacar c ≡ ok (p, con_parametros ps c) = rw (h, sacar) in
        let y : a ≡ (p, con_parametros ps c) = cc in
        Turno-after c (con_parametros ps c) c' refl refl (refl, refl)
          (subst (λ q. Turno (q.1) c') y t)

-- The result of a turn that ends with `ok`.
Turno-ok : (c b c' : Cpu) → Turno c b → ok b ≡ ok c' → Turno c c'
Turno-ok c b c' t e = let z : b ≡ c' = cc in subst (λ q. Turno c q) z t

-- A parameter taken out, and what follows.
Turno-con :
    (k : Cadena × Cpu → Outcome Cpu)
    → ((a : Cadena × Cpu) (c' : Cpu) → k a ≡ ok c' → Turno (a.1) c')
    → (c c' : Cpu) → (sacar c >>= k) ≡ ok c'
    → Turno c c'
Turno-con k f c c' h = let (a, e, r) = >>=-eq-ok (sacar c) k h in Turno-sacar c a c' e (f a c' r)

module _ (t : Textos) where
  Turno-tras_set :
      (r v : Cadena) (q : Retorno × List (Cadena × Cadena)) (c : Cpu)
      → Turno c ((tras_set t r v q c).1)
  unfolding tras_set Turno MismoPrograma
  Turno-tras_set r v (no_encontrado, rs) c = Turno-exit_process_error _ c
  Turno-tras_set r v (excedidos n, rs) c = (sigue refl refl, (refl, refl))

  Turno-ejecutar_set : (r v : Cadena) (c : Cpu) → Turno c (ejecutar_set t r v c)
  unfolding ejecutar_set tras_ejecutar_set set tras_set MismoPrograma
  Turno-ejecutar_set r v c = go (set_registro r v c.registros)
    where
      go :
          (q : Retorno × List (Cadena × Cadena))
          → Turno c (tras_ejecutar_set t r (tras_set t r v q c))
      go (no_encontrado, rs) = Turno-exit_process_error _ c
      go (excedidos zero, rs) =
          Turno-after c (record c { registros = rs }) _ refl refl (refl, refl) (Turno-refl _)
      go (excedidos (suc n), rs) =
          Turno-after c (record c { registros = rs }) _ refl refl (refl, refl)
            (Turno-exit_process_error _ _)

  Turno-pedir : (m : ℕ) (ps : List Cadena) (c : Cpu) → Turno c (interrumpir (pedir t m ps c))
  unfolding pedir guardar_registros con_parametros enviar_contexto Turno MismoPrograma
  Turno-pedir m ps c = (entrega m _ refl refl, (refl, refl))

  Turno-i_o : (ps : Cadena) (c : Cpu) → Turno c (interrumpir (i_o t ps c))
  unfolding i_o guardar_registros con_parametros enviar_contexto Turno MismoPrograma
  Turno-i_o m c = (entrega OpCode.i_o _ refl refl, (refl, refl))

  Turno-f_acceso : (m : ℕ) (f a b : Cadena) (c : Cpu) → Turno c (interrumpir (f_acceso t m f a b c))
  unfolding f_acceso f_acceso_en guardar_registros con_parametros enviar_contexto exit_process_error
      error_seg_fault Turno MismoPrograma
  Turno-f_acceso m f a b c =
      go (mmu c.tam_max_segmento c.contexto.tabla_segmentos (atoi a) (atoi b))
    where
      go : (q : ℤ × ℤ) → Turno c (interrumpir (f_acceso_en t m f a b q (guardar_registros c)))
      go (pos n, k) = (entrega m _ refl refl, (refl, refl))
      go (negsuc zero, k) = (entrega OpCode.error _ refl refl, (refl, refl))
      go (negsuc (suc n), k) = (entrega m _ refl refl, (refl, refl))

  Turno-mov_in : (r a : Cadena) (c c' : Cpu) → mov_in t r a c ≡ ok c' → Turno c c'
  unfolding mov_in mov_in_desde error_seg_fault set
  Turno-mov_in r a c c' h =
      let (reg, e, k) = >>=-eq-ok (deref (obtener r c.registros)) _ h in go (length reg) _ k
    where
      go : (n : ℕ) (q : ℤ × ℤ) → mov_in_desde t r a n q c ≡ ok c' → Turno c c'
      go n (pos p, b) k =
          let (l, e, z) = >>=-eq-ok (leer_espacio c.memoria p n) _ k in
          Turno-ok c _ c' (Turno-tras_set r (hasta_nul t l) _ c) z
      go n (negsuc zero, b) k = Turno-ok c _ c' (Turno-exit_process_error _ c) k
      go n (negsuc (suc p), b) k = cc

  Turno-mov_out : (r a : Cadena) (c c' : Cpu) → mov_out t r a c ≡ ok c' → Turno c c'
  unfolding mov_out mov_out_de mov_out_en error_seg_fault MismoPrograma
  Turno-mov_out r a c c' = go (obtener r c.registros)
    where
      en : (reg : Cadena) (q : ℤ × ℤ) → mov_out_en t r a reg q c ≡ ok c' → Turno c c'
      en reg (pos p, b) k =
          let (m, e, z) = >>=-eq-ok (escribir_espacio c.memoria p reg) _ k in
          Turno-ok c _ c'
            (Turno-after c (record c { memoria = m }) _ refl refl (refl, refl) (Turno-refl _)) z
      en reg (negsuc zero, b) k = Turno-ok c _ c' (Turno-exit_process_error _ c) k
      en reg (negsuc (suc p), b) k = cc

      go : (q : Option Cadena) → mov_out_de t r a q c ≡ ok c' → Turno c c'
      go none k = Turno-ok c _ c' (Turno-exit_process_error _ c) k
      go (some reg) k = en reg _ k

  Turno-yield : (c : Cpu) → Turno c (interrumpir (yield t c))
  unfolding yield guardar_registros enviar_contexto Turno MismoPrograma
  Turno-yield c = (entrega OpCode.yield _ refl refl, (refl, refl))

  Turno-exit_process : (c : Cpu) → Turno c (interrumpir (exit_process t c))
  unfolding exit_process guardar_registros enviar_contexto Turno MismoPrograma
  Turno-exit_process c = (entrega OpCode.exit _ refl refl, (refl, refl))

  pedir_uno :
      (m : ℕ) (c c' : Cpu)
      → (sacar c >>= (λ a. ok (interrumpir (pedir t m (a.0 ∷ []) (a.1))))) ≡ ok c'
      → Turno c c'
  pedir_uno m = Turno-con _ (λ a c'. Turno-ok (a.1) _ c' (Turno-pedir m _ (a.1)))

  pedir_dos :
      (m : ℕ) (c c' : Cpu)
      → (sacar c
          >>= (λ a. sacar (a.1) >>= (λ b. ok (interrumpir (pedir t m (a.0 ∷ b.0 ∷ []) (b.1))))))
        ≡ ok c'
      → Turno c c'
  pedir_dos m =
      Turno-con _ (λ a. Turno-con _ (λ b c'. Turno-ok (b.1) _ c' (Turno-pedir m _ (b.1))) (a.1))

  acceso_tres :
      (m : ℕ) (c c' : Cpu)
      → (sacar c >>= (λ a. sacar (a.1) >>= (λ b.
          sacar (b.1) >>= (λ d. ok (interrumpir (f_acceso t m (a.0) (b.0) (d.0) (d.1)))))))
        ≡ ok c'
      → Turno c c'
  acceso_tres m = Turno-con _ (λ a.
      Turno-con _
        (λ b. Turno-con _ (λ d c'. Turno-ok (d.1) _ c' (Turno-f_acceso m _ _ _ (d.1))) (b.1)) (a.1))

  Turno-ejecutar : (f : Funcion) (c c' : Cpu) → ejecutar t f c ≡ ok c' → Turno c c'
  unfolding ejecutar
  Turno-ejecutar set_id =
      Turno-con _ (λ a.
        Turno-con _ (λ b c'. Turno-ok (b.1) _ c' (Turno-ejecutar_set (a.0) (b.0) (b.1))) (a.1))
  Turno-ejecutar yield_id = λ c c'. Turno-ok c _ c' (Turno-yield c)
  Turno-ejecutar exit_id = λ c c'. Turno-ok c _ c' (Turno-exit_process c)
  Turno-ejecutar i_o_id = Turno-con _ (λ a c'. Turno-ok (a.1) _ c' (Turno-i_o (a.0) (a.1)))
  Turno-ejecutar wait_id = pedir_uno _
  Turno-ejecutar signal_id = pedir_uno _
  Turno-ejecutar mov_in_id =
      Turno-con _ (λ a. Turno-con _ (λ b. Turno-mov_in (a.0) (b.0) (b.1)) (a.1))
  Turno-ejecutar mov_out_id =
      Turno-con _ (λ a. Turno-con _ (λ b. Turno-mov_out (b.0) (a.0) (b.1)) (a.1))
  Turno-ejecutar f_open_id = pedir_uno _
  Turno-ejecutar f_close_id = pedir_uno _
  Turno-ejecutar f_seek_id = pedir_dos _
  Turno-ejecutar f_read_id = acceso_tres _
  Turno-ejecutar f_write_id = acceso_tres _
  Turno-ejecutar f_truncate_id = pedir_dos _
  Turno-ejecutar create_segment_id = pedir_dos _
  Turno-ejecutar delete_segment_id = pedir_uno _

  Turno-llamar :
      (k : Cadena) (f : Option Funcion) (c c' : Cpu) → llamar t k f c ≡ ok c' → Turno c c'
  unfolding llamar
  Turno-llamar k none c c' = Turno-ok c _ c' (Turno-exit_process_error _ c)
  Turno-llamar k (some f) c c' = Turno-ejecutar f c c'

  pub Turno-decodificar :
      (ops : List Cadena) (c c' : Cpu) → decodificar t ops c ≡ ok c' → Turno c c'
  unfolding decodificar con_parametros MismoPrograma
  Turno-decodificar [] c c' h = cc
  Turno-decodificar (k ∷ ps) c c' h =
      Turno-after c (con_parametros (c.contexto.parametros ++ ps) c) c' refl refl (refl, refl)
        (Turno-llamar k (buscar_funcion k diccionario_functions_id) _ c' h)
