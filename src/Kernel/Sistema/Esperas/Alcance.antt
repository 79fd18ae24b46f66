-- ===== src/Kernel/Sistema/Esperas/Alcance.antt =====
-- kernel.h: a state with its waits is one that the threads reach step by step.
use unix_os_simulation.Base.{
  ℕ, ◌-◌, ◌≤◌, ◌<◌, ◌≡◌, refl, sym, ap, subst, ◌∙◌, true, false, List, [], ◌∷◌, Outcome, deref,
  Sale, Sale-bind, Sale-bind_any, Sale-mono, Sale-ok, Cadena, ◌==◌, arith,
}
use unix_os_simulation.Base.Int.{ℤ}
use unix_os_simulation.Biblioteca.{Segmento}
use unix_os_simulation.Kernel.{Kernel, BlockedNode, kernel_inicial}
use unix_os_simulation.Kernel.Diccionario.{dictionary_get}
use unix_os_simulation.Kernel.Marco.{Quieto, quieto, Marco}
use unix_os_simulation.Kernel.Marco.Ficheros.{
  f_close-Marco, f_open-Marco, f_truncate-Marco, fseek-Marco, facceso-Marco,
}
use unix_os_simulation.Kernel.Archivos.{process_f_open, process_f_close}
use unix_os_simulation.Kernel.Ficheros.{
  es_uno, f_truncate_process, process_fseek, process_facceso, operar, atender_en, atender,
}
use unix_os_simulation.Kernel.Operaciones.Casos.{operar_cases}
use unix_os_simulation.Kernel.Procesos.{admitir, gestionador_ready}
use unix_os_simulation.Kernel.Sistema.{◌⟶*◌, admite, atiende, aqui, luego}
use unix_os_simulation.Kernel.Sistema.Esperas.{
  Estado, consola_tomada, lugar_tomado, ◌⟹◌, toma_consola, toma_lugar, recibe_tabla, toma_nodo,
  responde_fs, ajeno, ◌⟹*◌, quieto_en, y_luego, estado_inicial,
}
use unix_os_simulation.Kernel.Sistema.Esperas.Crece.{Ajeno-Crece}

-- What the two threads have taken is counted in the kernel.
pub record Respaldado (s : Estado) : Type 0 where
  pub consola : consola_tomada s.admision ≤ (s.kernel).hay_consolas_new
  pub lugar : lugar_tomado s.admision ≤ (s.kernel).hay_espacio_ready
  pub nodo :
      s.espera_fs ≡ true → (0 < (s.kernel).hay_consolas_blocked) × ((s.kernel).fs_reviso ≡ true)

-- `gestionadorReady` does not touch what `operarFS` takes from, nor the other way round.
admitir-Aparte_fs :
    (nuevas : List ℕ) (tabla : List Segmento) (k : Kernel)
    → Sale
        (λ k'. (k'.hay_consolas_blocked ≡ k.hay_consolas_blocked) × (k'.fs_reviso ≡ k.fs_reviso))
        (admitir nuevas tabla k)
unfolding admitir
admitir-Aparte_fs [] tabla k = tt
admitir-Aparte_fs (pid ∷ nuevas) tabla k =
    Sale-bind_any _ (deref (dictionary_get ◌==◌ pid k.pcbs)) _ (λ pcb. (refl, refl))

abbrev Aparte : Kernel → Kernel → Type 0
Aparte k k' =
    (k'.hay_consolas_new ≡ k.hay_consolas_new) × (k'.hay_espacio_ready ≡ k.hay_espacio_ready)

operar-Aparte :
    (respuesta : ℤ) (nodo : BlockedNode) (k : Kernel) → Sale (Aparte k) (operar respuesta nodo k)
unfolding quieto
operar-Aparte respuesta nodo k =
    let pid = nodo.un_pcb in
    let marco : (o : Outcome Kernel) → Sale (Marco k) o → Sale (Aparte k) o = λ o m.
      Sale-mono o m (λ k' (e, f).
        (ap (λ (q : Quieto). q.q_hay_new) e, ap (λ (q : Quieto). q.q_hay_espacio) e)) in
    operar_cases (Aparte k) respuesta nodo k
      (λ e n. marco (process_f_open (es_uno respuesta) n pid k) (f_open-Marco _ n pid k))
      (λ e n. marco (process_f_close n pid k) (f_close-Marco n pid k))
      (λ e.
        marco (f_truncate_process respuesta nodo.parametros pid k)
          (f_truncate-Marco respuesta nodo.parametros pid k))
      (λ e. marco (process_fseek nodo.parametros pid k) (fseek-Marco nodo.parametros pid k))
      (λ e op.
        Sale-bind (Aparte k) (Aparte k) (process_facceso op nodo.parametros pid k) _
          (marco (process_facceso op nodo.parametros pid k)
            (facceso-Marco op nodo.parametros pid k))
          (λ k1 b. b))

atender_en-Aparte :
    (nodos : List BlockedNode) (respuesta : ℤ) (k : Kernel)
    → Sale (Aparte k) (atender_en nodos respuesta k)
unfolding atender_en
atender_en-Aparte [] respuesta k = tt
atender_en-Aparte (nodo ∷ nodos) respuesta k =
    Sale-bind (Aparte k) (Aparte k) (operar respuesta nodo (record k { consolas_blocked = nodos }))
      _ (operar-Aparte respuesta nodo (record k { consolas_blocked = nodos })) (λ k1 b. b)

-- The step of the threads that a step with waits ends, if it ends one.
pub paso-kernel :
    (inicio : Kernel) (s s' : Estado)
    → inicio ⟶* s.kernel
    → Respaldado s
    → s ⟹ s'
    → (inicio ⟶* s'.kernel) × Respaldado s'
unfolding consola_tomada lugar_tomado gestionador_ready atender quieto
paso-kernel inicio s s' r v (toma_consola a h e) =
    subst (λ x. (inicio ⟶* x.kernel) × Respaldado x) (sym e)
      (r, record { consola = h; lugar = omega arith; nodo = v.nodo })
paso-kernel inicio s s' r v (toma_lugar a h e) =
    let c = subst (λ x. consola_tomada x ≤ (s.kernel).hay_consolas_new) a v.consola in
    subst (λ x. (inicio ⟶* x.kernel) × Respaldado x) (sym e)
      (r, record { consola = c; lugar = h; nodo = v.nodo })
paso-kernel inicio s s' r v (recibe_tabla tabla k' a h e) =
    let k = s.kernel in
    let c = subst (λ x. consola_tomada x ≤ k.hay_consolas_new) a v.consola in
    let l = subst (λ x. lugar_tomado x ≤ k.hay_espacio_ready) a v.lugar in
    let (b, f) =
      Sale-ok _ (gestionador_ready tabla k) k'
        (admitir-Aparte_fs k.consolas_new tabla (record k {
          hay_consolas_new = k.hay_consolas_new - 1;
          hay_espacio_ready = k.hay_espacio_ready - 1;
        }))
        h in
    subst (λ x. (inicio ⟶* x.kernel) × Respaldado x) (sym e)
      (
        luego r (admite tabla c l h),
        record {
          consola = omega arith;
          lugar = omega arith;
          nodo = λ z. let (x, y) = v.nodo z in (omega (arith, x, b), f ∙ y);
        },
      )
paso-kernel inicio s s' r v (toma_nodo a b h e) =
    subst (λ x. (inicio ⟶* x.kernel) × Respaldado x) (sym e)
      (r, record { consola = v.consola; lugar = v.lugar; nodo = λ z. (h, b) })
paso-kernel inicio s s' r v (responde_fs respuesta k' a h e) =
    let k = s.kernel in
    let (x, y) = v.nodo a in
    let (b, f) =
      Sale-ok (Aparte k) (atender respuesta k) k'
        (atender_en-Aparte k.consolas_blocked respuesta
          (record k { hay_consolas_blocked = k.hay_consolas_blocked - 1 }))
        h in
    subst (λ x. (inicio ⟶* x.kernel) × Respaldado x) (sym e)
      (
        luego r (atiende respuesta y x h),
        record {
          consola = omega (arith, v.consola, b);
          lugar = omega (arith, v.lugar, f);
          nodo = λ z. absurd (falso z);
        },
      )
  where
    falso : false ≡ true → ⊥
    falso z = cc
paso-kernel inicio s s' r v (ajeno k' p q e) =
    let c = Ajeno-Crece s.kernel k' p q in
    subst (λ x. (inicio ⟶* x.kernel) × Respaldado x) (sym e)
      (
        luego r p,
        record {
          consola = omega (arith, v.consola, c.0);
          lugar = omega (arith, v.lugar, c.1);
          nodo = λ z. let (x, y) = v.nodo z in (omega (arith, x, c.2), c.3 y);
        },
      )

pub alcanzado :
    (grado : ℕ) (recursos : List (Cadena × ℕ)) (s : Estado)
    → estado_inicial grado recursos ⟹* s
    → (kernel_inicial grado recursos ⟶* s.kernel) × Respaldado s
unfolding consola_tomada lugar_tomado
alcanzado grado recursos s quieto_en =
    (aqui, record { consola = omega arith; lugar = omega arith; nodo = λ z. absurd (falso z) })
  where
    falso : false ≡ true → ⊥
    falso z = cc
alcanzado grado recursos s (y_luego {s1 = s1} r p) =
    let (q, v) = alcanzado grado recursos s1 r in
    paso-kernel (kernel_inicial grado recursos) s1 s q v p
