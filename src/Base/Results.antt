-- ===== src/Base/Results.antt =====
-- How a call ends: with a value, by `exit(1)`, or by an access that C leaves undefined (a null or
-- dangling pointer, a read or a write outside of the mapped bytes).
use mathlib.Core.Logic.{◌⊎◌, inl, inr}
use mathlib.Core.Path.{◌≡◌, refl, subst}
use mathlib.Core.Option.{Option, none, some}

pub data Outcome {ℓ} (A : Type ℓ) : Type ℓ where
  ok : A → Outcome A
  exits : Outcome A
  faults : Outcome A

-- A pointer that is followed without a test.
abbrev pub deref {u} : {Valor : Type u} → Option Valor → Outcome Valor
deref (some valor) = ok valor
deref none = faults

infixl 5 ◌>>=◌
abbrev pub ◌>>=◌ {u v} :
    {Valor : Type u} {Otro : Type v} → Outcome Valor → (Valor → Outcome Otro) → Outcome Otro
faults >>= sigue = faults
exits >>= sigue = exits
ok valor >>= sigue = sigue valor

-- A sequence that succeeds: what its first call returned, and what the second made of it.
pub >>=-eq-ok {u v} :
    {Valor : Type u} {Otro : Type v} (llamada : Outcome Valor) (sigue : Valor → Outcome Otro)
    {final : Otro}
    → (llamada >>= sigue) ≡ ok final
    → (valor : Valor) × (llamada ≡ ok valor) × (sigue valor ≡ ok final)
>>=-eq-ok faults sigue h = cc
>>=-eq-ok exits sigue h = cc
>>=-eq-ok (ok valor) sigue h = (valor, refl, h)

-- What a call returns, if it returns, satisfies the predicate.
abbrev pub Sale {u v} : {Valor : Type u} → (Valor → Type v) → Outcome Valor → Type v
Sale P (ok valor) = P valor
Sale P exits = Unit
Sale P faults = Unit

pub Sale-bind {u v x y} :
    {Valor : Type u} {Otro : Type v} (P : Valor → Type x) (Q : Otro → Type y)
    (llamada : Outcome Valor) (sigue : Valor → Outcome Otro)
    → Sale P llamada
    → ((valor : Valor) → P valor → Sale Q (sigue valor))
    → Sale Q (llamada >>= sigue)
Sale-bind P Q faults sigue h f = tt
Sale-bind P Q exits sigue h f = tt
Sale-bind P Q (ok valor) sigue h f = f valor h

-- For a call whose value the predicate does not need.
pub Sale-bind_any {u v y} :
    {Valor : Type u} {Otro : Type v} (Q : Otro → Type y) (llamada : Outcome Valor)
    (sigue : Valor → Outcome Otro)
    → ((valor : Valor) → Sale Q (sigue valor))
    → Sale Q (llamada >>= sigue)
Sale-bind_any Q faults sigue f = tt
Sale-bind_any Q exits sigue f = tt
Sale-bind_any Q (ok valor) sigue f = f valor

pub Sale-ok {u v} :
    {Valor : Type u} (P : Valor → Type v) (llamada : Outcome Valor) (valor : Valor)
    → Sale P llamada
    → llamada ≡ ok valor
    → P valor
Sale-ok P faults valor h e = cc
Sale-ok P exits valor h e = cc
Sale-ok P (ok a) valor h e = let z : a ≡ valor = cc in subst P z h

pub Sale-eq {u v} :
    {Valor : Type u} (P : Valor → Type v) (llamada : Outcome Valor)
    → ((valor : Valor) → llamada ≡ ok valor → P valor)
    → Sale P llamada
Sale-eq P faults f = tt
Sale-eq P exits f = tt
Sale-eq P (ok a) f = f a refl

pub Sale-mono {u v x} :
    {Valor : Type u} {P : Valor → Type v} {Q : Valor → Type x} (llamada : Outcome Valor)
    → Sale P llamada
    → ((valor : Valor) → P valor → Q valor)
    → Sale Q llamada
Sale-mono faults h f = tt
Sale-mono exits h f = tt
Sale-mono (ok a) h f = f a h

pub Sale-and {u v x} :
    {Valor : Type u} (P : Valor → Type v) (Q : Valor → Type x) (llamada : Outcome Valor)
    → Sale P llamada
    → Sale Q llamada
    → Sale (λ a. P a × Q a) llamada
Sale-and P Q faults h f = tt
Sale-and P Q exits h f = tt
Sale-and P Q (ok a) h f = (h, f)

pub Sale-all {u v x} :
    {Valor : Type u} {W : Type x} (P : W → Valor → Type v) (llamada : Outcome Valor)
    → ((w : W) → Sale (P w) llamada)
    → Sale (λ a. (w : W) → P w a) llamada
Sale-all P faults h = tt
Sale-all P exits h = tt
Sale-all P (ok a) h = h

pub Outcome-cases {u} :
    {Valor : Type u} (llamada : Outcome Valor)
    → ((valor : Valor) × (llamada ≡ ok valor)) ⊎ ((llamada ≡ exits) ⊎ (llamada ≡ faults))
Outcome-cases faults = inr (inr refl)
Outcome-cases exits = inr (inl refl)
Outcome-cases (ok valor) = inl (valor, refl)
