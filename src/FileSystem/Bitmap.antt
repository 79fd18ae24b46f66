-- ===== src/FileSystem/Bitmap.antt =====
-- The bit array of the file system: the first clean bit, and setting and cleaning a bit.
use unix_os_simulation.Base.{
  ℕ, zero, suc, ◌<◌, ◌≡◌, refl, ap, Bool, true, false, List, [], ◌∷◌, Option, none, some, Outcome,
  ok, faults, ◌>>=◌, get_elem?, length, arith, ◌==◌, if◌then◌else◌, Option-cases, inl, inr,
}

-- The loop over the bits up to the first that is 0.
unfoldable pub primer_libre : List Bool → Option ℕ
primer_libre [] = none
primer_libre (false ∷ bs) = some 0
primer_libre (true ∷ bs) = elim (primer_libre bs) [ none ↦ none | some i ↦ some (suc i) ]

-- `bitarray_set_bit`, at an index in range.
unfoldable pub set_bit : ℕ → List Bool → List Bool
set_bit i [] = []
set_bit zero (b ∷ bs) = true ∷ bs
set_bit (suc i) (b ∷ bs) = b ∷ set_bit i bs

-- `bitarray_clean_bit`, which does not look at the range.
unfoldable pub clean_bit : ℕ → List Bool → Outcome (List Bool)
clean_bit i [] = faults
clean_bit zero (b ∷ bs) = ok (false ∷ bs)
clean_bit (suc i) (b ∷ bs) = do bs' ← clean_bit i bs; ok (b ∷ bs')

-- The number of bits that are 1, which `main` counts.
unfoldable pub ocupados : List Bool → ℕ
ocupados [] = 0
ocupados (true ∷ bs) = suc (ocupados bs)
ocupados (false ∷ bs) = ocupados bs

-- The bit that the loop stops at is free and all below it are taken.
pub primer_libre-libre :
    (bs : List Bool) (i : ℕ)
    → primer_libre bs ≡ some i
    → (get_elem? bs i ≡ some false) × ((j : ℕ) → j < i → get_elem? bs j ≡ some true)
unfolding primer_libre
primer_libre-libre [] i h = cc
primer_libre-libre (false ∷ bs) zero h = (refl, λ j lt. absurd (not-lt j lt))
  where
    not-lt : (j : ℕ) → j < 0 → ⊥
    not-lt j lt = omega arith
primer_libre-libre (false ∷ bs) (suc i) h = ground arith
primer_libre-libre (true ∷ bs) zero h = elim (Option-cases (primer_libre bs)) [
  | inl e ↦ ground (arith, e)
  | inr (k, e) ↦ ground (arith, e)
]
primer_libre-libre (true ∷ bs) (suc i) h =
    let e : primer_libre bs ≡ some i = (elim (Option-cases (primer_libre bs)) [
      | inl e ↦ ground (arith, e)
      | inr (k, e) ↦ ground (arith, e)
    ]) in
    let (l, t) = primer_libre-libre bs i e in (l, todos t)
  where
    todos :
        ((j : ℕ) → j < i → get_elem? bs j ≡ some true)
        → (j : ℕ) → j < suc i
        → get_elem? (true ∷ bs) j ≡ some true
    todos t zero lt = refl
    todos t (suc j) lt = t j (omega arith)

-- A free bit that is set is one bit more.
pub ocupados-set_bit :
    (bs : List Bool) (i : ℕ)
    → get_elem? bs i ≡ some false
    → ocupados (set_bit i bs) ≡ suc (ocupados bs)
unfolding ocupados set_bit
ocupados-set_bit [] i h = cc
ocupados-set_bit (false ∷ bs) zero h = refl
ocupados-set_bit (true ∷ bs) zero h = ground arith
ocupados-set_bit (false ∷ bs) (suc i) h = ocupados-set_bit bs i h
ocupados-set_bit (true ∷ bs) (suc i) h = ap suc (ocupados-set_bit bs i h)

-- A taken bit that is cleaned is one bit less.
pub ocupados-clean_bit :
    (bs : List Bool) (i : ℕ)
    → get_elem? bs i ≡ some true
    → (bs' : List Bool) × (clean_bit i bs ≡ ok bs') × (suc (ocupados bs') ≡ ocupados bs)
unfolding ocupados clean_bit
ocupados-clean_bit [] i h = cc
ocupados-clean_bit (true ∷ bs) zero h = (false ∷ bs, refl, refl)
ocupados-clean_bit (false ∷ bs) zero h = ground arith
ocupados-clean_bit (true ∷ bs) (suc i) h =
    let (bs', e, n) = ocupados-clean_bit bs i h in (true ∷ bs', rw (e), ap suc n)
ocupados-clean_bit (false ∷ bs) (suc i) h =
    let (bs', e, n) = ocupados-clean_bit bs i h in (false ∷ bs', rw (e), n)

-- No bit below the length of the array but the one named changes.
pub get_elem?-set_bit :
    (bs : List Bool) (i j : ℕ)
    → get_elem? bs i ≡ some false
    → get_elem? (set_bit i bs) j ≡ (if i == j then some true else get_elem? bs j)
unfolding set_bit
get_elem?-set_bit [] i j h = cc
get_elem?-set_bit (b ∷ bs) zero zero h = refl
get_elem?-set_bit (b ∷ bs) zero (suc j) h = ground arith
get_elem?-set_bit (b ∷ bs) (suc i) zero h = ground arith
get_elem?-set_bit (b ∷ bs) (suc i) (suc j) h =
    let r = get_elem?-set_bit bs i j h in ground (arith, r)

pub length-set_bit : (i : ℕ) (bs : List Bool) → length (set_bit i bs) ≡ length bs
unfolding set_bit
length-set_bit i [] = refl
length-set_bit zero (b ∷ bs) = refl
length-set_bit (suc i) (b ∷ bs) = ap suc (length-set_bit i bs)

-- Only the bit named is cleaned.
pub get_elem?-clean_bit :
    (bs : List Bool) (i : ℕ)
    → get_elem? bs i ≡ some true
    → (bs' : List Bool) × (clean_bit i bs ≡ ok bs')
      × (length bs' ≡ length bs)
      × ((j : ℕ) → get_elem? bs' j ≡ (if i == j then some false else get_elem? bs j))
unfolding clean_bit
get_elem?-clean_bit [] i h = cc
get_elem?-clean_bit (b ∷ bs) zero h = (false ∷ bs, refl, refl, primero)
  where
    primero :
        (j : ℕ) → get_elem? (false ∷ bs) j ≡ (if 0 == j then some false else get_elem? (b ∷ bs) j)
    primero zero = refl
    primero (suc j) = ground arith
get_elem?-clean_bit (b ∷ bs) (suc i) h =
    let (bs', e, l, n) = get_elem?-clean_bit bs i h in (b ∷ bs', rw (e) refl, ap suc l, resto bs' n)
  where
    resto :
        (bs' : List Bool)
        → ((j : ℕ) → get_elem? bs' j ≡ (if i == j then some false else get_elem? bs j))
        → (j : ℕ)
        → get_elem? (b ∷ bs') j ≡ (if suc i == j then some false else get_elem? (b ∷ bs) j)
    resto bs' n zero = ground arith
    resto bs' n (suc j) = ground (arith, n j)

-- A bit is free when not all are set.
pub primer_libre-hay :
    (bs : List Bool) → ocupados bs < length bs → (i : ℕ) × (primer_libre bs ≡ some i)
unfolding ocupados primer_libre
primer_libre-hay [] l = absurd (omega arith)
primer_libre-hay (false ∷ bs) l = (0, refl)
primer_libre-hay (true ∷ bs) l =
    let (i, e) = primer_libre-hay bs (omega arith) in (suc i, rw (e) refl)
