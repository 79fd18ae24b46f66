-- ===== src/Commons.antt =====
-- What the modules call of the so-commons library, which is not part of the repository. A `t_list`
-- is a list and a `t_dictionary` an association list; the calls whose result the documentation
-- leaves open (which of several smallest elements is returned) are fields, with the documented law.
use unix_os_simulation.Base.{ℕ, ◌≤◌, ◌≡◌, ◌≢◌, List, [], Option, some, In, leb, if◌then◌else◌}

-- `m a b` is the argument with the smaller key.
abbrev pub PicksLess : {A : Type 0} → (A → ℕ) → (A → A → A) → Type 0
PicksLess {A} key m = (a b : A) → m a b ≡ (if leb (key a) (key b) then a else b)

abbrev pub PicksMore : {A : Type 0} → (A → ℕ) → (A → A → A) → Type 0
PicksMore {A} key m = (a b : A) → m a b ≡ (if leb (key b) (key a) then a else b)

pub record Commons : Type 1 where
  pub list_get_minimum : (A : Type 0) → (A → A → A) → List A → Option A
  pub list_get_maximum : (A : Type 0) → (A → A → A) → List A → Option A
  pub minimum_least :
      (A : Type 0) (key : A → ℕ) (m : A → A → A) (xs : List A)
      → PicksLess key m
      → xs ≢ []
      → (r : A) × (list_get_minimum A m xs ≡ some r) × In r xs × ((x : A) → In x xs → key r ≤ key x)
  pub maximum_greatest :
      (A : Type 0) (key : A → ℕ) (m : A → A → A) (xs : List A)
      → PicksMore key m
      → xs ≢ []
      → (r : A) × (list_get_maximum A m xs ≡ some r) × In r xs × ((x : A) → In x xs → key x ≤ key r)
