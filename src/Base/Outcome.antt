-- ===== src/Base/Outcome.antt =====
-- What running guest code can come to.
use mathlib.Core.Path.{◌≡◌, refl}
use Prim.Native.Nat.{ℕ}

-- `fault` is an access out of the arena or of a table, which C++ leaves undefined or an `assert`
-- stops; `exited` is a call of `exit` with its status.
pub data Outcome {ℓ} (A : Type ℓ) : Type ℓ where
  ok : A → Outcome A
  exited : ℕ → Outcome A
  fault : Outcome A

infixl 5 ◌>>=◌
abbrev pub ◌>>=◌ {ℓ κ} : {S : Type ℓ} {T : Type κ} → Outcome S → (S → Outcome T) → Outcome T
fault >>= next = fault
exited status >>= next = exited status
ok state >>= next = next state

pub bind_assoc {ℓ κ μ} :
    {A : Type ℓ} {B : Type κ} {C : Type μ} (m : Outcome A) (f : A → Outcome B) (g : B → Outcome C)
    → (m >>= f >>= g) ≡ (m >>= λ a. f a >>= g)
bind_assoc (ok a) f g = refl
bind_assoc (exited n) f g = refl
bind_assoc fault f g = refl

pub bind_congr {ℓ κ} :
    {A : Type ℓ} {B : Type κ} (m : Outcome A) {f g : A → Outcome B}
    → ((a : A) → f a ≡ g a)
    → (m >>= f) ≡ (m >>= g)
bind_congr m p = λ i. m >>= λ a. p a i

-- The state that is left, if one is.
abbrev pub Leaves {ℓ κ} : {A : Type ℓ} → (A → Type κ) → Outcome A → Type κ
Leaves P (ok a) = P a
Leaves P (exited n) = Unit
Leaves P fault = Unit

pub Leaves-bind {ℓ κ μ ν} :
    {A : Type ℓ} {B : Type μ} (P : A → Type κ) (Q : B → Type ν) (m : Outcome A) (f : A → Outcome B)
    → Leaves P m
    → ((a : A) → P a → Leaves Q (f a))
    → Leaves Q (m >>= f)
Leaves-bind P Q (ok a) f h k = k a h
Leaves-bind P Q (exited n) f h k = tt
Leaves-bind P Q fault f h k = tt

-- two facts about what is left
pub Leaves-map2 {ℓ κ μ ν} :
    {A : Type ℓ} (P : A → Type κ) (Q : A → Type μ) (R : A → Type ν) (m : Outcome A)
    → Leaves P m
    → Leaves Q m
    → ((a : A) → P a → Q a → R a)
    → Leaves R m
Leaves-map2 P Q R (ok a) p q f = f a p q
Leaves-map2 P Q R (exited n) p q f = tt
Leaves-map2 P Q R fault p q f = tt

pub bind_congr_on {ℓ κ} :
    {A : Type ℓ} {B : Type κ} (m : Outcome A) (f g : A → Outcome B)
    → Leaves (λ a. f a ≡ g a) m
    → (m >>= f) ≡ (m >>= g)
bind_congr_on (ok a) f g h = h
bind_congr_on (exited n) f g h = refl
bind_congr_on fault f g h = refl

pub Leaves-of_all {ℓ κ} :
    {A : Type ℓ} (P : A → Type κ) (m : Outcome A) → ((a : A) → P a) → Leaves P m
Leaves-of_all P (ok a) h = h a
Leaves-of_all P (exited n) h = tt
Leaves-of_all P fault h = tt
