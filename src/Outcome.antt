-- ===== src/Outcome.antt =====
-- src/lib.rs: `Error`, and the ways in which a call ends.
use lsm_rs.Prelude.{◌≡◌, refl, Bool, true, false, String}

-- `std::io::ErrorKind`, as far as the code tells kinds apart.
pub data IoError : Type 0 where
  not_found other : IoError

-- The `message` of an `Io` error is the text of the inner error; its kind stands for it.
pub data Error : Type 0 where
  io : String → IoError → Error
  invalid_params : String → Error
  serialization : String → Error

-- `panicked` is a failed `assert!`, `expect`, `unwrap` or index. `diverged` is a loop that used up its
-- fuel.
pub data Outcome {ℓ} (A : Type ℓ) : Type ℓ where
  ok : A → Outcome A
  err : Error → Outcome A
  panicked : Outcome A
  diverged : Outcome A

infixl 5 ◌>>=◌ ◌>>◌
abbrev pub ◌>>=◌ {ℓ κ} : {A : Type ℓ} {B : Type κ} → Outcome A → (A → Outcome B) → Outcome B
ok a >>= f = f a
err e >>= f = err e
panicked >>= f = panicked
diverged >>= f = diverged

abbrev pub ◌>>◌ {ℓ} : {B : Type ℓ} → Outcome (Unit {0}) → Outcome B → Outcome B
m >> k = m >>= λ _. k

-- `assert!`
abbrev pub assert : Bool → Outcome (Unit {0})
assert true = ok tt
assert false = panicked

-- `Error::from_io_error`
abbrev pub from_io_error : String → IoError → Error
from_io_error context inner = io context inner

-- The call returns normally, with a result that satisfies `P`.
abbrev pub Returns {ℓ} : {A : Type ℓ} → Outcome A → (A → Type 0) → Type 0
Returns (ok a) P = P a
Returns (err e) P = ⊥
Returns panicked P = ⊥
Returns diverged P = ⊥

pub Returns-bind {ℓ κ} :
    {A : Type ℓ} {B : Type κ} (m : Outcome A) (f : A → Outcome B) (P : A → Type 0) (Q : B → Type 0)
    → Returns m P
    → ((a : A) → P a → Returns (f a) Q)
    → Returns (m >>= f) Q
Returns-bind (ok a) f P Q h k = k a h
Returns-bind (err e) f P Q h k = h
Returns-bind panicked f P Q h k = h
Returns-bind diverged f P Q h k = h

pub Returns-imp {ℓ} :
    {A : Type ℓ} (m : Outcome A) (P Q : A → Type 0)
    → Returns m P
    → ((a : A) → P a → Q a)
    → Returns m Q
Returns-imp (ok a) P Q h k = k a h
Returns-imp (err e) P Q h k = h
Returns-imp panicked P Q h k = h
Returns-imp diverged P Q h k = h

-- A call that returns, with the equation.
pub Returns-self {ℓ} :
    {A : Type ℓ} (m : Outcome A) (P : A → Type 0) → Returns m P → (a : A) × (m ≡ ok a) × P a
Returns-self (ok a) P h = (a, refl, h)
Returns-self (err e) P h = absurd h
Returns-self panicked P h = absurd h
Returns-self diverged P h = absurd h

-- What holds of the result, if the call has one.
abbrev pub IfOk {ℓ} : {A : Type ℓ} → Outcome A → (A → Type 0) → Type 0
IfOk (ok a) P = P a
IfOk (err e) P = Unit
IfOk panicked P = Unit
IfOk diverged P = Unit

pub IfOk-bind {ℓ κ} :
    {A : Type ℓ} {B : Type κ} (m : Outcome A) (f : A → Outcome B) (P : A → Type 0) (Q : B → Type 0)
    → IfOk m P
    → ((a : A) → P a → IfOk (f a) Q)
    → IfOk (m >>= f) Q
IfOk-bind (ok a) f P Q h k = k a h
IfOk-bind (err e) f P Q h k = tt
IfOk-bind panicked f P Q h k = tt
IfOk-bind diverged f P Q h k = tt

pub IfOk-any {ℓ} : {A : Type ℓ} (m : Outcome A) → IfOk m (λ _. Unit)
IfOk-any (ok a) = tt
IfOk-any (err e) = tt
IfOk-any panicked = tt
IfOk-any diverged = tt

pub IfOk-imp {ℓ} :
    {A : Type ℓ} (m : Outcome A) (P Q : A → Type 0) → IfOk m P → ((a : A) → P a → Q a) → IfOk m Q
IfOk-imp (ok a) P Q h k = k a h
IfOk-imp (err e) P Q h k = tt
IfOk-imp panicked P Q h k = tt
IfOk-imp diverged P Q h k = tt
