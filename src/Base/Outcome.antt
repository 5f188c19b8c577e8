-- ===== src/Base/Outcome.antt =====
-- The ways in which a C function returns or does not return, shared by all parts.
use mathlib.Core.Option.{Option, none, some}

-- It waits for a lock that nobody will release, exits through log_fatal, touches memory outside an
-- array, follows a null pointer or one to freed memory, or loops for ever.
pub data Fault : Type 0 where
  deadlock log_fatal out_of_bounds null_pointer dangling hang : Fault

pub data Result {ℓ} (A : Type ℓ) : Type ℓ where
  ok : A → Result A
  err : Fault → Result A

infixl 5 ◌>>=◌
abbrev pub ◌>>=◌ {ℓ κ} : {A : Type ℓ} {B : Type κ} → Result A → (A → Result B) → Result B
ok a >>= f = f a
err e >>= f = err e

abbrev pub or_fault {ℓ} : {A : Type ℓ} → Option A → Fault → Result A
or_fault none e = err e
or_fault (some a) e = ok a
