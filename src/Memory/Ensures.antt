-- ===== src/Memory/Ensures.antt =====
-- Total correctness of a run: it returns, and what it returns meets a condition.
use service_call.Base.{◌≡◌, refl}
use service_call.Memory.{Machine, Run, ok, Cmd, and_then}

pub data Ensures {C A : Type 0} (P : A → Machine C → Type 0) : Run C A → Type 0 where
  ensured : {a : A} {m : Machine C} → P a m → Ensures P (ok a m)

module _ {C A : Type 0} {P : A → Machine C → Type 0} where
  pub chain :
      {B : Type 0} {Q : B → Machine C → Type 0} {r : Run C A} {k : A → Cmd C B}
      → Ensures P r
      → ((a : A) (m : Machine C) → P a m → Ensures Q (k a m))
      → Ensures Q (and_then r k)
  chain (ensured p) next = next _ _ p

  pub weaken :
      {Q : A → Machine C → Type 0} {r : Run C A}
      → Ensures P r
      → ((a : A) (m : Machine C) → P a m → Q a m)
      → Ensures Q r
  weaken (ensured p) f = ensured (f _ _ p)

  -- The run's result, with the equation.
  pub invert : {r : Run C A} → Ensures P r → (a : A) × (m : Machine C) × (r ≡ ok a m) × P a m
  invert (ensured {a} {m} p) = (a, m, refl, p)
