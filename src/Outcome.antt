-- ===== src/Outcome.antt =====
-- How a call of the C code ends.
use koreader_base.Prelude.{ℕ}
use koreader_base.Memory.{Bytes}

-- It returns, with these bytes behind the destination; or it calls `exit`; or it divides by zero;
-- or it reads a variable that was never set.
pub data Outcome : Type 0 where
  done : Bytes → Outcome
  exited : ℕ → Outcome
  divided_by_zero : Outcome
  unset_read : Outcome

-- The call returns, with bytes that have the property.
abbrev pub Returns : (Bytes → Type 0) → Outcome → Type 0
Returns P (done m) = P m
Returns P (exited n) = ⊥
Returns P divided_by_zero = ⊥
Returns P unset_read = ⊥
