-- ===== src/Result/Plain.antt =====
-- Sequences of calls that may fail and change nothing, for `do` blocks.
use coriolis_snapshot_agent.Result.{Result, and_then}

infixl 5 ◌>>=◌ ◌>>◌
abbrev pub ◌>>=◌ : {A B : Type 0} → Result A → (A → Result B) → Result B
◌>>=◌ = and_then

abbrev pub ◌>>◌ : {B : Type 0} → Result (Unit {0}) → Result B → Result B
m >> k = and_then m (λ _. k)
