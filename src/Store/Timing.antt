-- ===== src/Store/Timing.antt =====
-- The timestamps that PostgreSQL gives to the statements of one transaction.
use uber_clone.Common.{ℕ, suc, ◌≤◌}

pub record Clock : Type 0 where
  pub started : ℕ  -- NOW(), the start of the transaction
  pub at : ℕ → ℕ  -- statement_timestamp() of the transaction's k-th statement

-- Time does not run backwards within a transaction.
abbrev pub IsMonotone : Clock → Type 0
IsMonotone c = (k : ℕ) → c.at k ≤ c.at (suc k)

-- A transaction that runs within one instant.
abbrev pub frozen : ℕ → Clock
frozen t = record { started = t; at = λ k. t }
