-- ===== src/Core/Float.antt =====
-- Python's `float`. A value is its 64-bit pattern; what the program computes with floats is an
-- interface that each client takes as a parameter, and nothing is assumed of rounding.
use research_assistant.Base.{ℕ, Bool}

pub record Float : Type 0 where
  pub bits : ℕ

pub record FloatOps : Type 0 where
  pub zero_float : Float
  pub one_float : Float
  pub of_nat : ℕ → Float
  pub plus : Float → Float → Float
  pub minus : Float → Float → Float
  pub times : Float → Float → Float
  pub quotient : Float → Float → Float
  pub lt : Float → Float → Bool
  pub log : Float → Float
  pub sqrt : Float → Float
