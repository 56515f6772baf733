-- ===== src/Base/Show.antt =====
-- Numbers in decimal, as `format!` prints them.
use Prim.Native.Nat.{ℕ, zero, suc, ◌/◌, ◌%◌}
use Prim.Native.String.{String, ◌++◌}
use mathlib.Core.Bool.{true, false}
use kafka_file_writer.Base.Tests.{ltb}

digit : ℕ → String
digit zero = "0"
digit (suc zero) = "1"
digit (suc (suc zero)) = "2"
digit (suc (suc (suc zero))) = "3"
digit (suc (suc (suc (suc zero)))) = "4"
digit (suc (suc (suc (suc (suc zero))))) = "5"
digit (suc (suc (suc (suc (suc (suc zero)))))) = "6"
digit (suc (suc (suc (suc (suc (suc (suc zero))))))) = "7"
digit (suc (suc (suc (suc (suc (suc (suc (suc zero)))))))) = "8"
digit (suc (suc (suc (suc (suc (suc (suc (suc (suc n))))))))) = "9"

-- A number has fewer digits than its own value, but for 0.
show_within : ℕ → ℕ → String
show_within zero n = ""
show_within (suc fuel) n = elim (ltb n 10) [
  | true ↦ digit n
  | false ↦ show_within fuel (n / 10) ++ digit (n % 10)
]

unfoldable pub show : ℕ → String
unfolding show_within digit
show n = show_within (suc n) n
