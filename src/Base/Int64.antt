-- ===== src/Base/Int64.antt =====
-- Go's int64, as its bit pattern: a number below 2^64, of which those from 2^63 on are negative.
use Prim.Native.Nat.{ℕ, ◌+◌, ◌%◌, ◌^◌}
use mathlib.Core.Bool.{Bool}
use package.jian_yu_server_lib.Base.Tests.{leb}

-- The sum wraps around.
abbrev pub add64 : ℕ → ℕ → ℕ
add64 a b = (a + b) % 2 ^ 64

-- `a >= b` as signed numbers: moving the origin by 2^63 turns the signed order into that of ℕ.
abbrev pub ge64 : ℕ → ℕ → Bool
ge64 a b = leb ((b + 2 ^ 63) % 2 ^ 64) ((a + 2 ^ 63) % 2 ^ 64)
