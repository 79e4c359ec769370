-- ===== src/Prelude/Flags.antt =====
-- Sets of flags as numbers, and `flags & mask` read as a truth value.
use Prim.Native.Nat.{ℕ, bit_and}
use mathlib.Core.Bool.{Bool, not}
use mcs_qs.Prelude.Tests.{◌==◌}

unfoldable pub has : ℕ → ℕ → Bool
has flags mask = not (bit_and flags mask == 0)

-- A set of flags as a condition: some flag is set.
unfoldable pub any : ℕ → Bool
any flags = not (flags == 0)
