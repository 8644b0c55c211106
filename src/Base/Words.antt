-- ===== src/Base/Words.antt =====
-- The unsigned integers of the firmware: a value is a native number, and wraps where it is stored.
use Prim.Native.Nat.{ℕ, ◌+◌, ◌-◌, ◌%◌}

abbrev pub u8 : ℕ → ℕ
u8 n = n % 256

abbrev pub u16 : ℕ → ℕ
u16 n = n % 65536

abbrev pub u32 : ℕ → ℕ
u32 n = n % 4294967296

-- `millis() - start`, for 32-bit times.
abbrev pub elapsed : ℕ → ℕ → ℕ
elapsed now start = u32 (now + 4294967296 - start)
