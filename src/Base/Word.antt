-- ===== src/Base/Word.antt =====
-- 16-bit words in little-endian order, as `binary.LittleEndian` reads and writes them.
use Prim.Native.Nat.{ℕ, ◌+◌, ◌*◌, ◌/◌, ◌%◌, ◌<◌}
use mathlib.Core.Path.{◌≡◌}
use native.Mathlib.Omega.{arith}

abbrev pub get_uint16 : ℕ → ℕ → ℕ
get_uint16 low high = low + high * 256

abbrev pub low_byte : ℕ → ℕ
low_byte v = v % 256

abbrev pub high_byte : ℕ → ℕ
high_byte v = v / 256 % 256

abbrev pub IsUint16 : ℕ → Type 0
IsUint16 v = v < 65536

pub get_uint16-bytes : (v : ℕ) → IsUint16 v → get_uint16 (low_byte v) (high_byte v) ≡ v
get_uint16-bytes v h = omega arith
