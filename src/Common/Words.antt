-- ===== src/Common/Words.antt =====
-- `size_t` and the conversions between machine integers, with their wrap-around written out.
use Prim.Native.Nat.{ℕ, ◌+◌, ◌-◌, ◌%◌, ◌^◌, ◌≤◌, ◌<◌}
use mathlib.Core.Path.{◌≡◌}
use native.Mathlib.Omega.{arith}
use my_chat_respons.Common.Tests.{ltb, if◌then◌else◌}

abbrev pub size_mod : ℕ
size_mod = 2 ^ 64

abbrev pub add_size : ℕ → ℕ → ℕ
add_size a b = (a + b) % size_mod

abbrev pub sub_size : ℕ → ℕ → ℕ
sub_size a b = (a + size_mod - b) % size_mod

-- `static_cast<int>` of a `size_t`, as the bit pattern of the int, and its way back, which
-- extends the sign.
abbrev pub int_of_size : ℕ → ℕ
int_of_size n = n % 2 ^ 32

abbrev pub size_of_int : ℕ → ℕ
size_of_int p = if ltb p (2 ^ 31) then p else p + (2 ^ 64 - 2 ^ 32)

pub sub_size_eq : (a b : ℕ) → b ≤ a → a < size_mod → sub_size a b ≡ a - b
sub_size_eq a b h k = omega arith
