-- ===== src/Base/Words.antt =====
-- Machine integers as bit patterns. An `int` is a number below 2 ^ 32 that stands for its two's
-- complement value, a `short` one below 2 ^ 16. Sums wrap, and an order between `int`s is signed.
-- `htonl`, `htons` and the stores that follow them write the most significant byte first.
use Prim.Native.Nat.{ℕ, ◌+◌, ◌-◌, ◌*◌, ◌/◌, ◌%◌, ◌^◌, ◌<◌}
use mathlib.Core.Path.{◌≡◌}
use mathlib.Core.Bool.{Bool}
use mathlib.Core.List.{List, [], ◌∷◌}
use native.Mathlib.Omega.{arith}
use thero_logic_server.Base.Tests.{ltb}

abbrev pub int_mod : ℕ
int_mod = 2 ^ 32

abbrev pub int_add : ℕ → ℕ → ℕ
int_add a b = (a + b) % int_mod

abbrev pub int_sub : ℕ → ℕ → ℕ
int_sub a b = (a + int_mod - b % int_mod) % int_mod

abbrev pub int_lt : ℕ → ℕ → Bool
int_lt a b = ltb ((a + 2 ^ 31) % int_mod) ((b + 2 ^ 31) % int_mod)

-- the bit pattern of -1
abbrev pub minus_one : ℕ
minus_one = 2 ^ 32 - 1

-- a `short`, sign-extended to an `int`
abbrev pub short_to_int : ℕ → ℕ
short_to_int n = (n + 2 ^ 32 - 2 * (n / 2 ^ 15) * 2 ^ 15) % int_mod

abbrev pub be16 : ℕ → List ℕ
be16 n = n / 256 % 256 ∷ n % 256 ∷ []

abbrev pub be32 : ℕ → List ℕ
be32 n = n / 256 ^ 3 % 256 ∷ n / 256 ^ 2 % 256 ∷ n / 256 % 256 ∷ n % 256 ∷ []

-- the number that bytes spell, the most significant first
abbrev pub of_be : List ℕ → ℕ → ℕ
of_be [] acc = acc
of_be (b ∷ bs) acc = of_be bs (acc * 256 + b)

pub of_be-be16 : (n : ℕ) → n < 2 ^ 16 → of_be (be16 n) 0 ≡ n
of_be-be16 n h = omega arith

pub of_be-be32 : (n : ℕ) → n < 2 ^ 32 → of_be (be32 n) 0 ≡ n
of_be-be32 n h = omega arith
