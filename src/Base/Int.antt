-- ===== src/Base/Int.antt =====
-- Python's `int` as the program uses it: a sign, a comparison with a bound, and `str`.
pub mod Laws
use Prim.Native.Nat.{ℕ, zero, suc, ◌+◌, ◌/◌, ◌%◌}
use mathlib.Core.Bool.{Bool, true}
use mathlib.Core.List.{List, [], ◌∷◌, ◌++◌}
use live_streaming_data_pipe.Base.Tests.{ltb, if◌then◌else◌}
use live_streaming_data_pipe.Base.Texts.{Text}

-- `negsuc n` is -(n + 1).
pub data ℤ : Type 0 where
  pos : ℕ → ℤ
  negsuc : ℕ → ℤ

-- The digits of a number by fuel, the most significant first; `nat_str` gives fuel enough.
unfoldable pub digits : ℕ → ℕ → Text
digits zero n = []
digits (suc f) n =
    let rest = digits f (n / 10) in
    if ltb n 10 then (b'0' + n) ∷ [] else rest ++ (b'0' + n % 10) ∷ []

-- `str(n)`
unfoldable pub nat_str : ℕ → Text
unfolding digits
nat_str n = digits (suc n) n

unfoldable pub int_str : ℤ → Text
unfolding nat_str
int_str (pos n) = nat_str n
int_str (negsuc n) = b'-' ∷ nat_str (suc n)

-- `n < 1`
abbrev pub below_one : ℤ → Bool
below_one (pos n) = ltb n 1
below_one (negsuc n) = true
