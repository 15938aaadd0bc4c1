-- ===== src/Base/Int/Laws.antt =====
-- On the decimal text of a number.
use mathlib.Core.List.{[], ◌∷◌, ◌++◌}
use mathlib.Core.Path.{◌≡◌, refl, ap, sym, ◌∙◌}
use mathlib.Core.Logic.{◌≢◌, inl, inr}
use Prim.Native.Nat.{ℕ, zero, suc, ◌+◌, ◌-◌, ◌*◌, ◌/◌, ◌%◌, ◌<◌}
use native.Mathlib.Omega.{arith}
use live_streaming_data_pipe.Base.Tests.{ltb, Bool-cases}
use live_streaming_data_pipe.Base.Lists.{All, All-append}
use live_streaming_data_pipe.Base.Texts.{Text}
use live_streaming_data_pipe.Base.Int.{digits, nat_str}

-- The number that a text of digits stands for, after `acc`.
value : ℕ → Text → ℕ
value acc [] = acc
value acc (c ∷ s) = value (acc * 10 + (c - b'0')) s

value-append : (acc : ℕ) (s t : Text) → value acc (s ++ t) ≡ value (value acc s) t
unfolding value
value-append acc [] t = refl
value-append acc (c ∷ s) t = value-append (acc * 10 + (c - b'0')) s t

value-digits : (f n : ℕ) → n < f → value 0 (digits f n) ≡ n
unfolding value digits
value-digits zero n h = absurd (omega arith)
value-digits (suc f) n h = elim (Bool-cases (ltb n 10)) [
  | inl small ↦ rw small (omega arith)
  | inr large ↦ rw large (
      value-append 0 (digits f (n / 10)) ((b'0' + n % 10) ∷ [])
      ∙ rw (value-digits f (n / 10) (ground arith)) (omega arith))
]

pub nat_str-injective : (m n : ℕ) → nat_str m ≡ nat_str n → m ≡ n
unfolding nat_str
nat_str-injective m n e =
    sym (value-digits (suc m) m (omega arith))
    ∙ ap (value 0) e
    ∙ value-digits (suc n) n (omega arith)

digits-no_underscore : (f n : ℕ) → All (λ c. c ≢ b'_') (digits f n)
unfolding digits
digits-no_underscore zero n = tt
digits-no_underscore (suc f) n = elim (Bool-cases (ltb n 10)) [
  | inl small ↦ rw small (ground arith)
  | inr large ↦ rw large (
      All-append (λ c. c ≢ b'_') (digits f (n / 10)) ((b'0' + n % 10) ∷ [])
        (digits-no_underscore f (n / 10)) (omega arith, tt))
]

pub nat_str-no_underscore : (n : ℕ) → All (λ c. c ≢ b'_') (nat_str n)
unfolding nat_str
nat_str-no_underscore n = digits-no_underscore (suc n) n
