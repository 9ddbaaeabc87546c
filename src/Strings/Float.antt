-- ===== src/Strings/Float.antt =====
-- `ftoa_s` of bootloader/stage2/strings.c. What a `double` is stands outside: its product with ten and
-- its whole part, cut towards zero, are arguments.
pub mod Exact
mod Tests
use dalek.Base.{
  ℕ, zero, suc, ◌+◌, ◌-◌, ◌%◌, ◌^◌, true, Option, none, some, List, ltb, if◌then◌else◌,
}
use dalek.Base.Int.{ℤ, pos, negsuc}
use dalek.Base.Fault.{◌>>=◌}
use dalek.Strings.Buffer.{store}
use dalek.Strings.Number.{itoa_last}

-- The character of a digit after the point: the remainder has the sign of the number.
unfoldable pub decimal_char : ℤ → ℕ
decimal_char (pos n) = b'0' + n % 10
decimal_char (negsuc n) = b'0' - suc n % 10

-- A whole number as a `long`, which has 32 bits; a cast of any other is not defined.
unfoldable pub to_long : ℤ → Option ℤ
to_long (pos n) = if ltb n (2 ^ 31) then some (pos n) else none
to_long (negsuc n) = if ltb n (2 ^ 31) then some (negsuc n) else none

module _ {Double : Type 0} (times_ten : Double → Double) (whole : Double → ℤ) where
  -- The loop, from the index `p`.
  unfoldable pub decimal_loop : ℕ → Double → List ℕ → ℕ → Option (List ℕ × ℕ)
  decimal_loop zero value b p = some (b, p)
  decimal_loop (suc decimals) value b p = do
    integer ← to_long (whole (times_ten value))
    b' ← store b p (decimal_char integer)
    decimal_loop decimals (times_ten value) b' (p + 1)

  unfoldable pub ftoa_s : Double → ℕ → List ℕ → ℕ → Option (List ℕ)
  ftoa_s value decimals b bsize = do
    integer ← to_long (whole value)
    (b₁, p) ← itoa_last integer 10 true b
    (b₂, q) ← if ltb p bsize then (store b₁ p b'.' >>= λ b'. some (b', p + 1)) else some (b₁, p)
    (b₃, end) ← decimal_loop decimals value b₂ q
    store b₃ end 0
