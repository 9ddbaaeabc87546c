-- ===== src/Strings/Number.antt =====
-- `itoa_last` and `itoa_s` of bootloader/stage2/strings.c. `bsize` is never read by the code, so
-- the buffer's own size is what a write can exceed.
pub mod Numeral
pub mod Digits
pub mod Print
pub mod Texts
pub mod Spelled
use dalek.Base.{
  ℕ, zero, suc, ◌+◌, ◌-◌, ◌*◌, ◌/◌, ◌%◌, ◌^◌, ◌≤◌, ◌<◌, ◌≡◌, Bool, true, false, ◌&&◌, Option, none,
  some, List, [], ◌∷◌, ltb, ◌==◌, if◌then◌else◌,
}
use dalek.Base.Int.{ℤ, pos, negsuc}
use dalek.Base.Fault.{◌>>=◌}
use dalek.Strings.Buffer.{store}
use dalek.Strings.Reverse.{str_reverse}

-- The character of a digit: lower case above 9.
unfoldable pub digit_char : ℕ → ℕ
digit_char r = if ltb r 10 then r + b'0' else r + b'a' - 10

-- The sign in front and the `unsigned long` that is printed, which has 32 bits.
abbrev pub is_negative : ℤ → Bool
is_negative (pos n) = false
is_negative (negsuc n) = true

abbrev pub signed_decimal : ℤ → ℕ → Bool
signed_decimal v base = base == 10 && is_negative v

unfoldable pub magnitude : ℤ → ℕ → ℕ
magnitude (pos n) base = n % 2 ^ 32
magnitude (negsuc n) base =
    if base == 10 then suc n % 2 ^ 32 else (2 ^ 32 - suc n % 2 ^ 32) % 2 ^ 32

-- The divisor is 10 unless the base is 16.
abbrev pub divisor_of : ℕ → ℕ
divisor_of base = if base == 16 then 16 else 10

-- The digits, least significant first, from the index `p`.
unfoldable pub itoa_digits : ℕ → List ℕ → ℕ → ℕ → ℕ → Option (List ℕ × ℕ)
itoa_digits zero b p ud d = none
itoa_digits (suc fuel) b p ud d = store b p (digit_char (ud % d)) >>= λ b'.
    let rest = itoa_digits fuel b' (p + 1) (ud / d) d in
    if ud / d == 0 then some (b', p + 1) else rest

-- A loop of 32 rounds is enough for 32 bits. The result is the buffer and the index of the
-- terminator.
unfoldable pub itoa_last : ℤ → ℕ → Bool → List ℕ → Option (List ℕ × ℕ)
itoa_last value base rev b = do
  let s = if signed_decimal value base then 1 else 0
  b₁ ← if signed_decimal value base then store b 0 b'-' else some b
  (b₂, p) ← itoa_digits 32 b₁ s (magnitude value base) (divisor_of base)
  b₃ ← store b₂ p 0
  b₄ ← if rev then str_reverse b₃ s p else some b₃
  some (b₄, p)

-- The padding loop, `n` rounds from the index `p`.
unfoldable pub pad_loop : ℕ → List ℕ → ℕ → ℕ → Option (List ℕ × ℕ)
pad_loop zero b p v = some (b, p)
pad_loop (suc n) b p v = store b p v >>= λ b'. pad_loop n b' (p + 1) v

-- `itoa_s`: the digits, then the padding up to `w` characters, all of it turned round.
unfoldable pub itoa_s : ℤ → ℕ → ℕ → ℕ → List ℕ → Option (List ℕ)
itoa_s value base pad w b = do
  (b₁, len) ← itoa_last value base false b
  (b₂, p) ← pad_loop (w - len) b₁ len pad
  b₃ ← store b₂ p 0
  str_reverse b₃ 0 p
