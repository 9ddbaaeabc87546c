-- ===== src/Strings/Number/Texts.antt =====
-- What `itoa_s` of bootloader/stage2/strings.c prints is a text, and a short one.
use mathlib.Core.List.{reverse, reverse-cons}
use dalek.Base.{
  ℕ, zero, suc, ◌-◌, ◌≤◌, ◌<◌, ◌≡◌, ◌⊎◌, Bool-cases, inl, inr, List, [], ◌∷◌, ◌++◌, map, length,
  replicate, arith,
}
use mathlib.Core.Path.{subst, sym}
use dalek.Base.Int.{ℤ}
use dalek.Strings.Text.{IsText}
use dalek.Strings.Number.{digit_char, signed_decimal, divisor_of, magnitude}
use dalek.Strings.Number.Numeral.{digits_of, IsBase, IsDigits, digits_of-IsDigits, length-digits_of}
use dalek.Strings.Number.Digits.{chars_of, length-chars_of, divisor_of-IsBase, written}
use dalek.Strings.Number.Print.{printed}

pub append-IsText : (t u : List ℕ) → IsText t → IsText u → IsText (t ++ u)
append-IsText [] u h g = g
append-IsText (c ∷ t) u h g = (h.0, h.1, append-IsText t u h.2 g)

reverse-IsText : (t : List ℕ) → IsText t → IsText (reverse t)
reverse-IsText [] h = tt
reverse-IsText (c ∷ t) h =
    subst IsText (sym (reverse-cons c t))
      (append-IsText (reverse t) (c ∷ []) (reverse-IsText t h.2) (h.0, h.1, tt))

replicate-IsText : (n c : ℕ) → 0 < c → c < 256 → IsText (replicate n c)
replicate-IsText zero c h g = tt
replicate-IsText (suc n) c h g = (h, g, replicate-IsText n c h g)

digits-IsText : (d : ℕ) (ds : List ℕ) → IsBase d → IsDigits d ds → IsText (map digit_char ds)
unfolding digit_char
digits-IsText d [] b h = tt
digits-IsText d (x ∷ ds) b h = (ground arith, ground arith, digits-IsText d ds b h.1)

chars_of-IsText : (d n : ℕ) → IsBase d → IsText (chars_of d n)
chars_of-IsText d n b = digits-IsText d (digits_of 32 d n) b (digits_of-IsDigits 32 d n b)

written-IsText : (v : ℤ) (base : ℕ) → IsText (written v base)
written-IsText v base = elim (Bool-cases (signed_decimal v base)) [
  | inl minus ↦ rw minus (
    omega arith,
    omega arith,
    chars_of-IsText (divisor_of base) (magnitude v base) (divisor_of-IsBase base),
  )
  | inr plain ↦
      rw plain (chars_of-IsText (divisor_of base) (magnitude v base) (divisor_of-IsBase base))
]

-- A number has at most 33 characters.
pub length-written : (v : ℤ) (base : ℕ) → length (written v base) ≤ 33
length-written v base =
    let count = length-chars_of (divisor_of base) (magnitude v base) in
    let most = length-digits_of 32 (divisor_of base) (magnitude v base) in
    ground (arith, count, most)

-- Without a width, or with zeros up to the width, the code prints a text.
pub printed-IsText :
    (v : ℤ) (base pad w : ℕ) → (w ≡ 0) ⊎ (pad ≡ b'0') → IsText (printed v base pad w)
printed-IsText v base pad w (inl unpadded) =
    let no_pad : w - length (written v base) ≡ 0 = omega arith in
    rw no_pad (reverse-IsText (written v base) (written-IsText v base))
printed-IsText v base pad w (inr zeros) =
    append-IsText (replicate (w - length (written v base)) pad) (reverse (written v base))
      (replicate-IsText (w - length (written v base)) pad (omega arith) (omega arith))
      (reverse-IsText (written v base) (written-IsText v base))
