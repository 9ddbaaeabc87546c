-- ===== src/Strings/Text.antt =====
-- `isdigit` and `strlen` of bootloader/stage2/strings.c, and what it is for an object to hold a
-- string.
use Prim.Native.Char.{code}
use Prim.Native.String.{String}
use dalek.Base.{
  ℕ, suc, ◌+◌, ◌-◌, ◌%◌, ◌⊎◌, ◌↔◌, ◌<◌, ◌≡◌, refl, Bool, true, false, ◌&&◌, ◌||◌, Option, none,
  some, List, [], ◌∷◌, ◌++◌, arith, ltb, leb, ◌==◌, if◌then◌else◌, length,
}
use dalek.Base.Fault.{◌>>=◌}

-- The characters of a string: bytes other than the terminator.
abbrev pub IsText : List ℕ → Type 0
IsText [] = Unit {0}
IsText (c ∷ t) = (0 < c) × (c < 256) × IsText t

-- The object that holds a text, its terminator and whatever stands behind it.
abbrev pub held : List ℕ → List ℕ → List ℕ
held t rest = t ++ (0 ∷ rest)

-- The characters of a literal, and the object that it is.
abbrev pub chars : String → List ℕ
chars String.[] = []
chars (String.◌∷◌ c s) = code c ∷ chars s

abbrev pub c_string : String → List ℕ
c_string s = held (chars s) []

-- `char` is signed: the bytes from 128 on are the negative numbers.
abbrev pub signed_lt : ℕ → ℕ → Bool
signed_lt a b = ltb ((a + 128) % 256) ((b + 128) % 256)

-- `isdigit`. A negative `char` is no digit, as a byte above 127 is none.
unfoldable pub isdigit : ℕ → ℕ → Bool
isdigit c base =
    if base == 2
    then c == b'1' || c == b'0'
    else if base == 8
    then leb b'0' c && leb c b'7'
    else if base == 10
    then leb b'0' c && leb c b'9'
    else if base == 16
    then (leb b'0' c && leb c b'9') || ((leb b'a' c && leb c b'f') || (leb b'A' c && leb c b'F'))
    else false

-- The loop of `strlen`.
strlen_loop : List ℕ → Option ℕ
strlen_loop [] = none
strlen_loop (c ∷ s) =
    let rest = strlen_loop s in if c == 0 then some 0 else (rest >>= λ n. some (suc n))

-- `strlen`; the outer `none` is the null pointer.
unfoldable pub strlen : Option (List ℕ) → Option ℕ
unfolding strlen_loop
strlen none = some 0
strlen (some s) = strlen_loop s

strlen_loop-held : (t rest : List ℕ) → IsText t → strlen_loop (held t rest) ≡ some (length t)
unfolding strlen_loop
strlen_loop-held [] rest h = refl
strlen_loop-held (c ∷ t) rest h = ground (arith, strlen_loop-held t rest h.2)

-- `strlen` counts the characters before the terminator, and reads no further.
pub strlen-held : (t rest : List ℕ) → IsText t → strlen (some (held t rest)) ≡ some (length t)
unfolding strlen
strlen-held t rest h = strlen_loop-held t rest h

-- The value of a digit in a base, and of a character that is none.
unfoldable pub digit_value : ℕ → Option ℕ
digit_value c =
    if leb b'0' c && leb c b'9'
    then some (c - b'0')
    else if leb b'a' c && leb c b'f'
    then some (c - b'a' + 10)
    else if leb b'A' c && leb c b'F'
    then some (c - b'A' + 10)
    else none

-- What is a digit of the base: its value is below the base.
abbrev pub Below : Option ℕ → ℕ → Type 0
Below none base = ⊥
Below (some d) base = d < base

-- In the four bases of the program `isdigit` accepts the digits whose value is below the base.
pub isdigit_iff :
    (c base : ℕ)
    → (base ≡ 2) ⊎ (base ≡ 8) ⊎ (base ≡ 10) ⊎ (base ≡ 16)
    → (isdigit c base ≡ true) ↔ Below (digit_value c) base
unfolding isdigit digit_value
isdigit_iff c base h = ground arith
