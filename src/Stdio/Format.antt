-- ===== src/Stdio/Format.antt =====
-- `vprintf`, `printf` and `log` of bootloader/stage2/stdio.c.
use dalek.Base.{
  ℕ, suc, ◌+◌, ◌-◌, ◌*◌, ◌%◌, ◌^◌, Bool, true, false, ◌&&◌, ◌||◌, Option, none, some, List, [], ◌∷◌,
  ltb, leb, ◌==◌, if◌then◌else◌, drop,
}
use dalek.Base.Int.{ℤ, pos, negsuc}
use dalek.Base.Fault.{◌>>=◌}
use dalek.Strings.Text.{strlen}
use dalek.Strings.Buffer.{store}
use dalek.Strings.Number.{itoa_s}

-- An argument behind the format, as the 32 bit machine passes it. A string is the bytes from the
-- pointer on, or null. A `double` is what `ftoa_s` makes of the buffer for it, with two decimals.
pub data Arg : Type 0 where
  word : ℕ → Arg
  quad : ℕ → Arg
  str : Option (List ℕ) → Arg
  double : (List ℕ → Option (List ℕ)) → Arg

-- The number that the low `w` bits of a word stand for, with a sign.
unfoldable pub to_signed : ℕ → ℕ → ℤ
to_signed w n =
    if ltb (n % 2 ^ w) (2 ^ (w - 1)) then pos (n % 2 ^ w) else negsuc (2 ^ w - 1 - n % 2 ^ w)

-- `va_arg`; `none` is an argument of another type, or none left.
unfoldable pub next_word : List Arg → Option (ℕ × List Arg)
next_word [] = none
next_word (word n ∷ args) = some (n, args)
next_word (quad n ∷ args) = none
next_word (str s ∷ args) = none
next_word (double f ∷ args) = none

unfoldable pub next_quad : List Arg → Option (ℕ × List Arg)
next_quad [] = none
next_quad (word n ∷ args) = none
next_quad (quad n ∷ args) = some (n, args)
next_quad (str s ∷ args) = none
next_quad (double f ∷ args) = none

unfoldable pub next_str : List Arg → Option (Option (List ℕ) × List Arg)
next_str [] = none
next_str (word n ∷ args) = none
next_str (quad n ∷ args) = none
next_str (str s ∷ args) = some (s, args)
next_str (double f ∷ args) = none

unfoldable pub next_double : List Arg → Option ((List ℕ → Option (List ℕ)) × List Arg)
next_double [] = none
next_double (word n ∷ args) = none
next_double (quad n ∷ args) = none
next_double (str s ∷ args) = none
next_double (double f ∷ args) = some (f, args)

-- What stands between `%` and the conversion.
pub record Flags : Type 0 where
  pub lcount : ℕ
  pub pad : ℕ
  pub limit : Bool
  pub w : ℕ

abbrev pub no_flags : Flags
no_flags = record { lcount = 0; pad = 0; limit = false; w = 0 }

-- A digit of the width, an `int`.
abbrev pub digit_flag : Flags → ℕ → Option Flags
digit_flag f c =
    let w' = f.w * 10 + (c - b'0') in if ltb w' (2 ^ 31) then some (record f { w = w' }) else none

-- The flags with the character, if it is one.
unfoldable pub is_flag : Flags → ℕ → Bool
is_flag f c = c == b'.' || (leb b'0' c && leb c b'9') || c == b'l'

unfoldable pub with_flag : Flags → ℕ → Option Flags
with_flag f c =
    if c == b'.'
    then some (record f { limit = true })
    else if c == b'l'
    then some (record f { lcount = f.lcount + 1 })
    else if c == b'0' && f.pad == 0
    then some (record f { pad = b'0' })
    else digit_flag f c

-- The jumps to `format`: the flags, and the format from the conversion on.
unfoldable pub read_flags : Flags → List ℕ → Option (Flags × List ℕ)
read_flags f [] = none
read_flags f (c ∷ s) =
    if is_flag f c then (with_flag f c >>= λ f'. read_flags f' s) else some (f, c ∷ s)

-- What a conversion writes: the bytes from the pointer on and how many of them; and what it leaves, the
-- arguments and the buffer.
pub record Piece : Type 0 where
  pub bytes : List ℕ
  pub count : ℕ
  pub args : List Arg
  pub buffer : List ℕ

-- The label `string`. A null pointer has no bytes, and its length is 0.
abbrev pub pointed : Option (List ℕ) → List ℕ
pointed none = []
pointed (some p) = p

unfoldable pub string_piece : Flags → Option (List ℕ) → List Arg → List ℕ → Option Piece
string_piece f p args buffer = do
  n ← if f.limit then some f.w else strlen p
  some (record { bytes = pointed p; count = n; args = args; buffer = buffer })

-- A number is printed into the buffer.
unfoldable pub number_piece : Flags → ℤ → ℕ → ℕ → ℕ → List Arg → List ℕ → Option Piece
number_piece f value base pad w args buffer =
    itoa_s value base pad w buffer >>= λ b. string_piece f (some b) args b

unfoldable pub int_piece : Flags → ℕ → List Arg → List ℕ → Option Piece
int_piece f base args buffer = do
  (value, args') ←
      if ltb f.lcount 2
      then (next_word args >>= λ (n, r). some (to_signed 32 n, r))
      else (next_quad args >>= λ (n, r). some (to_signed 64 n, r))
  number_piece f value base f.pad f.w args' buffer

unfoldable pub char_piece : List Arg → List ℕ → Option Piece
char_piece args buffer = do
  (n, args') ← next_word args
  b ← store buffer 0 (n % 2 ^ 8)
  some (record { bytes = b; count = 1; args = args'; buffer = b })

-- The `switch` on the conversion. Any other character is written as it is, also the terminator.
unfoldable pub convert : Flags → ℕ → List ℕ → List Arg → List ℕ → Option Piece
convert f c s args buffer =
    if c == b'c'
    then char_piece args buffer
    else if c == b'd' || c == b'i'
    then int_piece f 10 args buffer
    else if c == b'x' || c == b'X'
    then int_piece f 16 args buffer
    else if c == b'z'
    then (next_word args >>= λ (n, r). number_piece f (pos (n % 2 ^ 32)) 10 f.pad f.w r buffer)
    else if c == b'p'
    then (next_word args >>= λ (n, r). number_piece f (to_signed 32 n) 16 b'0' 8 r buffer)
    else if c == b'f'
    then (next_double args >>= λ (g, r). g buffer >>= λ b. string_piece f (some b) r b)
    else if c == b's'
    then (next_str args >>= λ (p, r). string_piece f p r buffer)
    else some (record { bytes = c ∷ s; count = 1; args = args; buffer = buffer })

-- The characters up to the next `%` or the end.
unfoldable pub literal_length : List ℕ → Option ℕ
literal_length [] = none
literal_length (c ∷ s) =
    let rest = literal_length s in
    if c == b'%' || c == 0 then some 0 else (rest >>= λ n. some (suc n))

abbrev pub literal_piece : List ℕ → List Arg → List ℕ → ℕ → Piece
literal_piece s args buffer n = record { bytes = s; count = n; args = args; buffer = buffer }

-- A conversion, and the format behind it.
unfoldable pub directive : List Arg → List ℕ → Flags × List ℕ → Option (Piece × List ℕ)
directive args buffer (f, []) = none
directive args buffer (f, c ∷ s) = convert f c s args buffer >>= λ p. some (p, s)

-- One round of the loop on the format `c ∷ s`: what is written, and the format behind it.
unfoldable pub round : ℕ → List ℕ → List Arg → List ℕ → Option (Piece × List ℕ)
round c s args buffer =
    if c == b'%'
    then (read_flags no_flags s >>= directive args buffer)
    else (literal_length s >>= λ n. some (literal_piece (c ∷ s) args buffer (suc n), drop n s))
