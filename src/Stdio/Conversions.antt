-- ===== src/Stdio/Conversions.antt =====
-- One round of `vprintf` in bootloader/stage2/stdio.c on each conversion.
use mathlib.Core.Path.{subst}
use dalek.Base.{
  ℕ, ◌+◌, ◌-◌, ◌*◌, ◌%◌, ◌^◌, ◌≤◌, ◌<◌, ◌≡◌, ◌⊎◌, inl, inr, refl, ◌∙◌, true, false, Option, some,
  List, [], ◌∷◌, ◌++◌, take, length, arith, take-append, length-append,
}
use dalek.Base.Int.{ℤ, pos}
use dalek.Base.Fault.{◌>>=◌}
use dalek.Strings.Text.{IsText, held, strlen-held}
use dalek.Strings.Buffer.{store-append}
use dalek.Strings.Number.{magnitude}
use dalek.Strings.Number.Spelled.{numeral, padded, printed-numeral, printed-padded}
use dalek.Strings.Number.Print.{printed, itoa_s-printed}
use dalek.Strings.Number.Texts.{length-written, printed-IsText}
use dalek.Stdio.Format.{
  Arg, word, Flags, no_flags, Piece, to_signed, next_word, next_str, is_flag, with_flag, read_flags,
  string_piece, number_piece, int_piece, char_piece, convert, directive, round,
}
use dalek.Stdio.Directives.{
  Directive, decimal, integer, hex, capital_hex, plain_hex, size, string, character, percent,
  spelled, argument, meant, IsDirective,
}

-- The round writes `t`: it leaves the arguments and the format, and the buffer its size.
pub record Writes (o : Option (Piece × List ℕ)) (t : List ℕ) (args : List Arg) (s : List ℕ)
    : Type 0 where
  pub bytes : List ℕ
  pub count : ℕ
  pub buffer : List ℕ
  pub returned : o ≡ some (record { bytes = bytes; count = count; args = args; buffer = buffer }, s)
  pub inside : count ≤ length bytes
  pub written : take count bytes ≡ t
  pub sized : length buffer ≡ 64

-- The label `string`, without a limit.
string_piece-held :
    (f : Flags) (t rest : List ℕ) (args : List Arg) (buffer : List ℕ)
    → f.limit ≡ false
    → IsText t
    → string_piece f (some (held t rest)) args buffer
      ≡ some (record { bytes = held t rest; count = length t; args = args; buffer = buffer })
unfolding string_piece
string_piece-held f t rest args buffer l h = rw (l, strlen-held t rest h)

number_piece-Writes :
    (f : Flags) (v : ℤ) (base pad w : ℕ) (args : List Arg) (buffer s : List ℕ)
    → f.limit ≡ false
    → (w ≡ 0) ⊎ (pad ≡ b'0')
    → w < 64
    → length buffer ≡ 64
    → Writes
        (number_piece f v base pad w args buffer >>= λ p. some (p, s))
        (printed v base pad w)
        args
        s
unfolding number_piece
number_piece-Writes f v base pad w args buffer s l p small sized =
    let (r, e, len) =
      itoa_s-printed v base pad w buffer (omega (arith, length-written v base)) (omega arith) in
    let text = printed v base pad w in
    let piece = string_piece-held f text r args (held text r) l (printed-IsText v base pad w p) in
    record {
      bytes = held text r;
      count = length text;
      buffer = held text r;
      returned = rw (e, piece);
      inside = omega (arith, length-append text (0 ∷ r));
      written = take-append text (0 ∷ r);
      sized = len ∙ sized;
    }

-- The numbers behind a word.
magnitude-pos : (n : ℕ) → magnitude (pos (n % 2 ^ 32)) 10 ≡ n % 2 ^ 32
unfolding magnitude
magnitude-pos n = omega arith

to_signed-hex : (n : ℕ) → magnitude (to_signed 32 n) 16 ≡ n % 2 ^ 32
unfolding magnitude to_signed
to_signed-hex n = ground arith

to_signed-small : (n : ℕ) → n % 2 ^ 32 < 2 ^ 31 → to_signed 32 n ≡ pos (n % 2 ^ 32)
unfolding to_signed
to_signed-small n h = ground arith

decimal-Writes :
    (f : Flags) (n : ℕ) (args : List Arg) (buffer s : List ℕ)
    → f.limit ≡ false
    → n % 2 ^ 32 < 2 ^ 31
    → length buffer ≡ 64
    → Writes
        (number_piece f (to_signed 32 n) 10 0 0 args buffer >>= λ p. some (p, s))
        (numeral 10 (n % 2 ^ 32))
        args
        s
decimal-Writes f n args buffer s l small sized = rw (to_signed-small n small) (
    subst
      (λ t.
        Writes (number_piece f (pos (n % 2 ^ 32)) 10 0 0 args buffer >>= λ p. some (p, s)) t args s)
      (printed-numeral (pos (n % 2 ^ 32)) 10 (n % 2 ^ 32) (inl refl) refl (magnitude-pos n))
      (number_piece-Writes f (pos (n % 2 ^ 32)) 10 0 0 args buffer s l (inl refl) (omega arith)
        sized))

char_piece-first :
    (c x : ℕ) (b : List ℕ) (args : List Arg)
    → char_piece (word c ∷ args) (x ∷ b)
      ≡ some (record { bytes = c % 2 ^ 8 ∷ b; count = 1; args = args; buffer = c % 2 ^ 8 ∷ b })
unfolding char_piece next_word
char_piece-first c x b args = rw (store-append [] x b (c % 2 ^ 8) 0 refl)

-- The flags of a width in zeros.
abbrev zeros : ℕ → Flags
zeros w = record { lcount = 0; pad = b'0'; limit = false; w = w }

width-with_flag :
    (w : ℕ)
    → 0 < w
    → w < 10
    → (is_flag (zeros 0) (b'0' + w) ≡ true) × (with_flag (zeros 0) (b'0' + w) ≡ some (zeros w))
unfolding is_flag with_flag
width-with_flag w p h =
    let same : 0 * 10 + (b'0' + w - b'0') ≡ w = omega arith in (ground arith, ground arith)

read_flags-zeros :
    (w x : ℕ) (s : List ℕ)
    → 0 < w
    → w < 10
    → is_flag (zeros w) x ≡ false
    → read_flags no_flags (b'0' ∷ (b'0' + w) ∷ x ∷ s) ≡ some (zeros w, x ∷ s)
unfolding read_flags
read_flags-zeros w x s p h conversion =
    let (a, b) = width-with_flag w p h in
    let first : with_flag no_flags b'0' ≡ some (zeros 0) = unfold with_flag in refl in
    let flag : is_flag no_flags b'0' ≡ true = unfold is_flag in refl in
    rw (flag, first, a, b, conversion)

hex-Writes :
    (w n : ℕ) (args : List Arg) (buffer s : List ℕ)
    → w < 64
    → length buffer ≡ 64
    → Writes
        (number_piece (zeros w) (to_signed 32 n) 16 b'0' w args buffer >>= λ p. some (p, s))
        (padded 16 w (n % 2 ^ 32))
        args
        s
hex-Writes w n args buffer s small sized =
    subst
      (λ t.
        Writes (number_piece (zeros w) (to_signed 32 n) 16 b'0' w args buffer >>= λ p. some (p, s))
          t args s)
      (printed-padded (to_signed 32 n) 16 w (n % 2 ^ 32) (inr refl) refl (to_signed-hex n))
      (number_piece-Writes (zeros w) (to_signed 32 n) 16 b'0' w args buffer s refl (inr refl) small
        sized)

-- A conversion writes what is meant, in a buffer of 64 bytes.
pub directive-Writes :
    (d : Directive) (s : List ℕ) (args : List Arg) (buffer : List ℕ)
    → IsDirective d
    → length buffer ≡ 64
    → Writes (round b'%' (spelled d ++ s) (argument d ++ args) buffer) (meant d) args s
unfolding spelled argument meant round directive convert read_flags is_flag with_flag int_piece
    next_word next_str
directive-Writes (decimal n) s args buffer h sized =
    decimal-Writes no_flags n args buffer s refl h sized
directive-Writes (integer n) s args buffer h sized =
    decimal-Writes no_flags n args buffer s refl h sized
directive-Writes (hex w n) s args buffer h sized =
    rw (read_flags-zeros w b'x' s h.0 h.1 refl)
      (hex-Writes w n args buffer s (omega (arith, h.1)) sized)
directive-Writes (capital_hex w n) s args buffer h sized =
    rw (read_flags-zeros w b'X' s h.0 h.1 refl)
      (hex-Writes w n args buffer s (omega (arith, h.1)) sized)
directive-Writes (plain_hex n) s args buffer h sized =
    subst
      (λ t.
        Writes (number_piece no_flags (to_signed 32 n) 16 0 0 args buffer >>= λ p. some (p, s)) t
          args s)
      (printed-numeral (to_signed 32 n) 16 (n % 2 ^ 32) (inr refl) refl (to_signed-hex n))
      (number_piece-Writes no_flags (to_signed 32 n) 16 0 0 args buffer s refl (inl refl)
        (omega arith) sized)
directive-Writes (size n) s args buffer h sized =
    subst
      (λ t.
        Writes (number_piece no_flags (pos (n % 2 ^ 32)) 10 0 0 args buffer >>= λ p. some (p, s)) t
          args s)
      (printed-numeral (pos (n % 2 ^ 32)) 10 (n % 2 ^ 32) (inl refl) refl (magnitude-pos n))
      (number_piece-Writes no_flags (pos (n % 2 ^ 32)) 10 0 0 args buffer s refl (inl refl)
        (omega arith) sized)
directive-Writes (string t rest) s args buffer h sized = record {
  bytes = held t rest;
  count = length t;
  buffer = buffer;
  returned = rw (string_piece-held no_flags t rest args buffer refl h);
  inside = omega (arith, length-append t (0 ∷ rest));
  written = take-append t (0 ∷ rest);
  sized = sized;
}
directive-Writes (character c) s args [] h sized = absurd (omega arith)
directive-Writes (character c) s args (x ∷ b) h sized = record {
  bytes = c % 2 ^ 8 ∷ b;
  count = 1;
  buffer = c % 2 ^ 8 ∷ b;
  returned = rw (char_piece-first c x b args);
  inside = omega arith;
  written = refl;
  sized = sized;
}
directive-Writes percent s args buffer h sized = record {
  bytes = b'%' ∷ s;
  count = 1;
  buffer = buffer;
  returned = refl;
  inside = omega arith;
  written = refl;
  sized = sized;
}
