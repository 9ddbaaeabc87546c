-- ===== src/Stdio/Widths.antt =====
-- A width without zeros in `vprintf` of bootloader/stage2/stdio.c.
use mathlib.Core.List.{reverse}
use dalek.Base.{
  ℕ, suc, ◌+◌, ◌-◌, ◌*◌, ◌<◌, ◌≡◌, refl, ap, sym, ◌∙◌, true, false, some, List, [], ◌∷◌, ◌++◌,
  length, replicate, arith,
}
use dalek.Base.Int.{ℤ}
use dalek.Strings.Text.{held, strlen}
use dalek.Strings.Number.Digits.{written}
use dalek.Strings.Number.Print.{printed, itoa_s-printed}
use dalek.Strings.Number.Texts.{length-written}
use dalek.Stdio.Format.{
  Arg, word, Flags, no_flags, to_signed, next_word, is_flag, with_flag, read_flags, string_piece,
  number_piece, int_piece, convert, directive, round,
}
use dalek.Stdio.Print.{vprintf}
use dalek.Stdio.Terminal.{Terminal}
use dalek.Stdio.Conversions.{Writes}
use dalek.Stdio.Shows.{Shows, Shows-display, vprintf_loop-Writes, end-Shows}

-- The flags of a width.
abbrev width : ℕ → Flags
width w = record { lcount = 0; pad = 0; limit = false; w = w }

read_flags-width :
    (w : ℕ) (s : List ℕ)
    → 0 < w
    → w < 10
    → read_flags no_flags ((b'0' + w) ∷ b'd' ∷ s) ≡ some (width w, b'd' ∷ s)
unfolding read_flags
read_flags-width w s p h =
    let same : 0 * 10 + (b'0' + w - b'0') ≡ w = omega arith in
    let flag : is_flag no_flags (b'0' + w) ≡ true = unfold is_flag in ground arith in
    let first : with_flag no_flags (b'0' + w) ≡ some (width w) = unfold with_flag in ground arith in
    let conversion : is_flag (width w) b'd' ≡ false = unfold is_flag in refl in
    rw (flag, first, conversion)

-- The padding is made of terminators.
printed-padded :
    (v : ℤ) (w : ℕ) → length (written v 10) < w → (u : List ℕ) × (printed v 10 0 w ≡ 0 ∷ u)
printed-padded v w h =
    let k = w - length (written v 10) - 1 in
    let more : w - length (written v 10) ≡ suc k = omega arith in
    (
      replicate k 0 ++ reverse (written v 10),
      ap (λ n. replicate n 0 ++ reverse (written v 10)) more,
    )

width-Writes :
    (w n : ℕ) (s : List ℕ) (args : List Arg) (buffer : List ℕ)
    → 0 < w
    → w < 10
    → length (written (to_signed 32 n) 10) < w
    → length buffer ≡ 64
    → Writes (round b'%' ((b'0' + w) ∷ b'd' ∷ s) (word n ∷ args) buffer) [] args s
unfolding round directive convert int_piece next_word number_piece string_piece strlen
width-Writes w n s args buffer p h short sized =
    let v = to_signed 32 n in
    let (r, e, len) =
      itoa_s-printed v 10 0 w buffer (omega (arith, length-written v 10)) (omega arith) in
    let (u, padded) = printed-padded v w short in
    let e' = e ∙ ap (λ t. some (held t r)) padded in
    record {
      bytes = 0 ∷ (u ++ (0 ∷ r));
      count = 0;
      buffer = 0 ∷ (u ++ (0 ∷ r));
      returned = rw (read_flags-width w s p h, e') refl;
      inside = omega arith;
      written = refl;
      sized = ap (λ t. length (held t r)) (sym padded) ∙ len ∙ sized;
    }

module _ {State : Type 0} (terminal : Terminal State) where
  open terminal use {stdout, display}

  -- `%d` with a width from 1 to 9 and no zero in front of it: a number that is shorter than the width
  -- is not shown, since the padding that comes first is a terminator.
  pub vprintf-width :
      (w n : ℕ) (rest : List ℕ) (args : List Arg) (buffer : List ℕ) (st : State) (errno : ℕ)
      → 0 < w
      → w < 10
      → length (written (to_signed 32 n) 10) < w
      → length buffer ≡ 64
      → Shows terminal
          (vprintf
            (some stdout)
            (held (b'%' ∷ (b'0' + w) ∷ b'd' ∷ []) rest)
            (word n ∷ args)
            buffer
            (st, errno))
          st
          errno
          []
  unfolding vprintf
  vprintf-width w n rest args buffer st errno p h short sized =
      let wr = width-Writes w n (0 ∷ rest) args buffer p h short sized in
      Shows-display terminal _ _ st errno [] []
        (vprintf_loop-Writes terminal (length (held (b'%' ∷ (b'0' + w) ∷ b'd' ∷ []) rest)) b'%'
          ((b'0' + w) ∷ b'd' ∷ 0 ∷ rest) [] (0 ∷ rest) (word n ∷ args) args buffer st errno refl wr)
        (end-Shows terminal (length (held (b'%' ∷ (b'0' + w) ∷ b'd' ∷ []) rest)) rest args wr.buffer
          (display [] st) errno (omega arith))
