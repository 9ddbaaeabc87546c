-- ===== src/Stdio/Formats.antt =====
-- Formats of `vprintf` in bootloader/stage2/stdio.c, and the text that they mean.
use dalek.Base.{
  ℕ, suc, ◌<◌, ◌≡◌, ◌≢◌, ap, true, false, ◌||◌, some, List, [], ◌∷◌, ◌++◌, ◌==◌, length, arith,
  take-append, drop-append, length-append,
}
use dalek.Stdio.Format.{Arg, literal_length, round}
use dalek.Stdio.Directives.{Directive, spelled, argument, meant, IsDirective}
use dalek.Stdio.Conversions.{Writes}

-- A format is text with conversions in it. What it is spelled like, what arguments it takes, and what
-- it means.
pub data Format : Type 0 where
  text : List ℕ → Format
  more : List ℕ → Directive → Format → Format

unfoldable pub format_text : Format → List ℕ
format_text (text t) = t
format_text (more t d f) = t ++ (b'%' ∷ (spelled d ++ format_text f))

unfoldable pub arguments : Format → List Arg
arguments (text t) = []
arguments (more t d f) = argument d ++ arguments f

unfoldable pub meaning : Format → List ℕ
meaning (text t) = t
meaning (more t d f) = t ++ (meant d ++ meaning f)

-- Text without a `%` and without a terminator.
abbrev pub IsPlain : List ℕ → Type 0
IsPlain [] = Unit {0}
IsPlain (c ∷ t) = (0 < c) × (c ≢ b'%') × IsPlain t

abbrev pub IsFormat : Format → Type 0
IsFormat (text t) = IsPlain t
IsFormat (more t d f) = IsPlain t × IsDirective d × IsFormat f

literal_length-IsPlain :
    (t : List ℕ) (x : ℕ) (s : List ℕ)
    → IsPlain t
    → (x == b'%' || x == 0) ≡ true
    → literal_length (t ++ (x ∷ s)) ≡ some (length t)
unfolding literal_length
literal_length-IsPlain [] x s h e = rw e
literal_length-IsPlain (c ∷ t) x s h e = ground (arith, literal_length-IsPlain t x s h.2 e)

-- A round writes text up to the next conversion or the end.
pub literal-Writes :
    (c : ℕ) (t : List ℕ) (x : ℕ) (s : List ℕ) (args : List Arg) (buffer : List ℕ)
    → IsPlain (c ∷ t)
    → (x == b'%' || x == 0) ≡ true
    → length buffer ≡ 64
    → Writes (round c (t ++ (x ∷ s)) args buffer) (c ∷ t) args (x ∷ s)
unfolding round
literal-Writes c t x s args buffer h e sized =
    let plain : (c == b'%') ≡ false = ground (arith, h.1) in
    record {
      bytes = c ∷ (t ++ (x ∷ s));
      count = suc (length t);
      buffer = buffer;
      returned = rw (plain, literal_length-IsPlain t x s h.2 e, drop-append t (x ∷ s));
      inside = omega (arith, length-append t (x ∷ s));
      written = ap (λ l. c ∷ l) (take-append t (x ∷ s));
      sized = sized;
    }
