-- ===== src/Stdio/Console.antt =====
-- A terminal for bootloader/stage2/stdio.c whose state is what waits to be read and what is shown.
use dalek.Base.{ℕ, ◌≡◌, refl, some, List, [], ◌∷◌, ◌++◌, take, drop}
use dalek.Base.Int.{pos}
use dalek.Io.{IoDevice, zeroed, io_write, io_read}
use dalek.Stdio.Terminal.{Terminal}

-- A state of what is typed and what is shown, and a terminal on it.
abbrev pub Console : Type 0
Console = List ℕ × List ℕ

abbrev pub keys : IoDevice Console
keys = record (zeroed 0) {
  read = some (λ (buffer, n) ((typed, shown), errno).
      (pos n, (take n typed ++ drop n buffer, ((drop n typed, shown), errno))));
}

abbrev pub screen : IoDevice Console
screen = record (zeroed 0) {
  write =
      some (λ (bytes, n) ((typed, shown), errno). (pos n, ((typed, shown ++ take n bytes), errno)));
}

first_typed : (t : List ℕ) (c : ℕ) (u : List ℕ) → t ≡ c ∷ u → take 1 t ++ [] ≡ c ∷ []
first_typed [] c u e = cc
first_typed (d ∷ t) c u e = cc

pub keys-reads :
    (s : Console) (c : ℕ) (t : List ℕ) (unset errno : ℕ)
    → s.0 ≡ c ∷ t
    → io_read (some keys) (unset ∷ [], 1) (s, errno) ≡ (pos 1, (c ∷ [], ((drop 1 s.0, s.1), errno)))
unfolding io_read
keys-reads s c t unset errno e = rw (first_typed s.0 c t e) refl

pub screen-writes :
    (s : Console) (bytes : List ℕ) (n errno : ℕ)
    → io_write (some screen) (bytes, n) (s, errno) ≡ (pos n, ((s.0, s.1 ++ take n bytes), errno))
unfolding io_write
screen-writes s bytes n errno = refl

abbrev pub console : Terminal Console
console = record {
  stdin = keys;
  stdout = screen;
  typed = λ s. s.0;
  shown = λ s. s.1;
  take_key = λ (typed, shown). (drop 1 typed, shown);
  display = λ bytes (typed, shown). (typed, shown ++ bytes);
  reads = keys-reads;
  typed-take_key = λ s. refl;
  shown-take_key = λ s. refl;
  writes = λ s bytes n errno h. screen-writes s bytes n errno;
  typed-display = λ s bytes. refl;
  shown-display = λ s bytes. refl;
}
