-- ===== src/Commands/Dumps.antt =====
-- What `read` of bootloader/stage2/commands/read.c shows of the bytes that were read.
use mathlib.Core.Path.{subst}
use dalek.Base.{
  ℕ, zero, suc, ◌+◌, ◌*◌, ◌%◌, ◌^◌, ◌≡◌, refl, ap, ◌∙◌, some, List, [], ◌∷◌, ◌++◌, length, take,
  drop, get_elem?, get_elem?-append, length-append, append_assoc, take-append-drop, arith, ltb,
  false, true,
}
use dalek.Base.Int.{pos}
use dalek.Strings.Text.{held}
use dalek.Strings.Number.Spelled.{padded}
use dalek.Io.{IoDevice, io_read, io_device_get_by_name}
use dalek.Stdio.Terminal.{Terminal}
use dalek.Stdio.Directives.{hex, spelled, argument, meant}
use dalek.Stdio.Formats.{text, more, format_text, arguments, meaning}
use dalek.Stdio.Leaves.{Leaves, Leaves-bind, Leaves-nothing, printf-then}
use dalek.Cli.Rows.{Holds}
use dalek.Commands.Disk.{dump_bytes, dump_lines, dump, number_argument, read}

-- A byte in two digits and a space, and a row of them.
abbrev pub hex_row : List ℕ → List ℕ
hex_row [] = []
hex_row (b ∷ bytes) = (padded 16 2 (b % 2 ^ 32) ++ (b' ' ∷ [])) ++ hex_row bytes

-- `n` lines of sixteen bytes, each with its offset in front, from the line with the number `line` on.
abbrev pub dump_text : ℕ → ℕ → List ℕ → List ℕ
dump_text zero line bytes = []
dump_text (suc n) line bytes =
    (padded 16 8 (line * 16 % 2 ^ 32) ++ (b'\t' ∷ []))
    ++ (hex_row (take 16 bytes) ++ ((b'\n' ∷ []) ++ dump_text n (line + 1) (drop 16 bytes)))

module _ {State : Type 0} (terminal : Terminal State) (stack : List ℕ) (errno : ℕ) where
  open terminal use {stdout, typed, shown}

  -- The loop that is over.
  stopped-Leaves :
      (i j : ℕ) (s : State)
      → i ≡ j
      → Leaves terminal {A = ℕ × (State × ℕ)} (some (i, (s, errno))) (λ s'. (j, (s', errno))) s []
  stopped-Leaves i j s e =
      subst
        (λ (k : ℕ).
          Leaves terminal {A = ℕ × (State × ℕ)} (some (i, (s, errno))) (λ s'. (k, (s', errno))) s
            [])
        e (Leaves-nothing terminal (λ s'. (i, (s', errno))) s)

  -- The bytes behind `front`, up to `left` of them.
  dump_bytes-Leaves :
      (left i j n : ℕ) (front back : List ℕ) (s : State)
      → i ≡ length front
      → n ≡ length front + length back
      → i + length (take left back) ≡ j
      → length stack ≡ 64
      → Leaves terminal
          (dump_bytes (some stdout) stack left i n (front ++ back) (s, errno))
          (λ s'. (j, (s', errno)))
          s
          (hex_row (take left back))
  unfolding dump_bytes format_text arguments meaning spelled argument meant
  dump_bytes-Leaves zero i j n front back s e size end stacked = stopped-Leaves i j s (omega arith)
  dump_bytes-Leaves (suc left) i j n front [] s e size end stacked =
      let over : ltb i n ≡ false = ground arith in rw over (stopped-Leaves i j s (omega arith))
  dump_bytes-Leaves (suc left) i j n front (b ∷ back) s e size end stacked =
      let more_bytes : ltb i n ≡ true = ground arith in
      let at : get_elem? (front ++ (b ∷ back)) i ≡ some b = rw e (get_elem?-append front b back) in
      rw (more_bytes, at)
        (printf-then terminal (more [] (hex 2 b) (text (b' ' ∷ []))) stack errno
          (dump_bytes (some stdout) stack left (i + 1) n (front ++ (b ∷ back)))
          (λ s'. (j, (s', errno))) s (hex_row (take left back)) (ground arith) stacked
          λ s'.
            subst
              (λ l.
                Leaves terminal (dump_bytes (some stdout) stack left (i + 1) n l (s', errno))
                  (λ t. (j, (t, errno))) s' (hex_row (take left back)))
              (append_assoc front (b ∷ []) back)
              (dump_bytes-Leaves left (i + 1) j n (front ++ (b ∷ [])) back s'
                (omega (arith, length-append front (b ∷ [])))
                (omega (arith, length-append front (b ∷ []))) (omega arith) stacked))

  dump_lines-Leaves :
      (n line i nbytes : ℕ) (front back : List ℕ) (s : State)
      → i ≡ length front
      → nbytes ≡ length front + length back
      → length stack ≡ 64
      → Leaves terminal
          (dump_lines (some stdout) stack n line i nbytes (front ++ back) (s, errno))
          (λ s'. (s', errno))
          s
          (dump_text n line back)
  unfolding dump_lines format_text arguments meaning spelled argument meant
  dump_lines-Leaves zero line i nbytes front back s e size stacked =
      Leaves-nothing terminal (λ s'. (s', errno)) s
  dump_lines-Leaves (suc n) line i nbytes front back s e size stacked =
      printf-then terminal (more [] (hex 8 (line * 16)) (text (b'\t' ∷ []))) stack errno _
        (λ s'. (s', errno)) s
        (hex_row (take 16 back) ++ ((b'\n' ∷ []) ++ dump_text n (line + 1) (drop 16 back)))
        (ground arith) stacked
        λ s₁.
          Leaves-bind terminal _ _ (λ t. (i + length (take 16 back), (t, errno))) (λ t. (t, errno))
            s₁ (hex_row (take 16 back)) ((b'\n' ∷ []) ++ dump_text n (line + 1) (drop 16 back))
            (dump_bytes-Leaves 16 i (i + length (take 16 back)) nbytes front back s₁ e size refl
              stacked)
            λ s₂.
              printf-then terminal (text (b'\n' ∷ [])) stack errno _ (λ t. (t, errno)) s₂
                (dump_text n (line + 1) (drop 16 back)) (ground arith) stacked
                λ s₃.
                  subst
                    (λ l.
                      Leaves terminal
                        (dump_lines (some stdout) stack n (line + 1) (i + length (take 16 back))
                          nbytes l (s₃, errno))
                        (λ t. (t, errno)) s₃ (dump_text n (line + 1) (drop 16 back)))
                    (append_assoc front (take 16 back) (drop 16 back)
                      ∙ ap (λ l. front ++ l) (take-append-drop 16 back))
                    (dump_lines-Leaves n (line + 1) (i + length (take 16 back)) nbytes
                      (front ++ take 16 back) (drop 16 back) s₃
                      (omega (arith, length-append front (take 16 back)))
                      (omega (
                        arith,
                        length-append front (take 16 back),
                        length-append (take 16 back) (drop 16 back),
                        ap length (take-append-drop 16 back),
                      ))
                      stacked)

pub second-Holds :
    (w v : List ℕ) (ws argv : List (List ℕ))
    → Holds (w ∷ v ∷ ws) argv
    → (rest : List ℕ) × (get_elem? argv 1 ≡ some (held v rest))
second-Holds w v ws [] h = elim h [ ]
second-Holds w v ws (a ∷ []) h = elim (h.1) [ ]
second-Holds w v ws (a ∷ b ∷ argv) (first, ((rest, e), more_words)) = (rest, ap some e)

module _ {State : Type 0} (terminal : Terminal State) where
  open terminal use {stdout, typed, shown}

  -- `read` with the name of a device that is found and whose read succeeds: the command asks for 512
  -- bytes, returns 0, and shows what the buffer then holds in 32 lines of sixteen bytes, whatever
  -- number of bytes the device says it read.
  pub read-Leaves :
      (w name : List ℕ) (argv : List (List ℕ)) (devices : List (IoDevice State))
      (fresh : ℕ → List ℕ) (dev : IoDevice State) (stack buffer : List ℕ) (m : ℕ) (s s₁ : State)
      (errno errno₁ : ℕ)
      → Holds (w ∷ name ∷ []) argv
      → ((rest : List ℕ)
          → io_device_get_by_name devices (held name rest) errno ≡ some (some dev, errno))
      → io_read (some dev) (fresh 512, 512) (s, errno) ≡ (pos m, (buffer, (s₁, errno₁)))
      → length buffer ≡ 512
      → length stack ≡ 64
      → Leaves terminal
          (read (some stdout) stack devices fresh 2 argv (s, errno))
          (λ s'. (0, (s', errno₁)))
          s₁
          (dump_text 32 0 buffer)
  unfolding read number_argument dump
  read-Leaves w name argv devices fresh dev stack buffer m s s₁ errno errno₁ holds found reads size
        stacked =
      let (rest, second) = second-Holds w name [] argv holds in
      let (s₂, dumped, more_shown, same_typed) =
        dump_lines-Leaves terminal stack errno₁ 32 0 0 512 [] buffer s₁ refl (omega arith)
          stacked in
      (s₂, rw (second, found rest, reads, dumped) refl, more_shown, same_typed)
