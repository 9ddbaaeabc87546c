-- ===== src/Commands/Boots.antt =====
-- When `chainload` of bootloader/stage2/commands/chainload.c jumps.
use dalek.Base.{
  ℕ, ◌≡◌, ◌≢◌, ◌⊎◌, inl, inr, refl, some, Option, List, [], ◌∷◌, ◌++◌, length, get_elem?, arith,
  false, true, Bool, if◌then◌else◌,
}
use dalek.Base.Int.{pos}
use dalek.Strings.Text.{IsText, held, chars}
use dalek.Io.{IoDevice, io_read, io_seek, io_device_get_by_name}
use dalek.Stdio.Print.{log_info, log_error}
use dalek.Stdio.Terminal.{Terminal}
use dalek.Stdio.Directives.{plain_hex, capital_hex, string, spelled, argument}
use dalek.Stdio.Formats.{Format, text, more, format_text, arguments, meaning}
use dalek.Stdio.Logs.{log_line, log-meaning}
use dalek.Stdio.Leaves.{Leaves, Leaves-nothing, log-then}
use dalek.Cli.Rows.{Holds}
use dalek.Commands.Dumps.{second-Holds}
use dalek.Commands.Chainload.{
  Boot, returns, jumps, is_marked, is_forced, chainload, chainload_device, chainload_sought,
  chainload_read, chainload_loaded,
}

is_marked-half : (a b : ℕ) → (a ≡ 0x55) ⊎ (b ≡ 0xaa) → is_marked a b ≡ true
unfolding is_marked
is_marked-half a b h = ground arith

is_marked-none : (a b : ℕ) → a ≢ 0x55 → b ≢ 0xaa → is_marked a b ≡ false
unfolding is_marked
is_marked-none a b h g = ground arith

jumping :
    {A : Type 0} (force : Bool) (a b : ℕ) (x y : A)
    → (force ≡ true) ⊎ (a ≡ 0x55) ⊎ (b ≡ 0xaa)
    → (if force then x else if is_marked a b then x else y) ≡ x
jumping force a b x y (inl forced) = rw forced refl
jumping true a b x y (inr half) = refl
jumping false a b x y (inr half) = rw (is_marked-half a b half) refl

-- The messages behind a successful read, and on the bytes that are no marker.
abbrev pub loaded_format : Format
loaded_format = more (chars "Loaded 512 bytes into ") (plain_hex 0x7c00) (text [])

abbrev pub content_format : ℕ → ℕ → Format
content_format a b =
    more (chars "Content: 0x") (capital_hex 2 b) (more [] (capital_hex 2 a) (text []))

module _ {State : Type 0} (terminal : Terminal State) where
  open terminal use {stdout, shown}

  -- A sector that was read, forced or with one of the two marker bytes right, at 510 or at 511: the
  -- command jumps to it.
  pub chainload_loaded-jumps :
      (id a b : ℕ) (force : Bool) (sector stack : List ℕ) (s : State) (errno : ℕ)
      → get_elem? sector 510 ≡ some a
      → get_elem? sector 511 ≡ some b
      → (force ≡ true) ⊎ (a ≡ 0x55) ⊎ (b ≡ 0xaa)
      → length stack ≡ 64
      → Leaves terminal
          (chainload_loaded (some stdout) stack id force sector (s, errno))
          (λ s'. jumps id sector (s', errno))
          s
          (log_line log_info (chars "chainload") (meaning loaded_format) ++ [])
  unfolding chainload_loaded format_text arguments spelled argument
  chainload_loaded-jumps id a b force sector stack s errno at_a at_b good stacked =
      log-then terminal log_info (chars "chainload") loaded_format stack errno _
        (λ s'. jumps id sector (s', errno)) s [] (ground arith) (ground arith) stacked
        λ s'.
          rw (at_a, at_b, jumping {A = Option (Boot State)} force a b)
            (Leaves-nothing terminal (λ t. jumps id sector (t, errno)) s')

  -- The messages on an unforced sector with both marker bytes wrong.
  chainload_loaded-refuses :
      (id a b : ℕ) (sector stack : List ℕ) (s : State) (errno : ℕ)
      → get_elem? sector 510 ≡ some a
      → get_elem? sector 511 ≡ some b
      → a ≢ 0x55
      → b ≢ 0xaa
      → length stack ≡ 64
      → Leaves terminal
          (chainload_loaded (some stdout) stack id false sector (s, errno))
          (λ s'. returns 255 (s', errno))
          s
          (log_line log_info (chars "chainload") (meaning loaded_format)
            ++ (log_line log_error
                  (chars "chainload")
                  (chars "Loaded chunk does not have 0xAA55 marker")
                ++ (log_line log_error (chars "chainload") (meaning (content_format a b)) ++ [])))
  unfolding chainload_loaded format_text arguments meaning spelled argument
  chainload_loaded-refuses id a b sector stack s errno at_a at_b wrong_a wrong_b stacked =
      log-then terminal log_info (chars "chainload") loaded_format stack errno _
        (λ s'. returns 255 (s', errno)) s _ (ground arith) (ground arith) stacked
        λ s₁.
          rw (at_a, at_b, is_marked-none a b wrong_a wrong_b)
            (log-then terminal log_error (chars "chainload")
              (text (chars "Loaded chunk does not have 0xAA55 marker")) stack errno _
              (λ s'. returns 255 (s', errno)) s₁ _ (ground arith) (ground arith) stacked
              λ s₂.
                log-then terminal log_error (chars "chainload") (content_format a b) stack errno _
                  (λ s'. returns 255 (s', errno)) s₂ [] (ground arith) (ground arith) stacked
                  λ s₃. Leaves-nothing terminal (λ s'. returns 255 (s', errno)) s₃)

  -- `chainload` with the name of a device that is found, that goes back to its start and gives a sector
  -- of which one of the two marker bytes is right: the command jumps to the sector, with the number of
  -- the device.
  pub chainload-jumps :
      (w name sector memory stack : List ℕ) (argv : List (List ℕ)) (devices : List (IoDevice State))
      (dev : IoDevice State) (a b : ℕ) (after_seek after_read : State → State) (s : State)
      (errno : ℕ)
      → Holds (w ∷ name ∷ []) argv
      → IsText name
      → ((rest : List ℕ)
          → io_device_get_by_name devices (held name rest) errno ≡ some (some dev, errno))
      → ((t : State) → io_seek (some dev) (pos 0, 0) (t, errno) ≡ (pos 0, (after_seek t, errno)))
      → ((t : State)
          → io_read (some dev) (memory, 512) (t, errno)
            ≡ (pos 512, (sector, (after_read t, errno))))
      → get_elem? sector 510 ≡ some a
      → get_elem? sector 511 ≡ some b
      → (a ≡ 0x55) ⊎ (b ≡ 0xaa)
      → length stack ≡ 64
      → (s' : State) × (chainload (some stdout) stack devices memory 2 argv (s, errno)
          ≡ some (jumps dev.id sector (s', errno)))
  unfolding chainload is_forced chainload_device chainload_sought chainload_read format_text
      arguments spelled argument
  chainload-jumps w name sector memory stack argv devices dev a b after_seek after_read s errno
        holds h found seeks reads at_a at_b good stacked =
      let (rest, second) = second-Holds w name [] argv holds in
      let (s₁, told, shows, waits) =
        log-meaning terminal (more (chars "Chainload from ") (string name rest) (text [])) []
          (chars "chainload") [] log_info [] stack s errno (ground arith) (ground arith) stacked in
      let (s₂, jumped, shows', waits') =
        chainload_loaded-jumps dev.id a b false sector stack (after_read (after_seek s₁)) errno at_a
          at_b (inr good) stacked in
      (s₂, rw (second, found rest, told, seeks s₁, reads (after_seek s₁)) jumped)

  -- `chainload` with the name of a device that is found, that goes back to its start and gives a sector
  -- of which both marker bytes are wrong: the command returns 255, its -1, and does not jump.
  pub chainload-refuses :
      (w name sector memory stack : List ℕ) (argv : List (List ℕ)) (devices : List (IoDevice State))
      (dev : IoDevice State) (a b : ℕ) (after_seek after_read : State → State) (s : State)
      (errno : ℕ)
      → Holds (w ∷ name ∷ []) argv
      → IsText name
      → ((rest : List ℕ)
          → io_device_get_by_name devices (held name rest) errno ≡ some (some dev, errno))
      → ((t : State) → io_seek (some dev) (pos 0, 0) (t, errno) ≡ (pos 0, (after_seek t, errno)))
      → ((t : State)
          → io_read (some dev) (memory, 512) (t, errno)
            ≡ (pos 512, (sector, (after_read t, errno))))
      → get_elem? sector 510 ≡ some a
      → get_elem? sector 511 ≡ some b
      → a ≢ 0x55
      → b ≢ 0xaa
      → length stack ≡ 64
      → (s' : State) × (chainload (some stdout) stack devices memory 2 argv (s, errno)
          ≡ some (returns 255 (s', errno)))
  unfolding chainload is_forced chainload_device chainload_sought chainload_read format_text
      arguments spelled argument
  chainload-refuses w name sector memory stack argv devices dev a b after_seek after_read s errno
        holds h found seeks reads at_a at_b wrong_a wrong_b stacked =
      let (rest, second) = second-Holds w name [] argv holds in
      let (s₁, told, shows, waits) =
        log-meaning terminal (more (chars "Chainload from ") (string name rest) (text [])) []
          (chars "chainload") [] log_info [] stack s errno (ground arith) (ground arith) stacked in
      let (s₂, refused, shows', waits') =
        chainload_loaded-refuses dev.id a b sector stack (after_read (after_seek s₁)) errno at_a
          at_b wrong_a wrong_b stacked in
      (s₂, rw (second, found rest, told, seeks s₁, reads (after_seek s₁)) refused)
