-- ===== src/Commands/Texts.antt =====
-- The commands that only print: echo.c, version.c, clear.c, devices.c and halt.c of
-- bootloader/stage2/commands/.
use dalek.Base.{ℕ, zero, suc, ◌+◌, ◌-◌, Option, some, List, [], ◌∷◌, ltb, if◌then◌else◌, get_elem?}
use dalek.Base.Fault.{◌>>=◌}
use dalek.Strings.Text.{c_string}
use dalek.Strings.Compare.{strcmp}
use dalek.Strings.Parse.{atoi}
use dalek.Io.{IoDevice, is_zero}
use dalek.Stdio.Format.{str}
use dalek.Stdio.Print.{printf}

module _ {State : Type 0} (stdout : Option (IoDevice State)) (stack : List ℕ) where
  -- A constant text.
  abbrev pub say : List ℕ → State × ℕ → Option (State × ℕ)
  say t s = printf stdout t [] stack s >>= λ (r, s'). some s'

  -- The loop of `echo` from the argument `i` on, `n` arguments.
  unfoldable pub echo_loop : ℕ → ℕ → List (List ℕ) → State × ℕ → Option (State × ℕ)
  echo_loop zero i argv s = some s
  echo_loop (suc n) i argv s = do
    a ← get_elem? argv i
    (r, s') ← printf stdout (c_string "%s ") (str (some a) ∷ []) stack s
    echo_loop n (i + 1) argv s'

  unfoldable pub echo : ℕ → List (List ℕ) → State × ℕ → Option (ℕ × (State × ℕ))
  echo argn argv s = do
    s₁ ← echo_loop (argn - 1) 1 argv s
    s₂ ← say (c_string "\n") s₁
    some (0, s₂)

  unfoldable pub version : ℕ → List (List ℕ) → State × ℕ → Option (ℕ × (State × ℕ))
  version argn argv s = do
    s₁ ← say (c_string "\nDAleK Boot Loader (Stage 2). Version 0.0.1\n") s
    s₂ ← say (c_string "==========================================\n") s₁
    s₃ ← say (c_string "\n2009 (c) Alejandro Alvarez Ayllon\n") s₂
    s₄ ← say (c_string "Licensed under the GPL license.\n\n") s₃
    some (0, s₄)

  unfoldable pub clear_screen : State × ℕ → Option (ℕ × (State × ℕ))
  clear_screen s = say (c_string "\u{1b}[2J") s >>= λ s'. some (0, s')

  -- The colours are read and not used.
  unfoldable pub clear_colours : ℕ → List (List ℕ) → List ℕ → State × ℕ → Option (ℕ × (State × ℕ))
  clear_colours argn argv a s = do
    fg ← atoi a
    bg ← if ltb 2 argn then (get_elem? argv 2 >>= atoi) else some 0
    clear_screen s

  unfoldable pub clear_usage : State × ℕ → Option (ℕ × (State × ℕ))
  clear_usage s =
      say (c_string "Clear the screen.\nUsage: clear [help] | [<forecolor> [<backcolor>]]\n") s
      >>= λ s'. some (0, s')

  unfoldable pub clear_with : ℕ → List (List ℕ) → State × ℕ → Option (ℕ × (State × ℕ))
  clear_with argn argv s = do
    a ← get_elem? argv 1
    order ← strcmp a (c_string "help")
    if is_zero order then clear_usage s else clear_colours argn argv a s

  unfoldable pub clear : ℕ → List (List ℕ) → State × ℕ → Option (ℕ × (State × ℕ))
  clear argn argv s = if ltb 1 argn then clear_with argn argv s else clear_screen s

  -- The loop of `devices`, over the list from `io_device_list_begin` on.
  unfoldable pub devices_loop : List (IoDevice State) → State × ℕ → Option (State × ℕ)
  devices_loop [] s = some s
  devices_loop (dev ∷ list) s =
      printf stdout (c_string "%s\t%s\n") (str (some dev.name) ∷ str (some dev.description) ∷ [])
        stack s
      >>= λ (r, s'). devices_loop list s'

  unfoldable pub devices :
      List (IoDevice State) → ℕ → List (List ℕ) → State × ℕ → Option (ℕ × (State × ℕ))
  devices list argn argv s = devices_loop list s >>= λ s'. some (0, s')

  -- `halt`, which does nothing but print how it is used, for an argument other than `help`.
  unfoldable pub halt_usage : State × ℕ → Option (ℕ × (State × ℕ))
  halt_usage s = do
    s₁ ← say (c_string "Shut down the system if it is possible\n") s
    s₂ ← say (c_string "Usage: halt [help]\n") s₁
    some (0, s₂)

  unfoldable pub halt_with : List (List ℕ) → State × ℕ → Option (ℕ × (State × ℕ))
  halt_with argv s = do
    a ← get_elem? argv 1
    order ← strcmp a (c_string "help")
    if is_zero order then some (1, s) else halt_usage s

  unfoldable pub halt : ℕ → List (List ℕ) → State × ℕ → Option (ℕ × (State × ℕ))
  halt argn argv s = if ltb 1 argn then halt_with argv s else some (1, s)
