-- ===== src/Modules/Devices.antt =====
-- The modules that register the console: `screen_init` of bootloader/stage2/devices/screen/screen.c and
-- `kb_init` of devices/keyboard/keyboard.c.
use dalek.Base.{ℕ, ◌≡◌, refl, Option, none, some, List, [], ◌∷◌, replicate}
use dalek.Base.Int.{ℤ, pos}
use dalek.Base.Fault.{◌>>=◌}
use dalek.Strings.Text.{c_string, chars, held}
use dalek.Strings.Compare.{strcmp}
use dalek.Strings.Copy.{strlcpy}
use dalek.Io.{
  Method, Reader, IoDevice, zeroed, io_register_device, io_device_get_by_name, find_by_name,
}
use dalek.Screen.{Screen, screen_clear}
use dalek.Keyboard.{Keyboard, kb_init}
use dalek.Interrupts.{irq_install_handler}

abbrev pub kb_irq : ℕ
kb_irq = 1

module _ {State : Type 0} where
  -- The device that was registered last stands first; a method of it is set.
  abbrev pub attach :
      (IoDevice State → IoDevice State)
      → List (IoDevice State)
      → Option (List (IoDevice State) × IoDevice State)
  attach bind [] = none
  attach bind (dev ∷ devices) = some (bind dev ∷ devices, bind dev)

  -- `screen_init`, with `screen_write` as a method: the register, `stdout`, and the screen.
  unfoldable pub screen_init :
      Method State (List ℕ × ℕ)
      → List (IoDevice State)
      → Screen
      → Option (ℤ × (List (IoDevice State) × (IoDevice State × Screen)))
  screen_init screen_write devices s = do
    devices₁ ← io_register_device devices (c_string "screen") (c_string "Screen") 0
    (devices₂, stdout) ← attach (λ dev. record dev { write = some screen_write }) devices₁
    some (pos 0, (devices₂, (stdout, screen_clear s)))

  -- `kb_init`, with `kb_read` as a method and the address of `kb_handler`: the handlers, the register,
  -- `stdin`, and the keyboard.
  unfoldable pub kb_start :
      Reader State
      → ℕ
      → List (Option ℕ)
      → List (IoDevice State)
      → Keyboard
      → Option (ℤ × (List (Option ℕ) × (List (IoDevice State) × (IoDevice State × Keyboard))))
  kb_start kb_read kb_handler routines devices k = do
    routines₁ ← irq_install_handler routines kb_irq kb_handler
    devices₁ ← io_register_device devices (c_string "keyboard") (c_string "Keyboard") 0
    (devices₂, stdin) ← attach (λ dev. record dev { read = some kb_read }) devices₁
    some (pos 0, (routines₁, (devices₂, (stdin, kb_init k))))

  -- The device of the screen: a name and a description behind which their arrays have zeroes.
  abbrev pub screen_device : Method State (List ℕ × ℕ) → IoDevice State
  screen_device screen_write = record (zeroed 0) {
    name = held (chars "screen") (replicate 9 0);
    description = held (chars "Screen") (replicate 25 0);
    write = some screen_write;
  }

  -- The start of the screen succeeds, clears the page, and sets `stdout` to the device that
  -- the register then has under the name "screen".
  pub screen_init-found :
      (screen_write : Method State (List ℕ × ℕ)) (devices : List (IoDevice State)) (s : Screen)
      (errno : ℕ)
      → (screen_init screen_write devices s
          ≡ some (
            pos 0,
            (screen_device screen_write ∷ devices, (screen_device screen_write, screen_clear s)),
          ))
        × (io_device_get_by_name (screen_device screen_write ∷ devices) (c_string "screen") errno
            ≡ some (some (screen_device screen_write), errno))
  unfolding screen_init io_register_device strlcpy io_device_get_by_name find_by_name strcmp
  screen_init-found screen_write devices s errno = (refl, refl)
