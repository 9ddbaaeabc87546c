-- ===== src/Floppy/Calibrate.antt =====
-- The reset and the calibration in bootloader/stage2/devices/floppy/floppy.c.
pub mod Answers
pub mod Attempts
mod Tests
use Prim.Native.Nat.{bit_and, bit_or}
use dalek.Base.{
  ℕ, zero, suc, ◌+◌, ◌%◌, ◌^◌, ◌||◌, not, Option, none, some, List, [], ◌∷◌, ◌==◌, if◌then◌else◌,
}
use dalek.Base.Int.{ℤ, pos, negsuc}
use dalek.Base.Fault.{◌>>=◌}
use dalek.Errno.{eagain}
use dalek.Strings.Number.{is_negative}
use dalek.Floppy.{Floppy}
use dalek.Floppy.Motor.{
  Effect, outportb, slept, fd_digital_output, fd_motor, fd_motor_off, fd_motor_on,
}
use dalek.Floppy.Controller.{
  Controller, inportb, send, pause, fd_send_byte, fd_recv_byte, await_ready, await_irq,
  fd_config_control, fd_digital_input, fd_sense_interrupt, fd_seek_command, fd_recalibrate_command,
}

-- The status and the cylinder behind an interrupt; `none` inside is a controller that is not ready.
unfoldable pub read_interrupt : Floppy → Controller → Option (Option (ℕ × ℕ) × Controller)
read_interrupt fd c = do
  (r, c₁) ← await_ready fd (fd_send_byte fd.base fd_sense_interrupt c)
  (st0, c₂) ← fd_recv_byte fd.base c₁
  (cyl, c₃) ← fd_recv_byte fd.base c₂
  some (some (st0, cyl), c₃)

unfoldable pub fd_check_interrupt : Floppy → Controller → Option (Option (ℕ × ℕ) × Controller)
fd_check_interrupt fd c =
    await_ready fd c >>= λ (r, c'). if is_negative r then some (none, c') else read_interrupt fd c'

-- `fd_reset`: the result and the controller.
unfoldable pub fd_reset : ℕ → Controller → Option (ℤ × Controller)
fd_reset base c = do
  c₁ ← pause 10 (send (base + fd_digital_output) 0x00 c)
  c₂ ← pause 10 (send (base + fd_digital_output) 0x0c c₁)
  (r, c₃) ← await_irq 2000 c₂
  some (if is_negative r then (negsuc 0, c₃) else (pos 0, send (base + fd_config_control) 0x00 c₃))

-- What an interrupt says of an attempt, with what the next attempts give. An error bit or the bit 5 of
-- the status, or a cylinder other than 0, asks for the next one.
abbrev pub attempted :
    Option (ℕ × ℕ) × Controller → (Controller → Option (ℤ × Controller)) → Option (ℤ × Controller)
attempted (none, c) next = some (negsuc 0, c)
attempted (some (st0, cyl), c) next =
    if not (bit_and st0 0xC0 == 0) || not (bit_and st0 0x20 == 0)
    then next c
    else if cyl == 0
    then some (pos 0, c)
    else next c

-- The command of an attempt and the wait for its interrupt.
unfoldable pub attempt : Floppy → Controller → Option (Option (ℕ × ℕ) × Controller)
attempt fd c = do
  (r, c₁) ←
      await_irq 5000
        (fd_send_byte fd.base fd.drive_number (fd_send_byte fd.base fd_recalibrate_command c))
  if is_negative r then some (none, c₁) else fd_check_interrupt fd c₁

-- The loop, with so many attempts left.
unfoldable pub calibrate_loop : ℕ → Floppy → Controller → Option (ℤ × Controller)
calibrate_loop zero fd c = some (negsuc 0, record c { errno = eagain })
calibrate_loop (suc left) fd c =
    attempt fd c >>= λ answer. attempted answer (calibrate_loop left fd)

-- The dummy seek to cylinder 1, whose answer comes first.
abbrev pub sought_one :
    Option (ℕ × ℕ) × Controller → (Controller → Option (ℤ × Controller)) → Option (ℤ × Controller)
sought_one (none, c) next = some (negsuc 0, c)
sought_one (some (st0, cyl), c) next =
    if cyl == 1 then next c else some (negsuc 0, record c { errno = eagain })

unfoldable pub dummy_seek : Floppy → Controller → Option (Option (ℕ × ℕ) × Controller)
dummy_seek fd c = do
  (r, c₁) ← await_ready fd c
  (r', c₂) ← await_irq 5000 (
      fd_send_byte fd.base 0x01
        (fd_send_byte fd.base fd.drive_number (fd_send_byte fd.base fd_seek_command c₁)))
  if is_negative r' then some (none, c₂) else fd_check_interrupt fd c₂

unfoldable pub fd_recalibrate : Floppy → Controller → Option (ℤ × Controller)
fd_recalibrate fd c = dummy_seek fd c >>= λ answer. sought_one answer (calibrate_loop 10 fd)

-- What a call of `fd_motor` does to the hardware.
unfoldable pub perform : List Effect → Controller → Option Controller
perform [] c = some c
perform (outportb port v ∷ effects) c = perform effects (send port v c)
perform (slept ms ∷ effects) c = pause ms c >>= λ c'. perform effects c'

-- `fd_motor` on the controller: the register is read only if the motor was off.
unfoldable pub switch_motor : Floppy → ℕ → Controller → Option (Floppy × Controller)
switch_motor fd stat c = do
  (dor, c₁) ←
      if stat == fd_motor_on
      then (if fd.motor_state == fd_motor_off
          then inportb (fd.base + fd_digital_output) c
          else some (0, c))
      else some (0, c)
  c₂ ← perform (fd_motor fd stat dor).1 c₁
  some ((fd_motor fd stat dor).0, c₂)

-- A calibration that fails switches the motor off.
abbrev pub calibrated : Floppy → ℤ × Controller → Option (ℤ × (Floppy × Controller))
calibrated fd (stat, c) =
    if is_negative stat
    then (switch_motor fd fd_motor_off c >>= λ (fd', c'). some (stat, (fd', c')))
    else some (stat, (fd, c))

-- `fd_activate`: the result, the drive and the controller.
unfoldable pub fd_activate : Floppy → Controller → Option (ℤ × (Floppy × Controller))
fd_activate fd c = do
  (dor, c₁) ← inportb (fd.base + fd_digital_output) c
  (fd', c₂) ←
      switch_motor fd fd_motor_on
        (send (fd.base + fd_digital_output) (bit_or (bit_and dor 0xFC) fd.drive_number % 2 ^ 8) c₁)
  (dir, c₃) ← inportb (fd.base + fd_digital_input) c₂
  if bit_and dir 0x80 == 0
      then some (pos 0, (fd', c₃))
      else (fd_recalibrate fd' c₃ >>= calibrated fd')
