-- ===== src/Floppy/Motor.antt =====
-- The motor in bootloader/stage2/devices/floppy/floppy.c: `fd_motor`, `fd_motor_kill` and the timer
-- task `fd_timer`. What a call reads from the digital output register is an argument; what it does to
-- the hardware is a list of effects.
use Prim.Native.Nat.{bit_and, bit_or}
use dalek.Base.{
  ℕ, zero, suc, ◌+◌, ◌-◌, ◌*◌, ◌%◌, ◌^◌, ◌≤◌, ◌<◌, ◌≡◌, refl, List, [], ◌∷◌, ◌++◌, leb, ◌==◌,
  if◌then◌else◌, arith,
}
use dalek.Floppy.{Floppy}

abbrev pub fd_motor_off : ℕ
fd_motor_off = 0x00

abbrev pub fd_motor_on : ℕ
fd_motor_on = 0x01

abbrev pub fd_motor_wait : ℕ
fd_motor_wait = 0x02

abbrev pub fd_digital_output : ℕ
fd_digital_output = 0x02

-- A write to a port, or a sleep in milliseconds.
pub data Effect : Type 0 where
  outportb : ℕ → ℕ → Effect
  slept : ℕ → Effect

-- `fd_motor`; `dor` is the value read if the motor was off.
unfoldable pub fd_motor : Floppy → ℕ → ℕ → Floppy × List Effect
fd_motor fd stat dor =
    if stat == fd_motor_on
    then (
      record fd { motor_state = fd_motor_on },
      if fd.motor_state == fd_motor_off
          then outportb (fd.base + fd_digital_output)
              (bit_or dor (0x10 * 2 ^ fd.drive_number) % 2 ^ 8)
            ∷ slept 500
            ∷ []
          else [],
    )
    else (record fd { motor_ticks = 300; motor_state = fd_motor_wait }, [])

-- `fd_motor_kill`
unfoldable pub fd_motor_kill : Floppy → ℕ → Floppy × List Effect
fd_motor_kill fd dor = (
  record fd { motor_state = fd_motor_off },
  outportb (fd.base + fd_digital_output)
        (bit_and dor (2 ^ 8 - 1 - 0x10 * 2 ^ fd.drive_number % 2 ^ 8))
      ∷ [],
)

-- What `fd_timer` does to one drive. `motor_ticks` is a `uint16_t`: it is never below 0.
unfoldable pub unit_timer : Floppy → ℕ → Floppy × List Effect
unit_timer fd dor =
    if fd.motor_state == fd_motor_wait
    then (let less = record fd { motor_ticks = (fd.motor_ticks + 2 ^ 16 - 50) % 2 ^ 16 } in
        if less.motor_ticks == 0 then fd_motor_kill less dor else (less, []))
    else (fd, [])

-- `fd_timer` on the drives from `fd_units`, each with the value that its register is read to have.
unfoldable pub fd_timer : List (Floppy × ℕ) → List Floppy × List Effect
fd_timer [] = ([], [])
fd_timer ((fd, dor) ∷ units) =
    let (fd', effects) = unit_timer fd dor in
    let (fds, others) = fd_timer units in (fd' ∷ fds, effects ++ others)

-- The drive after so many calls of the timer task, with the value that each reads.
abbrev pub timed : List ℕ → Floppy → Floppy
timed [] fd = fd
timed (dor ∷ dors) fd = timed dors (unit_timer fd dor).0

abbrev pub count : List ℕ → ℕ
count [] = 0
count (dor ∷ dors) = 1 + count dors

-- A motor that waits with so many steps of 50 left is on until the last of them, and then off.
timed-waiting :
    (dors : List ℕ) (fd : Floppy) (k : ℕ)
    → fd.motor_state ≡ fd_motor_wait
    → fd.motor_ticks ≡ 50 * suc k
    → k < 1000
    → count dors ≤ suc k
    → (timed dors fd).motor_state ≡ (if leb (count dors) k then fd_motor_wait else fd_motor_off)
unfolding unit_timer fd_motor_kill
timed-waiting [] fd k w t b h = ground arith
timed-waiting (dor ∷ []) fd k w t b h = ground arith
timed-waiting (dor ∷ e ∷ dors) fd zero w t b h = absurd (omega arith)
timed-waiting (dor ∷ e ∷ dors) fd (suc k) w t b h =
    ground (arith, timed-waiting (e ∷ dors) (unit_timer fd dor).0 k)

-- A motor that is switched off runs on for five calls of the timer task and stops at the sixth.
pub fd_motor-stops :
    (fd : Floppy) (dor : ℕ) (dors : List ℕ)
    → count dors ≤ 6
    → (timed dors (fd_motor fd fd_motor_off dor).0).motor_state
      ≡ (if count dors == 6 then fd_motor_off else fd_motor_wait)
unfolding fd_motor
fd_motor-stops fd dor dors h = ground (
  arith,
  timed-waiting dors (record fd { motor_ticks = 300; motor_state = fd_motor_wait }) 5 refl refl,
)

-- A drive that is used again before that keeps its motor on: no later call of the task stops it.
pub fd_motor-keeps :
    (fd : Floppy) (dor : ℕ) (dors : List ℕ)
    → (timed dors (fd_motor fd fd_motor_on dor).0).motor_state ≡ fd_motor_on
unfolding fd_motor unit_timer
fd_motor-keeps fd dor [] = refl
fd_motor-keeps fd dor (e ∷ dors) = fd_motor-keeps fd dor dors
