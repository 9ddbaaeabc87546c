-- ===== src/Floppy/Start/Drives.antt =====
-- Which drives `fd_init` of bootloader/stage2/devices/floppy/floppy.c registers.
use dalek.Base.{
  ℕ, zero, suc, ◌/◌, ◌%◌, ◌^◌, ◌<◌, ◌≡◌, ◌≢◌, refl, ◌∙◌, Bool-cases, inl, inr, true, false, some,
  List, [], ◌∷◌, ◌++◌, ◌==◌, if◌then◌else◌, replicate, arith,
}
use dalek.Base.Int.{pos, negsuc}
use dalek.Strings.Text.{c_string}
use dalek.Floppy.{floppy_1_44, Floppy}
use dalek.Floppy.Motor.{Effect, outportb, slept}
use dalek.Floppy.Wait.{Interrupt, tick, floppy, fd_wait_irq, wait_loop-arrives}
use dalek.Floppy.Controller.{
  Controller, inportb, inportb_from, pause, ticks_pass, fd_send_byte, fd_recv_byte, fd_configure,
  await_irq,
}
use dalek.Floppy.Calibrate.{fd_reset}
use dalek.Floppy.Start.{
  no_drive, drive_of, Registered, Driver, no_driver, with_drive, with_slot, with_drives, locked,
  start_controller, fd_init,
}

-- A drive of 1.44 MB, and the device for it; any other type gives neither.
abbrev pub expected_unit : ℕ → ℕ → Floppy
expected_unit slot type = if type == 4 then drive_of slot floppy_1_44 else no_drive

abbrev pub expected_device : ℕ → List ℕ → ℕ → List Registered
expected_device slot name type =
    if type == 4
    then record { name = name; description = c_string "1.44MB 3.5\""; unit = slot; id = slot } ∷ []
    else []

abbrev pub expected_driver : ℕ → ℕ → Driver
expected_driver first second = record {
  units = expected_unit 0 first ∷ expected_unit 1 second ∷ [];
  devices = expected_device 0 (c_string "fd0") first ++ expected_device 1 (c_string "fd1") second;
  handler = true;
  task = true;
}

with_slot_lem :
    (slot : ℕ) (name : List ℕ) (type : ℕ) (d : Driver)
    → type < 8
    → with_slot slot name type d
      ≡ some (if type == 4 then with_drive slot name (c_string "1.44MB 3.5\"") floppy_1_44 d else d)
unfolding with_slot
with_slot_lem slot name zero d h = refl
with_slot_lem slot name (suc zero) d h = refl
with_slot_lem slot name (suc (suc zero)) d h = refl
with_slot_lem slot name (suc (suc (suc zero))) d h = refl
with_slot_lem slot name (suc (suc (suc (suc zero)))) d h = refl
with_slot_lem slot name (suc (suc (suc (suc (suc zero))))) d h = refl
with_slot_lem slot name (suc (suc (suc (suc (suc (suc zero)))))) d h = refl
with_slot_lem slot name (suc (suc (suc (suc (suc (suc (suc zero))))))) d h = refl
with_slot_lem slot name (suc (suc (suc (suc (suc (suc (suc (suc n)))))))) d h = absurd (omega arith)

with_drives_lem :
    (drives : ℕ)
    → drives / 2 ^ 4 < 8
    → drives % 2 ^ 4 < 8
    → with_drives drives (record no_driver { handler = true })
      ≡ some (expected_driver (drives / 2 ^ 4) (drives % 2 ^ 4))
unfolding with_drives
with_drives_lem drives h h' =
    let first =
      with_slot_lem 0 (c_string "fd0") (drives / 2 ^ 4) (record no_driver { handler = true }) h in
    let second = λ (d : Driver). with_slot_lem 1 (c_string "fd1") (drives % 2 ^ 4) d h' in
    elim (Bool-cases (drives / 2 ^ 4 == 4)) [
      | inl e ↦ elim (Bool-cases (drives % 2 ^ 4 == 4)) [
        | inl e' ↦ rw (first, second, e, e') refl
        | inr e' ↦ rw (first, second, e, e') refl
      ]
      | inr e ↦ elim (Bool-cases (drives % 2 ^ 4 == 4)) [
        | inl e' ↦ rw (first, second, e, e') refl
        | inr e' ↦ rw (first, second, e, e') refl
      ]
    ]

-- A controller that answers the version, the type of the drives and the lock, whose interrupt comes
-- behind the two sleeps of the reset.
abbrev pub answering : ℕ → ℕ → ℕ → List (ℕ × ℕ) → List Interrupt → ℕ → Controller
answering version drives lock reads coming errno = record {
  reads = (0x03F5, version) ∷ (0x71, drives) ∷ (0x03F5, lock) ∷ reads;
  coming = replicate 20 tick ++ (floppy ∷ coming);
  irq_waiting = 0;
  errno = errno;
  done = [];
}

-- What the start writes to the ports, and its sleeps.
abbrev pub start_effects : List Effect
start_effects =
    outportb 0x03F5 0x10
    ∷ outportb 0x70 0x10
    ∷ outportb 0x03F2 0x00
    ∷ slept 10
    ∷ outportb 0x03F2 0x0c
    ∷ slept 10
    ∷ outportb 0x03F7 0x00
    ∷ outportb 0x03F5 0x13
    ∷ outportb 0x03F5 0x00
    ∷ outportb 0x03F5 0x67
    ∷ outportb 0x03F5 0x00
    ∷ outportb 0x03F5 0x94
    ∷ []

-- The controller behind the start.
abbrev pub started : List (ℕ × ℕ) → List Interrupt → ℕ → Controller
started reads coming errno = record {
  reads = reads;
  coming = coming;
  irq_waiting = 0;
  errno = errno;
  done = start_effects;
}

fd_init-locked :
    (drives lock : ℕ) (reads : List (ℕ × ℕ)) (coming : List Interrupt) (errno : ℕ)
    → fd_init (answering 0x90 drives lock reads coming errno)
      ≡ locked drives (lock, started reads coming errno) (record no_driver { handler = true })
unfolding fd_init start_controller inportb inportb_from fd_recv_byte fd_send_byte fd_configure
    fd_reset pause ticks_pass await_irq fd_wait_irq
fd_init-locked drives lock reads coming errno =
    rw (wait_loop-arrives 2000 errno 0 [] coming refl (omega arith)) refl

-- With a controller of version 0x90 that resets and locks, and two types of drive below 8 in the CMOS,
-- the start returns 0, writes what `start_effects` says, installs the handler and registers the task; a
-- slot whose type is 4 has its drive and its device, with the number of the slot, and any other has
-- none. With a lock that does not answer 0x10 it returns -1 with the handler installed, and no drive,
-- no device and no task.
pub fd_init-drives :
    (drives lock : ℕ) (reads : List (ℕ × ℕ)) (coming : List Interrupt) (errno : ℕ)
    → drives / 2 ^ 4 < 8
    → drives % 2 ^ 4 < 8
    → lock ≢ 0x10
    → (fd_init (answering 0x90 drives 0x10 reads coming errno)
        ≡ some (
          pos 0,
          (expected_driver (drives / 2 ^ 4) (drives % 2 ^ 4), started reads coming errno),
        ))
      × (fd_init (answering 0x90 drives lock reads coming errno)
          ≡ some (negsuc 0, (record no_driver { handler = true }, started reads coming errno)))
fd_init-drives drives lock reads coming errno h h' n =
    let refused : (lock == 0x10) ≡ false = ground arith in
    (
      fd_init-locked drives 0x10 reads coming errno ∙ rw (with_drives_lem drives h h') refl,
      fd_init-locked drives lock reads coming errno ∙ rw refused refl,
    )
