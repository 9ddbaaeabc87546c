-- ===== src/Floppy/Start.antt =====
-- `fd_init` and `fd_deinit` of bootloader/stage2/devices/floppy/floppy.c. The calls of other parts, to
-- install the handler of the interrupt, to register a device and to register the task of the timer,
-- are what the driver is left with.
pub mod Drives
mod Tests
use Prim.Native.Nat.{bit_and}
use dalek.Base.{
  ℕ, ◌+◌, ◌*◌, ◌/◌, ◌%◌, ◌^◌, Bool, true, false, Option, none, some, List, [], ◌∷◌, ◌++◌, ◌==◌,
  if◌then◌else◌, get_elem?, set, replicate,
}
use dalek.Base.Int.{ℤ, pos, negsuc}
use dalek.Base.Fault.{◌>>=◌}
use dalek.Strings.Text.{c_string}
use dalek.Floppy.{FloppyGeometry, floppy_unsupported, drive_geometry, Floppy}
use dalek.Floppy.Motor.{Effect, fd_motor_off}
use dalek.Floppy.Controller.{
  Controller, inportb, send, pause, fd_send_byte, fd_recv_byte, fd_configure, fd_primary_base,
  fd_version, fd_lock, fd_unlock,
}
use dalek.Floppy.Calibrate.{fd_reset}

abbrev pub drive_types : List (List ℕ)
drive_types =
    c_string "none"
    ∷ c_string "360kB 5.25\""
    ∷ c_string "1.2MB 5.25\""
    ∷ c_string "720kB 3.5\""
    ∷ c_string "1.44MB 3.5\""
    ∷ c_string "2.88MB 3.5\""
    ∷ c_string "unknown type"
    ∷ c_string "unknown type"
    ∷ []

-- A device that was registered: its name, its description, its drive and its number for the BIOS. Its
-- methods are those of `fd_device_bind_methods`.
pub record Registered : Type 0 where
  pub name : List ℕ
  pub description : List ℕ
  pub unit : ℕ
  pub id : ℕ

-- What the driver is left with: the drives, the devices in the order in which they were registered, and
-- whether the handler is installed and the task is registered.
pub record Driver : Type 0 where
  pub units : List Floppy
  pub devices : List Registered
  pub handler : Bool
  pub task : Bool

-- A drive with zeroes in it and no number.
abbrev pub no_drive : Floppy
no_drive = record {
  geometry = floppy_unsupported;
  motor_state = 0;
  motor_ticks = 0;
  base = 0;
  drive_number = 0xFF;
  n_blocks = 0;
  block = 0;
}

abbrev pub no_driver : Driver
no_driver = record { units = no_drive ∷ no_drive ∷ []; devices = []; handler = false; task = false }

-- The drive of a slot.
abbrev pub drive_of : ℕ → FloppyGeometry → Floppy
drive_of slot g = record {
  geometry = g;
  motor_state = fd_motor_off;
  motor_ticks = 0;
  base = fd_primary_base;
  drive_number = slot;
  n_blocks = g.spt * g.tracks * g.heads % 2 ^ 32;
  block = 0;
}

abbrev pub with_drive : ℕ → List ℕ → List ℕ → FloppyGeometry → Driver → Driver
with_drive slot name description g d = record d {
  units = set d.units slot (drive_of slot g);
  devices =
      d.devices ++ (record { name = name; description = description; unit = slot; id = slot } ∷ []);
}

-- One slot, by the type that the CMOS gives; `none` is a type outside the tables.
unfoldable pub with_slot : ℕ → List ℕ → ℕ → Driver → Option Driver
with_slot slot name type d =
    if type == 0
    then some d
    else (get_elem? drive_geometry type >>= λ g. get_elem? drive_types type >>= λ description.
        some (if g.heads == 0 then d else with_drive slot name description g d))

-- The drives that the CMOS names, and the task.
unfoldable pub with_drives : ℕ → Driver → Option Driver
with_drives drives d = do
  d₁ ← with_slot 0 (c_string "fd0") (drives / 2 ^ 4) d
  d₂ ← with_slot 1 (c_string "fd1") (drives % 2 ^ 4) d₁
  some (record d₂ { task = true })

-- Behind the answer to the lock.
abbrev pub locked : ℕ → ℕ × Controller → Driver → Option (ℤ × (Driver × Controller))
locked drives (v, c) d =
    if v == 0x10
    then (with_drives drives d >>= λ d'. some (pos 0, (d', c)))
    else some (negsuc 0, (d, c))

-- Behind the answer to the version: a reset that fails is only logged.
unfoldable pub start_controller : Controller → Option (ℤ × (Driver × Controller))
start_controller c = do
  (drives, c₁) ← inportb 0x71 (send 0x70 0x10 c)
  (r, c₂) ← fd_reset fd_primary_base c₁
  answer ←
      fd_recv_byte fd_primary_base
        (fd_send_byte fd_primary_base fd_lock (fd_configure fd_primary_base 1 1 0 8 0 c₂))
  locked drives answer (record no_driver { handler = true })

unfoldable pub fd_init : Controller → Option (ℤ × (Driver × Controller))
fd_init c = do
  (version, c₁) ← fd_recv_byte fd_primary_base (fd_send_byte fd_primary_base fd_version c)
  if version == 0x90 then start_controller c₁ else some (negsuc 0, (no_driver, c₁))

unfoldable pub fd_deinit : Controller → Option (ℤ × Controller)
fd_deinit c = do
  c₁ ← pause 500 (send fd_primary_base 0x0c c)
  (r, c₂) ←
      fd_reset fd_primary_base
        (fd_send_byte fd_primary_base fd_unlock (fd_configure fd_primary_base 0 0 1 1 0 c₁))
  c₃ ← pause 500 c₂
  some (pos 0, c₃)
