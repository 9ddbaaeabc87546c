-- ===== src/Floppy.antt =====
-- The floppy driver, bootloader/stage2/devices/floppy/floppy.c and floppy.h.
pub mod Geometry
pub mod Seek
pub mod Status
pub mod Dma
pub mod Motor
pub mod Wait
pub mod Transfer
pub mod Controller
pub mod Calibrate
pub mod Start
mod Tests
use dalek.Base.{ℕ, List, [], ◌∷◌}

-- `FloppyGeometry`; `spt` is sectors per track.
pub record FloppyGeometry : Type 0 where
  pub heads : ℕ
  pub tracks : ℕ
  pub spt : ℕ
  pub block_size : ℕ

-- `FLOPPY_UNSUPPORTED`
abbrev pub floppy_unsupported : FloppyGeometry
floppy_unsupported = record { heads = 0; tracks = 0; spt = 0; block_size = 0 }

abbrev pub floppy_1_44 : FloppyGeometry
floppy_1_44 = record { heads = 2; tracks = 80; spt = 18; block_size = 512 }

-- `drive_geometry`, by the type that the CMOS gives: only 1.44 MB drives are supported.
abbrev pub drive_geometry : List FloppyGeometry
drive_geometry =
    floppy_unsupported ∷ floppy_unsupported ∷ floppy_unsupported ∷ floppy_unsupported ∷ floppy_1_44
    ∷ floppy_unsupported ∷ floppy_unsupported ∷ floppy_unsupported ∷ []

-- `Floppy`, a drive. `block` is the position.
pub record Floppy : Type 0 where
  pub geometry : FloppyGeometry
  pub motor_state : ℕ
  pub motor_ticks : ℕ
  pub base : ℕ
  pub drive_number : ℕ
  pub n_blocks : ℕ
  pub block : ℕ
