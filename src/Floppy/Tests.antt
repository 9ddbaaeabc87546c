-- ===== src/Floppy/Tests.antt =====
-- The floppy driver at concrete inputs, and the theorems at them.
use dalek.Base.{ℕ, ◌-◌, ◌≤◌, ◌<◌, ◌≡◌, ◌≢◌, ◌↔◌, refl, false, none, some, List, [], ◌∷◌, arith}
use dalek.Base.Int.{pos}
use dalek.Errno.{eio}
use dalek.Floppy.{Floppy, floppy_1_44}
use dalek.Floppy.Geometry.{IsGeometry, block_of, fd_block2hcs, fd_block2hcs-block_of}
use dalek.Floppy.Seek.{IsFloppy, seek_cur, fd_seek, fd_seek-target}
use dalek.Floppy.Status.{fd_errno_mapping, fd_errno_mapping_lem}
use dalek.Floppy.Dma.{
  Fits, fd_setup_dma, address_of, count_of, fd_setup_dma-none_iff, fd_setup_dma-programmed,
}

floppy_1_44-IsGeometry : IsGeometry floppy_1_44
floppy_1_44-IsGeometry = omega arith

fd_block2hcs-block_of_example :
    let p = fd_block2hcs floppy_1_44 2879 in
    (p.head < 2)
    × (p.track < 80)
    × (1 ≤ p.sector)
    × (p.sector ≤ 18)
    × (block_of floppy_1_44 p ≡ 2879)
fd_block2hcs-block_of_example =
    fd_block2hcs-block_of floppy_1_44 2879 floppy_1_44-IsGeometry (omega arith)

last_sector : fd_block2hcs floppy_1_44 2879 ≡ record { head = 1; track = 79; sector = 18 }
unfolding fd_block2hcs
last_sector = refl

-- A 1.44 MB drive at block 7.
abbrev drive : Floppy
drive = record {
  geometry = floppy_1_44;
  motor_state = 0;
  motor_ticks = 0;
  base = 0x3f0;
  drive_number = 0;
  n_blocks = 2880;
  block = 7;
}

drive-IsFloppy : IsFloppy drive
drive-IsFloppy = omega arith

fd_seek-target_example :
    fd_seek drive 0 (pos 512) seek_cur
    ≡ record { device = record drive { block = 8 }; errno = 0; result = pos 8 }
fd_seek-target_example = fd_seek-target drive-IsFloppy 0 seek_cur (pos 1) (omega arith) 8 refl

-- A relative seek by 0 returns 0 and not the position.
stays : fd_seek drive 0 (pos 0) seek_cur ≡ record { device = drive; errno = 0; result = pos 0 }
unfolding fd_seek
stays = refl

fd_errno_mapping_lem_instance : fd_errno_mapping 0 0x20 0 2 ≡ some eio
fd_errno_mapping_lem_instance = fd_errno_mapping_lem 0 0x20 0 2

fd_setup_dma-none_iff_instance : (fd_setup_dma 0x18000 512 false ≢ none) ↔ Fits 0x18000 512
fd_setup_dma-none_iff_instance = fd_setup_dma-none_iff 0x18000 512 false (omega arith) (omega arith)

abbrev programmed : List (ℕ × ℕ)
programmed =
    (0x0a, 6)
    ∷ (0x0c, 0xff)
    ∷ (4, 0x34)
    ∷ (4, 0x12)
    ∷ (0x81, 0)
    ∷ (0x0c, 0xff)
    ∷ (5, 0xff)
    ∷ (5, 1)
    ∷ (0x0d, 0x46)
    ∷ (0x0a, 2)
    ∷ []

fd_setup_dma-programmed_instance :
    (address_of programmed ≡ some 0x1234) × (count_of programmed ≡ some (512 - 1))
unfolding fd_setup_dma
fd_setup_dma-programmed_instance =
    fd_setup_dma-programmed 0x1234 512 false {ws = programmed} (omega arith) (omega arith) refl
