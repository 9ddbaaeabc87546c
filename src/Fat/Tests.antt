-- ===== src/Fat/Tests.antt =====
-- The layout of a floppy disk, and the theorems at it.
use dalek.Base.{ℕ, List, [], ◌∷◌, ◌++◌, replicate, ◌+◌, ◌*◌, ◌≤◌, ◌<◌, ◌≡◌, refl, none, some, arith}
use dalek.Fat.Sector.{fat_bs_of, u16_at, u32_at}
use dalek.Fat.{FatBs, fat32, handle_of, data_sectors, root_dir_sectors, type_of, fat_identify}
use dalek.Fat.Layout.{IsBootSector, handle_of-layout, fat_identify-large}

-- The first sector of a 1.44 MB disk.
abbrev floppy_disk : FatBs
floppy_disk = record {
  bytes_per_sec = 512;
  sec_per_cluster = 1;
  n_reserved_sec = 1;
  n_fat = 2;
  root_max_entries = 224;
  n_sectors = 2880;
  sec_per_fat = 9;
  large_amount_sectors = 0;
  fat1x_signature = 0x29;
  fat32_signature = 0;
}

floppy_disk-IsBootSector : IsBootSector floppy_disk
floppy_disk-IsBootSector = omega arith

root_sectors : root_dir_sectors floppy_disk ≡ 14
unfolding root_dir_sectors
root_sectors = refl

handle_of-layout_instance :
    let h = handle_of floppy_disk in
    (h.first_data_sec + h.root_dir_sec + h.data_sec ≡ 2880)
    × (7168 ≤ 512 * h.root_dir_sec)
    × (512 * h.root_dir_sec < 7680)
    × (1 * h.n_clusters ≤ h.data_sec)
    × (h.data_sec < 1 * h.n_clusters + 1)
handle_of-layout_instance =
    handle_of-layout {bs = floppy_disk} floppy_disk-IsBootSector (omega (arith, root_sectors))

identified : fat_identify (some floppy_disk) ≡ some (handle_of floppy_disk)
unfolding fat_identify handle_of data_sectors root_dir_sectors type_of
identified = refl

-- The same disk with its size in the large field.
abbrev large_disk : FatBs
large_disk = record floppy_disk { n_sectors = 0; large_amount_sectors = 2880 }

large_disk-IsBootSector : IsBootSector large_disk
large_disk-IsBootSector = omega arith

fat_identify-large_example :
    ((handle_of large_disk).fat_type ≡ fat32) × (fat_identify (some large_disk) ≡ none)
fat_identify-large_example = fat_identify-large large_disk-IsBootSector refl (omega arith)

-- What stands in the first sector of a floppy disk.
abbrev floppy_sector : List ℕ
floppy_sector =
    (0xEB ∷ 0x3C ∷ 0x90 ∷ replicate 8 0x20)
    ++ ((0x00 ∷ 0x02 ∷ 0x01 ∷ 0x01 ∷ 0x00 ∷ 0x02 ∷ 0xE0 ∷ 0x00 ∷ 0x40 ∷ 0x0B ∷ 0xF0 ∷ 0x09 ∷ 0x00
          ∷ [])
        ++ (replicate 14 0 ++ (0x29 ∷ replicate 473 0)))

decoded : fat_bs_of floppy_sector ≡ some floppy_disk
unfolding fat_bs_of u16_at u32_at
decoded = refl
