-- ===== src/Fat/Sector.antt =====
-- How `fat_get_handle` of bootloader/stage2/filesystems/fat/fat.c reads the first sector of a device,
-- and the layout of the sector in fat.h.
use dalek.Base.{◌≡◌, refl, ℕ, ◌+◌, ◌*◌, ◌^◌, Option, none, some, List, if◌then◌else◌, get_elem?}
use dalek.Base.Int.{ℤ, pos, negsuc}
use dalek.Base.Fault.{◌>>=◌}
use dalek.Strings.Number.{is_negative}
use dalek.Io.{IoDevice, io_seek, io_read}
use dalek.Floppy.Seek.{seek_set}
use dalek.Fat.{FatBs, FsHandle, fat_identify}

-- Numbers of two and four bytes, the least significant byte first.
unfoldable pub u16_at : List ℕ → ℕ → Option ℕ
u16_at b i = do low ← get_elem? b i; high ← get_elem? b (i + 1); some (low + high * 2 ^ 8)

unfoldable pub u32_at : List ℕ → ℕ → Option ℕ
u32_at b i = do low ← u16_at b i; high ← u16_at b (i + 2); some (low + high * 2 ^ 16)

-- The fields of `FatBS`, which is packed, and the signatures of `Fat_1x_EBPB` and `Fat_32_EBPB`.
unfoldable pub fat_bs_of : List ℕ → Option FatBs
fat_bs_of b = do
  bytes_per_sec ← u16_at b 11
  sec_per_cluster ← get_elem? b 13
  n_reserved_sec ← u16_at b 14
  n_fat ← get_elem? b 16
  root_max_entries ← u16_at b 17
  n_sectors ← u16_at b 19
  sec_per_fat ← u16_at b 22
  large_amount_sectors ← u32_at b 32
  fat1x_signature ← get_elem? b 38
  fat32_signature ← get_elem? b 62
  some (record {
    bytes_per_sec = bytes_per_sec;
    sec_per_cluster = sec_per_cluster;
    n_reserved_sec = n_reserved_sec;
    n_fat = n_fat;
    root_max_entries = root_max_entries;
    n_sectors = n_sectors;
    sec_per_fat = sec_per_fat;
    large_amount_sectors = large_amount_sectors;
    fat1x_signature = fat1x_signature;
    fat32_signature = fat32_signature;
  })

module _ {State : Type 0} where
  abbrev pub sector_read : ℤ × (List ℕ × (State × ℕ)) → Option (List ℕ) × (State × ℕ)
  sector_read (r, (bytes, s)) = if is_negative r then (none, s) else (some bytes, s)

  abbrev pub sector_sought :
      ℤ × (State × ℕ) → (State × ℕ → Option (List ℕ) × (State × ℕ)) → Option (List ℕ) × (State × ℕ)
  sector_sought (r, s) next = if is_negative r then (none, s) else next s

  -- The bytes of `fh.fat_bs`, with what the stack held there; `none` is a seek or a read that fails.
  unfoldable pub initial_sector :
      IoDevice State → List ℕ → State × ℕ → Option (List ℕ) × (State × ℕ)
  initial_sector dev unset s =
      sector_sought (io_seek (some dev) (pos 0, seek_set) s)
        (λ s'. sector_read (io_read (some dev) (unset, 512) s'))

  -- What the fields of a sector give. The outer `none` is a sector that is too short.
  abbrev pub identified : Option (List ℕ) × (State × ℕ) → Option (Option FsHandle × (State × ℕ))
  identified (none, s) = some (none, s)
  identified (some bytes, s) = fat_bs_of bytes >>= λ bs. some (fat_identify (some bs), s)

  -- `fat_get_handle` up to the allocation of the table.
  unfoldable pub identify :
      IoDevice State → List ℕ → State × ℕ → Option (Option FsHandle × (State × ℕ))
  identify dev unset s = identified (initial_sector dev unset s)

  -- With a seek and a read that succeed, the fields are those of the bytes that were read.
  pub identify-read :
      (dev : IoDevice State) (unset bytes : List ℕ) (bs : FatBs) (s s₁ s₂ : State × ℕ) (p n : ℕ)
      → io_seek (some dev) (pos 0, seek_set) s ≡ (pos p, s₁)
      → io_read (some dev) (unset, 512) s₁ ≡ (pos n, (bytes, s₂))
      → fat_bs_of bytes ≡ some bs
      → identify dev unset s ≡ some (fat_identify (some bs), s₂)
  unfolding identify initial_sector
  identify-read dev unset bytes bs s s₁ s₂ p n e e' d = rw (e, e', d) refl

  -- A seek or a read that fails gives no handle.
  pub identify-failed :
      (dev : IoDevice State) (unset bytes : List ℕ) (s s₁ s₂ s₃ : State × ℕ) (a b p : ℕ)
      (s' : State × ℕ)
      → io_seek (some dev) (pos 0, seek_set) s ≡ (negsuc a, s₁)
      → io_seek (some dev) (pos 0, seek_set) s' ≡ (pos p, s₂)
      → io_read (some dev) (unset, 512) s₂ ≡ (negsuc b, (bytes, s₃))
      → (identify dev unset s ≡ some (none, s₁)) × (identify dev unset s' ≡ some (none, s₃))
  unfolding identify initial_sector
  identify-failed dev unset bytes s s₁ s₂ s₃ a b p s' e e' e'' = (rw e refl, rw (e', e'') refl)
