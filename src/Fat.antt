-- ===== src/Fat.antt =====
-- bootloader/stage2/filesystems/fat/fat.c and fat.h: what `fat_get_handle` makes of the first sector of a
-- device, up to the allocation of the table. The sector is the record of its fields.
pub mod Layout
pub mod Sector
mod Tests
use dalek.Base.{
  ℕ, ◌+◌, ◌-◌, ◌*◌, ◌/◌, ◌%◌, ◌^◌, Bool, false, Option, none, some, ltb, ◌==◌, if◌then◌else◌,
}

abbrev pub fat_signature : ℕ
fat_signature = 0x29

-- `FatBS`, the fields that are read; the signatures are those of the two members of the union, which
-- stand at different places of the sector.
pub record FatBs : Type 0 where
  pub bytes_per_sec : ℕ
  pub sec_per_cluster : ℕ
  pub n_reserved_sec : ℕ
  pub n_fat : ℕ
  pub root_max_entries : ℕ
  pub n_sectors : ℕ
  pub sec_per_fat : ℕ
  pub large_amount_sectors : ℕ
  pub fat1x_signature : ℕ
  pub fat32_signature : ℕ

-- `fat_type`
pub data FatType : Type 0 where
  fat12 : FatType
  fat16 : FatType
  fat32 : FatType

-- `FSHandle` without the table; its numbers are `uint32_t`.
pub record FsHandle : Type 0 where
  pub fat_bs : FatBs
  pub fat_type : FatType
  pub root_dir_sec : ℕ
  pub data_sec : ℕ
  pub first_data_sec : ℕ
  pub n_clusters : ℕ
  pub fat_size : ℕ

-- The sectors in front of the root directory.
abbrev pub fat_end : FatBs → ℕ
fat_end bs = bs.n_reserved_sec + bs.n_fat * bs.sec_per_fat

unfoldable pub root_dir_sectors : FatBs → ℕ
root_dir_sectors bs = (bs.root_max_entries * 32 + (bs.bytes_per_sec - 1)) / bs.bytes_per_sec

-- The difference of two `int`, as a `uint32_t`.
unfoldable pub data_sectors : FatBs → ℕ
data_sectors bs = (bs.n_sectors + 2 ^ 32 - (fat_end bs + root_dir_sectors bs)) % 2 ^ 32

unfoldable pub type_of : ℕ → FatType
type_of n_clusters =
    if ltb n_clusters 4085 then fat12 else if ltb n_clusters 65525 then fat16 else fat32

-- The fields that are computed, the type last.
unfoldable pub handle_of : FatBs → FsHandle
handle_of bs = record {
  fat_bs = bs;
  fat_type = type_of (data_sectors bs / bs.sec_per_cluster);
  root_dir_sec = root_dir_sectors bs;
  data_sec = data_sectors bs;
  first_data_sec = fat_end bs;
  n_clusters = data_sectors bs / bs.sec_per_cluster;
  fat_size = bs.sec_per_fat * bs.bytes_per_sec % 2 ^ 32;
}

-- The signature is looked for where the type has it, and FAT32 is refused.
abbrev pub accepted : FatBs → FatType → Bool
accepted bs fat12 = bs.fat1x_signature == fat_signature
accepted bs fat16 = bs.fat1x_signature == fat_signature
accepted bs fat32 = false

-- The first part of `fat_get_handle`, with the sector if it was read; `none` is the null pointer.
unfoldable pub fat_identify : Option FatBs → Option FsHandle
fat_identify none = none
fat_identify (some bs) =
    if bs.bytes_per_sec == 0
    then none
    else if bs.sec_per_cluster == 0
    then none
    else if accepted bs (handle_of bs).fat_type
    then some (handle_of bs)
    else none
