-- ===== src/Fat/Layout.antt =====
-- The layout that bootloader/stage2/filesystems/fat/fat.c computes.
use native.Mathlib.Nat.{div-add-mod, mod-lt, div-lt_iff_lt-mul}
use dalek.Base.{
  ℕ, ◌+◌, ◌-◌, ◌*◌, ◌/◌, ◌%◌, ◌^◌, ◌≤◌, ◌<◌, ◌≡◌, refl, ap, false, none, some, ◌==◌, arith,
}
use dalek.Fat.{
  FatBs, fat32, fat_end, root_dir_sectors, data_sectors, type_of, handle_of, accepted, fat_identify,
}

-- The fields fit their places in the sector.
pub record IsBootSector (bs : FatBs) : Type 0 where
  pub some_bytes : 0 < bs.bytes_per_sec
  pub some_sectors : 0 < bs.sec_per_cluster
  pub bytes_16 : bs.bytes_per_sec < 2 ^ 16
  pub cluster_8 : bs.sec_per_cluster < 2 ^ 8
  pub reserved_16 : bs.n_reserved_sec < 2 ^ 16
  pub n_fat_8 : bs.n_fat < 2 ^ 8
  pub entries_16 : bs.root_max_entries < 2 ^ 16
  pub n_sectors_16 : bs.n_sectors < 2 ^ 16
  pub fat_16 : bs.sec_per_fat < 2 ^ 16

-- The root directory has room for its entries, and not for a sector more.
root_dir_sectors-room :
    {bs : FatBs}
    → IsBootSector bs
    → (32 * bs.root_max_entries ≤ bs.bytes_per_sec * root_dir_sectors bs)
      × (bs.bytes_per_sec * root_dir_sectors bs < 32 * bs.root_max_entries + bs.bytes_per_sec)
unfolding root_dir_sectors
root_dir_sectors-room {bs} v =
    let n = bs.root_max_entries * 32 + (bs.bytes_per_sec - 1) in
    let split = div-add-mod n bs.bytes_per_sec in
    let below = mod-lt n v.some_bytes in
    (omega (arith, split, below, v.some_bytes), omega (arith, split, below, v.some_bytes))

-- When the sectors of the volume are enough for what stands in front of the data, the parts fill the
-- volume: the reserved sectors, the tables, a root directory that is just large enough, and the data,
-- which has as many whole clusters as fit.
pub handle_of-layout :
    {bs : FatBs}
    → IsBootSector bs
    → fat_end bs + root_dir_sectors bs ≤ bs.n_sectors
    → let h = handle_of bs in
      (h.first_data_sec + h.root_dir_sec + h.data_sec ≡ bs.n_sectors)
      × (32 * bs.root_max_entries ≤ bs.bytes_per_sec * h.root_dir_sec)
      × (bs.bytes_per_sec * h.root_dir_sec < 32 * bs.root_max_entries + bs.bytes_per_sec)
      × (bs.sec_per_cluster * h.n_clusters ≤ h.data_sec)
      × (h.data_sec < bs.sec_per_cluster * h.n_clusters + bs.sec_per_cluster)
unfolding handle_of data_sectors
handle_of-layout {bs} v fits =
    let (room, tight) = root_dir_sectors-room v in
    let bytes = (bs.n_sectors + 2 ^ 32 - (fat_end bs + root_dir_sectors bs)) % 2 ^ 32 in
    let split = div-add-mod bytes bs.sec_per_cluster in
    let below = mod-lt bytes v.some_sectors in
    (
      omega (arith, fits, v.n_sectors_16),
      room,
      tight,
      omega (arith, split),
      omega (arith, split, below),
    )

product_below : (a b : ℕ) → a < 2 ^ 8 → b < 2 ^ 16 → a * b ≤ 2 ^ 24
product_below a b h g = grind arith

root_dir_sectors-below : {bs : FatBs} → IsBootSector bs → root_dir_sectors bs < 2 ^ 22
unfolding root_dir_sectors
root_dir_sectors-below {bs} v =
    let (room, tight) = root_dir_sectors-room v in
    (div-lt_iff_lt-mul v.some_bytes).1 (grind (arith, v.some_bytes, v.bytes_16, v.entries_16))

clusters_above : (sectors c : ℕ) → 0 < c → c < 2 ^ 8 → 2 ^ 31 ≤ sectors → 65525 ≤ sectors / c
clusters_above sectors c h g l = grind (arith, div-add-mod sectors c, mod-lt sectors h)

-- A volume that says its size in the large field, with 0 in the small one, is taken for FAT32 whatever it
-- is, and refused.
pub fat_identify-large :
    {bs : FatBs}
    → IsBootSector bs
    → bs.n_sectors ≡ 0
    → 0 < bs.n_reserved_sec
    → ((handle_of bs).fat_type ≡ fat32) × (fat_identify (some bs) ≡ none)
unfolding handle_of fat_identify type_of data_sectors
fat_identify-large {bs} v zero_sectors reserved =
    let tables = product_below bs.n_fat bs.sec_per_fat v.n_fat_8 v.fat_16 in
    let root = root_dir_sectors-below v in
    let wrapped : 2 ^ 31 ≤ data_sectors bs = omega (arith, tables, root, v.reserved_16) in
    let many =
      clusters_above (data_sectors bs) bs.sec_per_cluster v.some_sectors v.cluster_8 wrapped in
    let large : type_of (data_sectors bs / bs.sec_per_cluster) ≡ fat32 = ground (arith, many) in
    let bytes : (bs.bytes_per_sec == 0) ≡ false = ground (arith, v.some_bytes) in
    let clusters : (bs.sec_per_cluster == 0) ≡ false = ground (arith, v.some_sectors) in
    let refused : accepted bs (type_of (data_sectors bs / bs.sec_per_cluster)) ≡ false =
      ap (accepted bs) large in
    (large, rw (bytes, clusters, refused) refl)
