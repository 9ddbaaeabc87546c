-- ===== src/Floppy/Seek.antt =====
-- `fd_seek` of bootloader/stage2/devices/floppy/floppy.c.
use dalek.Base.{
  ℕ, suc, ◌+◌, ◌-◌, ◌*◌, ◌/◌, ◌%◌, ◌^◌, ◌≤◌, ◌<◌, ◌≡◌, ◌≢◌, ap, Bool, true, ltb, leb, ◌==◌,
  if◌then◌else◌, arith,
}
use dalek.Base.Int.{ℤ, pos, negsuc, pos_part, neg_part}
use dalek.Errno.{einval}
use dalek.Floppy.{Floppy}

-- The whence values of bootloader/stage2/include/io.h.
abbrev pub seek_set : ℕ
seek_set = 0

abbrev pub seek_cur : ℕ
seek_cur = 1

abbrev pub seek_end : ℕ
seek_end = 2

-- What a call leaves and returns.
pub record Sought : Type 0 where
  pub device : Floppy
  pub errno : ℕ
  pub result : ℤ

-- `offset % 512` is 0.
aligned : ℤ → Bool
aligned (pos n) = n % 512 == 0
aligned (negsuc n) = suc n % 512 == 0

-- `offset / 512`, which rounds towards 0.
block_offset : ℤ → ℤ
block_offset (pos n) = pos (n / 512)
block_offset (negsuc n) = if suc n / 512 == 0 then pos 0 else negsuc (suc n / 512 - 1)

-- A signed number as a `uint32_t`, and back.
to_u32 : ℤ → ℕ
to_u32 (pos n) = n % 2 ^ 32
to_u32 (negsuc n) = (2 ^ 32 - suc n % 2 ^ 32) % 2 ^ 32

to_s32 : ℕ → ℤ
to_s32 n = if ltb n (2 ^ 31) then pos n else negsuc (2 ^ 32 - n - 1)

new_block : Floppy → ℤ → ℕ → ℕ
new_block fd k whence =
    if whence == seek_set
    then to_u32 k
    else if whence == seek_cur
    then (fd.block + to_u32 k) % 2 ^ 32
    else (fd.n_blocks + to_u32 k) % 2 ^ 32

unfoldable pub fd_seek : Floppy → ℕ → ℤ → ℕ → Sought
unfolding aligned block_offset new_block to_u32 to_s32
fd_seek fd errno offset whence =
    if aligned offset
    then (let k = block_offset offset in
        let b = new_block fd k whence in
        if fd.block == b
        then record { device = fd; errno = errno; result = k }
        else if leb fd.n_blocks b
        then record { device = fd; errno = einval; result = negsuc 0 }
        else record { device = record fd { block = b }; errno = errno; result = to_s32 b })
    else record { device = fd; errno = einval; result = negsuc 0 }

-- An offset of `k` blocks, in bytes.
abbrev pub bytes_of : ℤ → ℤ
bytes_of (pos n) = pos (512 * n)
bytes_of (negsuc n) = negsuc (512 * n + 511)

-- The block that a seek is relative to.
abbrev pub origin : Floppy → ℕ → ℕ
origin fd whence =
    if whence == seek_set then 0 else if whence == seek_cur then fd.block else fd.n_blocks

-- A drive whose blocks can be numbered by an `off_t`, and whose position is on it or just behind it.
pub record IsFloppy (fd : Floppy) : Type 0 where
  pub small : fd.n_blocks < 2 ^ 31
  pub inside : fd.block ≤ fd.n_blocks

-- An offset that is no multiple of 512 is refused, and nothing moves.
pub fd_seek-unaligned :
    (fd : Floppy) (errno whence : ℕ) (offset : ℤ)
    → (pos_part offset + neg_part offset) % 512 ≢ 0
    → fd_seek fd errno offset whence ≡ record { device = fd; errno = einval; result = negsuc 0 }
unfolding fd_seek
fd_seek-unaligned fd errno whence (pos n) h = ground arith
fd_seek-unaligned fd errno whence (negsuc n) h = ground arith

aligned-bytes_of : (k : ℤ) → aligned (bytes_of k) ≡ true
unfolding aligned
aligned-bytes_of (pos n) = ground arith
aligned-bytes_of (negsuc n) = ground arith

block_offset-bytes_of : (k : ℤ) → block_offset (bytes_of k) ≡ k
unfolding block_offset
block_offset-bytes_of (pos n) = ap pos (omega arith)
block_offset-bytes_of (negsuc n) = ground arith

-- The 32-bit sum names the block `t` exactly when the true sum is `t`.
new_block-origin :
    (fd : Floppy) (whence t : ℕ) (k : ℤ)
    → IsFloppy fd
    → pos_part k + neg_part k ≤ 2 ^ 22
    → origin fd whence + pos_part k ≡ t + neg_part k
    → new_block fd k whence ≡ t
unfolding new_block to_u32
new_block-origin fd whence t (pos n) v b e = ground arith
new_block-origin fd whence t (negsuc n) v b e = ground arith

new_block-before :
    (fd : Floppy) (whence : ℕ) (k : ℤ)
    → IsFloppy fd
    → pos_part k + neg_part k ≤ 2 ^ 22
    → origin fd whence + pos_part k < neg_part k
    → 2 ^ 31 ≤ new_block fd k whence
unfolding new_block to_u32
new_block-before fd whence (pos n) v b e = ground arith
new_block-before fd whence (negsuc n) v b e = ground arith

module _ {fd : Floppy} (v : IsFloppy fd) (errno whence : ℕ) (k : ℤ)
    (small : pos_part k + neg_part k ≤ 2 ^ 22) where
  -- A seek to the block `t`, the origin of `whence` plus `k`, goes there if the disk has that block
  -- and returns its number; it is refused and moves nothing if the disk has not; and if the position
  -- is `t` already it succeeds and returns `k`, the distance, whatever the origin.
  pub fd_seek-target :
      (t : ℕ)
      → origin fd whence + pos_part k ≡ t + neg_part k
      → fd_seek fd errno (bytes_of k) whence ≡ (
          if fd.block == t
          then record { device = fd; errno = errno; result = k }
          else if ltb t fd.n_blocks
          then record { device = record fd { block = t }; errno = errno; result = pos t }
          else record { device = fd; errno = einval; result = negsuc 0 })
  unfolding fd_seek
  fd_seek-target t e =
      rw (aligned-bytes_of k, block_offset-bytes_of k, new_block-origin fd whence t k v small e)
        (ground arith)

  -- A seek to a place before the first block is refused, and moves nothing.
  pub fd_seek-before :
      origin fd whence + pos_part k < neg_part k
      → fd_seek fd errno (bytes_of k) whence
        ≡ record { device = fd; errno = einval; result = negsuc 0 }
  unfolding fd_seek
  fd_seek-before e =
      rw (aligned-bytes_of k, block_offset-bytes_of k)
        (ground (arith, new_block-before fd whence k v small e))

-- Whatever the arguments, a seek leaves the position on the disk or just behind it.
pub fd_seek-IsFloppy :
    {fd : Floppy} (errno whence : ℕ) (offset : ℤ)
    → IsFloppy fd
    → IsFloppy (fd_seek fd errno offset whence).device
unfolding fd_seek
fd_seek-IsFloppy errno whence offset v = ground arith
