-- ===== src/Memory/Blocks.antt =====
-- `memset` and `memcpy` of bootloader/stage2/memory.c. No block reaches the end of the address space,
-- so that a pointer behind it does not wrap.
use dalek.Base.{ℕ, zero, suc, ◌+◌, ◌-◌, ◌≤◌, ◌≡◌, ◌⊎◌, ◌&&◌, ltb, leb, if◌then◌else◌, arith}
use dalek.Memory.{Memory, poke}

unfoldable pub memset : Memory → ℕ → ℕ → ℕ → Memory
memset m p val zero = m
memset m p val (suc count) = memset (poke m p val) (p + 1) val count

unfoldable pub memcpy : Memory → ℕ → ℕ → ℕ → Memory
memcpy m pd ps zero = m
memcpy m pd ps (suc count) = memcpy (poke m pd (m ps)) (pd + 1) (ps + 1) count

-- Every byte of the block has the value, and no other byte changes.
pub memset_lem :
    (m : Memory) (dest val count a : ℕ)
    → memset m dest val count a ≡ (if leb dest a && ltb a (dest + count) then val else m a)
unfolding memset
memset_lem m dest val zero a = ground arith
memset_lem m dest val (suc count) a =
    ground (arith, memset_lem (poke m dest val) (dest + 1) val count a)

-- When the destination starts at or before the source, or behind its end, the destination takes the
-- bytes that the source had, and no other byte changes; the blocks may overlap.
pub memcpy-copied :
    (m : Memory) (dest src count a : ℕ)
    → (dest ≤ src) ⊎ (src + count ≤ dest)
    → memcpy m dest src count a
      ≡ (if leb dest a && ltb a (dest + count) then m (src + (a - dest)) else m a)
unfolding memcpy
memcpy-copied m dest src zero a h = ground arith
memcpy-copied m dest src (suc count) a h =
    ground (arith, memcpy-copied (poke m dest (m src)) (dest + 1) (src + 1) count a)
