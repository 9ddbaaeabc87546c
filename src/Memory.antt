-- ===== src/Memory.antt =====
-- bootloader/stage2/memory.c and memory.h: bytes, block operations, the pool and the heap.
pub mod Blocks
pub mod Pool
pub mod Heap
mod Tests
use dalek.Base.{ℕ, ◌==◌, if◌then◌else◌}

-- Main memory: the byte at every address.
abbrev pub Memory : Type 0
Memory = ℕ → ℕ

-- `*p = v`.
abbrev pub poke : Memory → ℕ → ℕ → Memory
poke m p v a = if a == p then v else m a
