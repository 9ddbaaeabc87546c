-- ===== src/Memory/Heap/Allocate.antt =====
-- What `malloc` and `free` of bootloader/stage2/memory.c do to the blocks.
use dalek.Base.{ℕ, ◌+◌, ◌-◌, ◌^◌, ◌≤◌, ◌<◌, ◌≡◌, ◌≢◌, arith}
use dalek.Memory.Pool.{node_size, Heap}
use dalek.Memory.Heap.{take_block}

-- The free node `p` has room for a block, and the nodes that `malloc` writes are different ones.
pub record HasRoom (h : Heap) (block_size p : ℕ) : Type 0 where
  pub room : block_size ≤ (h.nodes p).size
  pub inside : (h.nodes p).start + (h.nodes p).size < 2 ^ 32
  pub block_start : 0 < (h.nodes p).start
  pub other_node : (h.nodes p).start ≢ p
  pub other_used : h.mem_used_blocks_list ≢ p
  pub other_block : h.mem_used_blocks_list ≢ (h.nodes p).start

-- The block is cut from the front of the free block: the address is 16 bytes into it, its node is the
-- first of the used ones and says where it stands and how long it is, and the free block is what stands
-- behind it.
pub take_block_lem :
    {h : Heap} {block_size p : ℕ}
    → HasRoom h block_size p
    → node_size ≤ block_size
    → let t = take_block h block_size p in
      let start = (h.nodes p).start in
      (t.1 ≡ start + node_size)
      × (t.0.mem_used_blocks_list ≡ start)
      × (t.0.mem_free_blocks_list ≡ h.mem_free_blocks_list)
      × (t.0.nodes start
          ≡ record { start = start; prev = 0; next = h.mem_used_blocks_list; size = block_size })
      × (t.0.nodes p
          ≡ record (h.nodes p) { start = start + block_size; size = (h.nodes p).size - block_size })
unfolding take_block
take_block_lem v l = ground arith
