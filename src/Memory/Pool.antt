-- ===== src/Memory/Pool.antt =====
-- The memory map and the start of the heap in bootloader/stage2/memory.c and include/boot.h:
-- `mm_get_memory_size` and `mm_initialize`. Pointers and `size_t` have 32 bits; a node of a block list
-- has 16 bytes.
use dalek.Base.{
  ℕ, ◌+◌, ◌-◌, ◌*◌, ◌%◌, ◌^◌, ◌≤◌, ◌<◌, ◌≡◌, refl, ap, ◌∙◌, Bool, true, false, Bool-cases, ◌&&◌,
  inl, inr, Option, none, some, List, [], ◌∷◌, ◌++◌, leb, ◌==◌, if◌then◌else◌, arith,
}

-- `SMAPEntry`
pub record SmapEntry : Type 0 where
  pub base : ℕ
  pub length : ℕ
  pub type : ℕ
  pub acpi : ℕ

abbrev pub smap_entry_type_usable : ℕ
smap_entry_type_usable = 1

abbrev pub smap_entry_is_usable : SmapEntry → Bool
smap_entry_is_usable ent = ent.acpi % 2 == 1 && ent.type == smap_entry_type_usable

-- `mm_get_memory_size`, from the size that is counted already, in a `uint64_t`.
unfoldable pub mm_get_memory_size : ℕ → List SmapEntry → ℕ
mm_get_memory_size mem_size [] = mem_size
mm_get_memory_size mem_size (ent ∷ entries) =
    mm_get_memory_size
      (if smap_entry_is_usable ent then (mem_size + ent.length) % 2 ^ 64 else mem_size) entries

-- `mm_size`, a `size_t`.
abbrev pub mm_size : ℕ → ℕ
mm_size mem_size = mem_size % 2 ^ 32

-- An entry that can be the pool.
abbrev pub is_pool : SmapEntry → Bool
is_pool ent = smap_entry_is_usable ent && leb 0x100000 ent.base

-- The loop of `mm_initialize`: `mem_pool`.
unfoldable pub find_pool : Option SmapEntry → List SmapEntry → Option SmapEntry
find_pool pool [] = pool
find_pool pool (ent ∷ entries) = find_pool (if is_pool ent then some ent else pool) entries

-- `MemoryBlockNode`; 0 is the null pointer.
pub record MemoryBlockNode : Type 0 where
  pub start : ℕ
  pub prev : ℕ
  pub next : ℕ
  pub size : ℕ

abbrev pub node_size : ℕ
node_size = 16

-- The nodes by their addresses, which do not overlap, the two lists and `mem_pool`.
pub record Heap : Type 0 where
  pub nodes : ℕ → MemoryBlockNode
  pub mem_free_blocks_list : ℕ
  pub mem_used_blocks_list : ℕ
  pub mem_pool : SmapEntry

abbrev pub write_node : (ℕ → MemoryBlockNode) → ℕ → MemoryBlockNode → ℕ → MemoryBlockNode
write_node nodes p node a = if a == p then node else nodes a

-- The heap in a pool. The distances are in nodes: 16 nodes, 256 bytes, each time.
unfoldable pub heap_in : (ℕ → MemoryBlockNode) → SmapEntry → Heap
heap_in nodes pool =
    let used = pool.base % 2 ^ 32 in
    let free_blocks = (used + node_size * node_size) % 2 ^ 32 in
    let start = (free_blocks + node_size * node_size) % 2 ^ 32 in
    record {
      nodes =
          write_node
            (write_node nodes used (record { start = used; prev = 0; next = 0; size = node_size }))
            free_blocks
            (record {
              start = start;
              prev = 0;
              next = 0;
              size = (pool.length % 2 ^ 32 + 2 ^ 32 - start) % 2 ^ 32;
            });
      mem_free_blocks_list = free_blocks;
      mem_used_blocks_list = used;
      mem_pool = pool;
    }

abbrev pub heap_of : (ℕ → MemoryBlockNode) → Option SmapEntry → Option Heap
heap_of nodes none = none
heap_of nodes (some pool) = some (heap_in nodes pool)

-- `mm_initialize`: the size of the memory and the heap; `none` is the panic.
unfoldable pub mm_initialize : (ℕ → MemoryBlockNode) → List SmapEntry → ℕ × Option Heap
mm_initialize nodes entries = (mm_get_memory_size 0 entries, heap_of nodes (find_pool none entries))

-- No entry can be the pool.
abbrev pub no_pool : List SmapEntry → Bool
no_pool [] = true
no_pool (ent ∷ entries) = (if is_pool ent then false else true) && no_pool entries

find_pool-none :
    (pool : Option SmapEntry) (entries : List SmapEntry)
    → no_pool entries ≡ true
    → find_pool pool entries ≡ pool
unfolding find_pool
find_pool-none pool [] h = refl
find_pool-none pool (ent ∷ entries) h = elim (Bool-cases (is_pool ent)) [
  | inl taken ↦ ground arith
  | inr passed ↦ rw passed (find_pool-none pool entries (ground arith))
]

find_pool-last :
    (pool : Option SmapEntry) (before : List SmapEntry) (ent : SmapEntry) (after : List SmapEntry)
    → is_pool ent ≡ true
    → no_pool after ≡ true
    → find_pool pool (before ++ (ent ∷ after)) ≡ some ent
unfolding find_pool
find_pool-last pool [] ent after h g =
    let taken : (if is_pool ent then some ent else pool) ≡ some ent = rw h refl in
    ap (λ o. find_pool o after) taken ∙ find_pool-none (some ent) after g
find_pool-last pool (e ∷ before) ent after h g =
    find_pool-last (if is_pool e then some e else pool) before ent after h g

-- The pool is the last usable entry from 1 MB on, whatever entries stand before it.
pub mm_initialize-pool :
    (nodes : ℕ → MemoryBlockNode) (before : List SmapEntry) (ent : SmapEntry)
    (after : List SmapEntry)
    → is_pool ent ≡ true
    → no_pool after ≡ true
    → (mm_initialize nodes (before ++ (ent ∷ after))).1 ≡ some (heap_in nodes ent)
unfolding mm_initialize
mm_initialize-pool nodes before ent after h g =
    ap (heap_of nodes) (find_pool-last none before ent after h g)

-- The free block begins 512 bytes into the pool and ends at the address that is the pool's length, not
-- at the pool's end; when the pool is shorter than its own address and 512 bytes, the free block wraps
-- around the end of the address space.
pub heap_in-free_block :
    (nodes : ℕ → MemoryBlockNode) (pool : SmapEntry)
    → pool.base + pool.length < 2 ^ 32
    → 512 ≤ pool.length
    → let h = heap_in nodes pool in
      let block = h.nodes h.mem_free_blocks_list in
      (block.start ≡ pool.base + 512)
      × (block.start + block.size
          ≡ (if leb (pool.base + 512) pool.length then pool.length else 2 ^ 32 + pool.length))
unfolding heap_in
heap_in-free_block nodes pool h l = ground arith
