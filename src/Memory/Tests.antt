-- ===== src/Memory/Tests.antt =====
-- Memory at concrete inputs, and the theorems at them.
use dalek.Base.{ℕ, ◌+◌, ◌≡◌, refl, inl, some, [], ◌∷◌, ◌==◌, if◌then◌else◌, arith}
use dalek.Memory.{Memory}
use dalek.Memory.Blocks.{memcpy, memcpy-copied}
use dalek.Memory.Pool.{
  SmapEntry, MemoryBlockNode, Heap, mm_initialize, mm_get_memory_size, heap_in, mm_initialize-pool,
  heap_in-free_block,
}
use dalek.Memory.Heap.{
  malloc, free, take_block, mm_allocatable_used, mm_allocatable_free, allocatable,
}
use dalek.Memory.Heap.Lists.{malloc-first_fit, mm_allocatable_used-total}
use dalek.Memory.Heap.Restore.{IsSingle, Restored, malloc-free}

-- Every byte is its address.
abbrev counted : Memory
counted a = a

-- A copy to a place that overlaps the source.
memcpy-copied_instance : memcpy counted 10 12 5 13 ≡ 15
memcpy-copied_instance = memcpy-copied counted 10 12 5 13 (inl (omega arith))

-- Usable memory below 1 MB and 2 MB from there, and a reserved entry.
abbrev low_memory : SmapEntry
low_memory = record { base = 0; length = 0x9F000; type = 1; acpi = 1 }

abbrev high_memory : SmapEntry
high_memory = record { base = 0x100000; length = 0x200000; type = 1; acpi = 1 }

abbrev reserved : SmapEntry
reserved = record { base = 0x300000; length = 0x1000; type = 2; acpi = 1 }

abbrev no_nodes : ℕ → MemoryBlockNode
no_nodes a = record { start = 0; prev = 0; next = 0; size = 0 }

mm_initialize-pool_instance :
    (mm_initialize no_nodes (low_memory ∷ high_memory ∷ reserved ∷ [])).1
    ≡ some (heap_in no_nodes high_memory)
mm_initialize-pool_instance =
    mm_initialize-pool no_nodes (low_memory ∷ []) high_memory (reserved ∷ []) refl refl

memory_size : mm_get_memory_size 0 (low_memory ∷ high_memory ∷ reserved ∷ []) ≡ 0x29F000
unfolding mm_get_memory_size
memory_size = refl

heap_in-free_block_example :
    let h = heap_in no_nodes high_memory in
    let block = h.nodes h.mem_free_blocks_list in
    (block.start ≡ 0x100200) × (block.start + block.size ≡ 0x200000)
heap_in-free_block_example = heap_in-free_block no_nodes high_memory (omega arith) (omega arith)

-- A heap with one used and one free block.
abbrev small_heap : Heap
small_heap = record {
  nodes = λ a.
      if a == 100
      then record { start = 400; prev = 0; next = 0; size = 300 }
      else record { start = 16; prev = 0; next = 0; size = 16 };
  mem_free_blocks_list = 100;
  mem_used_blocks_list = 16;
  mem_pool = high_memory;
}

malloc-first_fit_instance : malloc 2 small_heap 20 ≡ some (take_block small_heap 36 100)
malloc-first_fit_instance =
    malloc-first_fit 2 small_heap 20 (100 ∷ []) (refl, omega arith, refl) (omega arith)

mm_allocatable_used-total_instance : mm_allocatable_used 2 small_heap ≡ some 16
mm_allocatable_used-total_instance =
    mm_allocatable_used-total 2 small_heap (16 ∷ []) (refl, omega arith, refl) (omega arith)

small_heap-IsSingle : IsSingle small_heap 36
small_heap-IsSingle = ground arith

malloc-free_example :
    (t : Heap) × (address : ℕ) × (h' : Heap) × (malloc 1 small_heap 20 ≡ some (t, address))
    × (free 1 t address ≡ some h')
    × Restored small_heap h'
    × (h'.nodes 16 ≡ small_heap.nodes 16)
malloc-free_example =
    malloc-free {h = small_heap} 20 0 16 small_heap-IsSingle (omega arith) (omega arith)

all_free : mm_allocatable_free 2 small_heap ≡ some (300, 300)
unfolding mm_allocatable_free allocatable
all_free = refl
