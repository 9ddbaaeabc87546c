-- ===== src/Memory/Heap.antt =====
-- The allocator of bootloader/stage2/memory.c: `malloc`, `free` and the totals. A list of blocks is
-- walked on fuel, since a broken list may have no end; `none` is a walk without one.
pub mod Lists
pub mod Allocate
pub mod Restore
use dalek.Base.{ℕ, zero, suc, ◌+◌, ◌-◌, ◌%◌, ◌^◌, Option, none, some, ltb, leb, ◌==◌, if◌then◌else◌}
use dalek.Base.Fault.{◌>>=◌}
use dalek.Memory.Pool.{MemoryBlockNode, node_size, Heap, write_node}

-- A field of the node at an address is written; the null pointer is an address like any other.
abbrev pub with_nodes : Heap → (ℕ → MemoryBlockNode) → Heap
with_nodes h nodes = record h { nodes = nodes }

abbrev pub set_next : Heap → ℕ → ℕ → Heap
set_next h p v = with_nodes h (write_node h.nodes p (record (h.nodes p) { next = v }))

abbrev pub set_prev : Heap → ℕ → ℕ → Heap
set_prev h p v = with_nodes h (write_node h.nodes p (record (h.nodes p) { prev = v }))

-- The search of `malloc`: the first node from `p` on with so many bytes, or null.
unfoldable pub find_free : ℕ → Heap → ℕ → ℕ → Option ℕ
find_free zero h block_size p = none
find_free (suc fuel) h block_size p =
    let rest = find_free fuel h block_size (h.nodes p).next in
    if p == 0 then some 0 else if ltb (h.nodes p).size block_size then rest else some p

-- What `malloc` does with the node `p` that it found: the new heap and the address. The size is a
-- `size_t`, so that the test for a size below 0 never holds, and the node stays in the list.
unfoldable pub take_block : Heap → ℕ → ℕ → Heap × ℕ
take_block h block_size p =
    let used_node = (h.nodes p).start in
    let old = h.mem_used_blocks_list in
    let inserted = record h {
      nodes =
          write_node h.nodes used_node
            (record { start = used_node; prev = 0; next = old; size = block_size });
      mem_used_blocks_list = used_node;
    } in
    let linked = if old == 0 then inserted else set_prev inserted old used_node in
    let reduced = with_nodes linked (
      write_node linked.nodes p (record (linked.nodes p) {
        size = ((linked.nodes p).size + 2 ^ 32 - block_size) % 2 ^ 32;
        start = ((linked.nodes p).start + block_size) % 2 ^ 32;
      })) in
    (reduced, ((reduced.nodes used_node).start + node_size) % 2 ^ 32)

-- The null pointer is 0.
unfoldable pub malloc : ℕ → Heap → ℕ → Option (Heap × ℕ)
malloc fuel h size = do
  let block_size = (size + node_size) % 2 ^ 32
  p ← find_free fuel h block_size h.mem_free_blocks_list
  if p == 0 then some (h, 0) else some (take_block h block_size p)

-- The search of `free`: the first node from `p` on that starts at `offset`, or null.
unfoldable pub find_used : ℕ → Heap → ℕ → ℕ → Option ℕ
find_used zero h offset p = none
find_used (suc fuel) h offset p =
    let rest = find_used fuel h offset (h.nodes p).next in
    if p == 0 then some 0 else if (h.nodes p).start == offset then some p else rest

-- A node is taken out of the list of used blocks.
unfoldable pub unlink : Heap → ℕ → Heap
unlink h p =
    let prev = (h.nodes p).prev in
    let next = (h.nodes p).next in
    let out =
      if prev == 0 then record h { mem_used_blocks_list = next } else set_next h prev next in
    if (out.nodes p).next == 0 then out else set_prev out (out.nodes p).next (out.nodes p).prev

-- The block behind the node's bytes.
abbrev pub end_of : MemoryBlockNode → ℕ
end_of node = (node.start + node.size) % 2 ^ 32

-- The merge of `free`: the free node at `q` or behind it that the block of `p` touches takes its bytes.
-- The inner `none` is no such node.
unfoldable pub merge : ℕ → Heap → ℕ → ℕ → Option (Option Heap)
merge zero h p q = none
merge (suc fuel) h p q =
    let rest = merge fuel h p (h.nodes q).next in
    let grown = record (h.nodes q) { size = ((h.nodes q).size + (h.nodes p).size) % 2 ^ 32 } in
    if q == 0
    then some none
    else if end_of (h.nodes q) == (h.nodes p).start
    then some (some (with_nodes h (write_node h.nodes q grown)))
    else if end_of (h.nodes p) == (h.nodes q).start
    then some
        (some (with_nodes h (write_node h.nodes q (record grown { start = (h.nodes p).start }))))
    else rest

-- The new free node, at the address that `malloc` gave.
unfoldable pub add_free : Heap → ℕ → ℕ → Heap
add_free h p free_node =
    let filled = with_nodes h (
      write_node h.nodes free_node (record {
        start = (h.nodes p).start;
        size = (h.nodes p).size;
        prev = 0;
        next = h.mem_free_blocks_list;
      })) in
    record filled { mem_free_blocks_list = free_node }

-- What `free` does with the node `p` that it found.
unfoldable pub free_block : ℕ → Heap → ℕ → Option Heap
free_block fuel h p = do
  let out = unlink h p
  merged ← merge fuel out p out.mem_free_blocks_list
  elim merged [
    | some done ↦ some done
    | none ↦ (do (h', q) ← malloc fuel out node_size; some (add_free h' p q))
  ]

unfoldable pub free : ℕ → Heap → ℕ → Option Heap
free fuel h ptr = do
  p ← find_used fuel h ((ptr + 2 ^ 32 - node_size) % 2 ^ 32) h.mem_used_blocks_list
  if p == 0 then some h else free_block fuel h p

-- `mm_allocatable_free` from `p` on: the total and the biggest.
unfoldable pub allocatable : ℕ → Heap → ℕ → ℕ → ℕ → Option (ℕ × ℕ)
allocatable zero h total biggest p = none
allocatable (suc fuel) h total biggest p =
    let size = (h.nodes p).size in
    let rest =
      allocatable fuel h ((total + size) % 2 ^ 32) (if ltb biggest size then size else biggest)
        (h.nodes p).next in
    if p == 0 then some (total, biggest) else rest

unfoldable pub mm_allocatable_free : ℕ → Heap → Option (ℕ × ℕ)
mm_allocatable_free fuel h = allocatable fuel h 0 0 h.mem_free_blocks_list

-- The loop of `mm_allocatable_used`.
unfoldable pub used_from : ℕ → Heap → ℕ → ℕ → Option ℕ
used_from zero h s p = none
used_from (suc fuel) h s p =
    let rest = used_from fuel h ((s + (h.nodes p).size) % 2 ^ 32) (h.nodes p).next in
    if p == 0 then some s else rest

unfoldable pub mm_allocatable_used : ℕ → Heap → Option ℕ
mm_allocatable_used fuel h = used_from fuel h 0 h.mem_used_blocks_list

-- The pool's base, as a pointer.
abbrev pub mm_allocatable_start : Heap → ℕ
mm_allocatable_start h = h.mem_pool.base % 2 ^ 32
