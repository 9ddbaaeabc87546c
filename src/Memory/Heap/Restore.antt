-- ===== src/Memory/Heap/Restore.antt =====
-- The round trip of `malloc` and `free` in bootloader/stage2/memory.c, on a heap with one free block.
use dalek.Base.{
  ℕ, suc, ◌+◌, ◌-◌, ◌%◌, ◌^◌, ◌≤◌, ◌<◌, ◌≡◌, ◌≢◌, ◌⊎◌, inl, inr, refl, sym, ap, ◌∙◌, true, false,
  some, ◌==◌, arith,
}
use dalek.Memory.Pool.{MemoryBlockNode, node_size, Heap, write_node}
use dalek.Memory.Heap.Allocate.{HasRoom, take_block_lem}
use dalek.Memory.Heap.{
  take_block, malloc, free, find_free, find_used, unlink, merge, end_of, free_block,
}

-- A heap with one free block, as it is after the start, and any used ones; no node is in front of the
-- first used one.
pub record IsSingle (h : Heap) (block_size : ℕ) : Type 0 where
  pub has_room : HasRoom h block_size h.mem_free_blocks_list
  pub free_node : 0 < h.mem_free_blocks_list
  pub last : (h.nodes h.mem_free_blocks_list).next ≡ 0
  pub used_head : (h.mem_used_blocks_list ≡ 0) ⊎ ((h.nodes h.mem_used_blocks_list).prev ≡ 0)

taken : Heap → ℕ → Heap
taken h block_size = (take_block h block_size h.mem_free_blocks_list).0

find_free-single :
    {h : Heap} {block_size : ℕ} (fuel : ℕ)
    → IsSingle h block_size
    → find_free (suc fuel) h block_size h.mem_free_blocks_list ≡ some h.mem_free_blocks_list
unfolding find_free
find_free-single fuel v = ground (arith, v.has_room.room, v.free_node)

find_used-taken :
    {h : Heap} {block_size : ℕ} (fuel : ℕ)
    → IsSingle h block_size
    → find_used
        (suc fuel)
        (taken h block_size)
        (h.nodes h.mem_free_blocks_list).start
        (taken h block_size).mem_used_blocks_list
      ≡ some (h.nodes h.mem_free_blocks_list).start
unfolding find_used take_block taken
find_used-taken fuel v = ground arith

-- The heap with the block out of the used list again.
unlinked : Heap → ℕ → Heap
unlinked h block_size = unlink (taken h block_size) (h.nodes h.mem_free_blocks_list).start

unlinked_lem :
    {h : Heap} {block_size : ℕ}
    → IsSingle h block_size
    → node_size ≤ block_size
    → let start = (h.nodes h.mem_free_blocks_list).start in
      let out = unlinked h block_size in
      (out.mem_used_blocks_list ≡ h.mem_used_blocks_list)
      × (out.mem_free_blocks_list ≡ h.mem_free_blocks_list)
      × ((out.nodes start).start ≡ start)
      × ((out.nodes start).size ≡ block_size)
      × (out.nodes h.mem_free_blocks_list ≡ record (h.nodes h.mem_free_blocks_list) {
        start = start + block_size;
        size = (h.nodes h.mem_free_blocks_list).size - block_size;
      })
unfolding unlinked unlink take_block taken
unlinked_lem v l = ground arith

node_path :
    (a b : MemoryBlockNode)
    → a.start ≡ b.start
    → a.prev ≡ b.prev
    → a.next ≡ b.next
    → a.size ≡ b.size
    → a ≡ b
node_path a b s p n z = λ i. record { start = s i; prev = p i; next = n i; size = z i }

unlinked-start :
    (h : Heap) (block_size a : ℕ)
    → a ≢ (h.nodes h.mem_free_blocks_list).start
    → a ≢ h.mem_free_blocks_list
    → ((unlinked h block_size).nodes a).start ≡ (h.nodes a).start
unfolding unlinked unlink take_block taken
unlinked-start h block_size a m n = ground arith

unlinked-next :
    {h : Heap} {block_size : ℕ} (a : ℕ)
    → IsSingle h block_size
    → a ≢ (h.nodes h.mem_free_blocks_list).start
    → a ≢ h.mem_free_blocks_list
    → ((unlinked h block_size).nodes a).next ≡ (h.nodes a).next
unfolding unlinked unlink take_block taken
unlinked-next a v m n = ground arith

unlinked-size :
    (h : Heap) (block_size a : ℕ)
    → a ≢ (h.nodes h.mem_free_blocks_list).start
    → a ≢ h.mem_free_blocks_list
    → ((unlinked h block_size).nodes a).size ≡ (h.nodes a).size
unfolding unlinked unlink take_block taken
unlinked-size h block_size a m n = ground arith

unlinked-prev :
    {h : Heap} {block_size : ℕ} (a : ℕ)
    → IsSingle h block_size
    → a ≢ (h.nodes h.mem_free_blocks_list).start
    → a ≢ h.mem_free_blocks_list
    → ((unlinked h block_size).nodes a).prev ≡ (h.nodes a).prev
unfolding unlinked unlink take_block taken
unlinked-prev a v m n = ground arith

-- No other node is changed, so that the first used one has none in front of it again.
unlinked-kept :
    {h : Heap} {block_size : ℕ} (a : ℕ)
    → IsSingle h block_size
    → a ≢ (h.nodes h.mem_free_blocks_list).start
    → a ≢ h.mem_free_blocks_list
    → (unlinked h block_size).nodes a ≡ h.nodes a
unlinked-kept {h} {block_size} a v m n =
    node_path ((unlinked h block_size).nodes a) (h.nodes a) (unlinked-start h block_size a m n)
      (unlinked-prev a v m n) (unlinked-next a v m n) (unlinked-size h block_size a m n)

write_node-kept :
    (nodes : ℕ → MemoryBlockNode) (q a : ℕ) (node : MemoryBlockNode)
    → (a ≡ q) ⊎ (write_node nodes q node a ≡ nodes a)
write_node-kept nodes q a node = ground arith

-- A merge with the block in front.
merge-front :
    (fuel : ℕ) (h : Heap) (p q a : ℕ)
    → 0 < q
    → (h.nodes p).start + (h.nodes p).size ≡ (h.nodes q).start
    → (h.nodes q).start + (h.nodes q).size < 2 ^ 32
    → 0 < (h.nodes p).size
    → (h' : Heap) × (merge (suc fuel) h p q ≡ some (some h'))
      × (h'.mem_used_blocks_list ≡ h.mem_used_blocks_list)
      × (h'.mem_free_blocks_list ≡ h.mem_free_blocks_list)
      × (h'.nodes q ≡ record (h.nodes q) {
        start = (h.nodes p).start;
        size = (h.nodes q).size + (h.nodes p).size;
      })
      × ((a ≡ q) ⊎ (h'.nodes a ≡ h.nodes a))
unfolding merge
merge-front fuel h p q a pos_q touch inside pos_size =
    let live : (q == 0) ≡ false = ground arith in
    let not_behind : (end_of (h.nodes q) == (h.nodes p).start) ≡ false = ground arith in
    let front : (end_of (h.nodes p) == (h.nodes q).start) ≡ true = ground arith in
    (
      record h {
        nodes = write_node h.nodes q (record (h.nodes q) {
          start = (h.nodes p).start;
          size = ((h.nodes q).size + (h.nodes p).size) % 2 ^ 32;
        });
      },
      rw (live, not_behind, front) refl,
      refl,
      refl,
      ground arith,
      write_node-kept h.nodes q a (record (h.nodes q) {
        start = (h.nodes p).start;
        size = ((h.nodes q).size + (h.nodes p).size) % 2 ^ 32;
      }),
    )

free_block-merged :
    (fuel : ℕ) (h : Heap) (p : ℕ) (h' : Heap)
    → merge fuel (unlink h p) p (unlink h p).mem_free_blocks_list ≡ some (some h')
    → free_block fuel h p ≡ some h'
unfolding free_block
free_block-merged fuel h p h' e = rw e refl

-- What a heap has in common with the one before the block was taken.
abbrev pub Restored : Heap → Heap → Type 0
Restored h h' =
    (h'.mem_used_blocks_list ≡ h.mem_used_blocks_list)
    × (h'.mem_free_blocks_list ≡ h.mem_free_blocks_list)
    × (h'.nodes h.mem_free_blocks_list ≡ h.nodes h.mem_free_blocks_list)

kept_node :
    (h' h out : Heap) (q a : ℕ)
    → h'.nodes q ≡ h.nodes q
    → (a ≢ q → out.nodes a ≡ h.nodes a)
    → (a ≡ q) ⊎ (h'.nodes a ≡ out.nodes a)
    → h'.nodes a ≡ h.nodes a
kept_node h' h out q a whole other kept =
    let same_or : (a ≡ q) ⊎ (a ≢ q) = ground arith in
    elim same_or [
      | inl e ↦ ap h'.nodes e ∙ whole ∙ ap h.nodes (sym e)
      | inr n ↦ elim kept [ inl e ↦ absurd (n e) | inr k ↦ k ∙ other n ]
    ]

free_block-taken :
    {h : Heap} {block_size : ℕ} (fuel a : ℕ)
    → IsSingle h block_size
    → node_size ≤ block_size
    → a ≢ (h.nodes h.mem_free_blocks_list).start
    → (h' : Heap) × (free_block
          (suc fuel)
          (taken h block_size)
          (h.nodes h.mem_free_blocks_list).start
        ≡ some h')
      × Restored h h'
      × (h'.nodes a ≡ h.nodes a)
unfolding unlinked
free_block-taken {h} {block_size} fuel a v l m =
    let (used, free_list, start, size, node) = unlinked_lem v l in
    let q = h.mem_free_blocks_list in
    let p = (h.nodes q).start in
    let out = unlinked h block_size in
    let touch : (out.nodes p).start + (out.nodes p).size ≡ (out.nodes q).start =
      omega (arith, start, size, ap MemoryBlockNode.start node) in
    let inside : (out.nodes q).start + (out.nodes q).size < 2 ^ 32 = omega (
      arith,
      ap MemoryBlockNode.start node,
      ap MemoryBlockNode.size node,
      v.has_room.inside,
      v.has_room.room,
    ) in
    let (h', e, used', free_list', node', kept) =
      merge-front fuel out p q a v.free_node touch inside (omega (arith, size)) in
    let whole : h'.nodes q ≡ h.nodes q =
      node_path (h'.nodes q) (h.nodes q) (ap MemoryBlockNode.start node' ∙ start)
        (ap MemoryBlockNode.prev node' ∙ ap MemoryBlockNode.prev node)
        (ap MemoryBlockNode.next node' ∙ ap MemoryBlockNode.next node)
        (omega (
          arith,
          ap MemoryBlockNode.size node',
          ap MemoryBlockNode.size node,
          size,
          v.has_room.room,
        )) in
    (
      h',
      free_block-merged (suc fuel) (taken h block_size) p h'
          (ap (λ k. merge (suc fuel) out p k) free_list ∙ e),
      (used' ∙ used, free_list' ∙ free_list, whole),
      kept_node h' h out q a whole (λ n. unlinked-kept a v m n) kept,
    )

malloc-found :
    (fuel : ℕ) (h : Heap) (size p : ℕ)
    → find_free fuel h ((size + node_size) % 2 ^ 32) h.mem_free_blocks_list ≡ some p
    → 0 < p
    → malloc fuel h size ≡ some (take_block h ((size + node_size) % 2 ^ 32) p)
unfolding malloc
malloc-found fuel h size p e l = let live : (p == 0) ≡ false = ground arith in rw (e, live) refl

free-found :
    (fuel : ℕ) (h : Heap) (ptr p : ℕ)
    → find_used fuel h ((ptr + 2 ^ 32 - node_size) % 2 ^ 32) h.mem_used_blocks_list ≡ some p
    → 0 < p
    → free fuel h ptr ≡ free_block fuel h p
unfolding free
free-found fuel h ptr p e l = let live : (p == 0) ≡ false = ground arith in rw (e, live) refl

-- On a heap with one free block, in which no node is in front of the first used one, freeing what
-- `malloc` gave restores the heads of both lists, the node of the free block, and every node that does
-- not stand where the free block started, so also the first used one. The block fits, and the nodes are
-- different ones.
pub malloc-free :
    {h : Heap} (size fuel node : ℕ)
    → IsSingle h ((size + node_size) % 2 ^ 32)
    → size + node_size < 2 ^ 32
    → node ≢ (h.nodes h.mem_free_blocks_list).start
    → (t : Heap) × (address : ℕ) × (h' : Heap) × (malloc (suc fuel) h size ≡ some (t, address))
      × (free (suc fuel) t address ≡ some h')
      × Restored h h'
      × (h'.nodes node ≡ h.nodes node)
unfolding taken
malloc-free {h} size fuel node v fits other =
    let block_size = (size + node_size) % 2 ^ 32 in
    let large : node_size ≤ block_size = omega arith in
    let (h', e, restored, kept) = free_block-taken fuel node v large other in
    let p = (h.nodes h.mem_free_blocks_list).start in
    let block = take_block h block_size h.mem_free_blocks_list in
    let (address, head, free_head, used_node, free_node) = take_block_lem v.has_room large in
    let offset : (block.1 + 2 ^ 32 - node_size) % 2 ^ 32 ≡ p =
      omega (arith, address, v.has_room.inside) in
    let found =
      ap
        (λ k. find_used (suc fuel) (taken h block_size) k (taken h block_size).mem_used_blocks_list)
        offset
      ∙ find_used-taken fuel v in
    (
      taken h block_size,
      block.1,
      h',
      malloc-found (suc fuel) h size h.mem_free_blocks_list (find_free-single fuel v) v.free_node,
      free-found (suc fuel) (taken h block_size) block.1 p found v.has_room.block_start ∙ e,
      restored,
      kept,
    )
