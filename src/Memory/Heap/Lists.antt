-- ===== src/Memory/Heap/Lists.antt =====
-- The walks over the lists of blocks of bootloader/stage2/memory.c, on lists that end.
use dalek.Base.{
  ℕ, zero, suc, ◌+◌, ◌%◌, ◌^◌, ◌<◌, ◌≡◌, refl, inl, inr, false, Bool-cases, some, List, [], ◌∷◌,
  ltb, ◌==◌, if◌then◌else◌, length, arith,
}
use dalek.Memory.Pool.{node_size, Heap}
use dalek.Memory.Heap.{find_free, malloc, take_block, used_from, mm_allocatable_used}

-- From `p` on the list has the nodes `ns` and ends.
abbrev pub Chain : Heap → ℕ → List ℕ → Type 0
Chain h p [] = p ≡ 0
Chain h p (a ∷ ns) = (p ≡ a) × (0 < a) × Chain h (h.nodes a).next ns

-- The first of the nodes with so many bytes, or 0.
abbrev pub first_fit : Heap → ℕ → List ℕ → ℕ
first_fit h block_size [] = 0
first_fit h block_size (a ∷ ns) =
    if ltb (h.nodes a).size block_size then first_fit h block_size ns else a

-- The sum of the sizes, in a `uint32_t`.
abbrev pub total_of : Heap → ℕ → List ℕ → ℕ
total_of h total [] = total
total_of h total (a ∷ ns) = total_of h ((total + (h.nodes a).size) % 2 ^ 32) ns

find_free-first :
    (fuel : ℕ) (h : Heap) (block_size p : ℕ) (ns : List ℕ)
    → Chain h p ns
    → length ns < fuel
    → find_free fuel h block_size p ≡ some (first_fit h block_size ns)
unfolding find_free
find_free-first zero h block_size p ns c l = absurd (omega arith)
find_free-first (suc fuel) h block_size p [] c l = rw c refl
find_free-first (suc fuel) h block_size p (a ∷ ns) (e, pos_a, c) l =
    let rest = find_free-first fuel h block_size (h.nodes a).next ns c (omega arith) in
    let live : (a == 0) ≡ false = ground arith in
    elim (Bool-cases (ltb (h.nodes a).size block_size)) [
      | inl small ↦ rw (e, live, small) rest
      | inr fits ↦ rw (e, live, fits) refl
    ]

-- With fuel for the list of free blocks, `malloc` takes the first free block that has room for the
-- bytes and a node; if none has, it returns null and changes nothing.
pub malloc-first_fit :
    (fuel : ℕ) (h : Heap) (size : ℕ) (ns : List ℕ)
    → Chain h h.mem_free_blocks_list ns
    → length ns < fuel
    → let block_size = (size + node_size) % 2 ^ 32 in
      let p = first_fit h block_size ns in
      malloc fuel h size ≡ some (if p == 0 then (h, 0) else take_block h block_size p)
unfolding malloc
malloc-first_fit fuel h size ns c l =
    let block_size = (size + node_size) % 2 ^ 32 in
    let p = first_fit h block_size ns in
    rw (find_free-first fuel h block_size h.mem_free_blocks_list ns c l)
      (elim (Bool-cases (p == 0)) [ inl null ↦ rw null refl | inr found ↦ rw found refl ])

used_from-total :
    (fuel : ℕ) (h : Heap) (s p : ℕ) (ns : List ℕ)
    → Chain h p ns
    → length ns < fuel
    → used_from fuel h s p ≡ some (total_of h s ns)
unfolding used_from
used_from-total zero h s p ns c l = absurd (omega arith)
used_from-total (suc fuel) h s p [] c l = rw c refl
used_from-total (suc fuel) h s p (a ∷ ns) (e, pos_a, c) l =
    let live : (a == 0) ≡ false = ground arith in
    rw (e, live)
      (used_from-total fuel h ((s + (h.nodes a).size) % 2 ^ 32) (h.nodes a).next ns c (omega arith))

-- With fuel for the list of used blocks, `mm_allocatable_used` is the sum of their sizes.
pub mm_allocatable_used-total :
    (fuel : ℕ) (h : Heap) (ns : List ℕ)
    → Chain h h.mem_used_blocks_list ns
    → length ns < fuel
    → mm_allocatable_used fuel h ≡ some (total_of h 0 ns)
unfolding mm_allocatable_used
mm_allocatable_used-total fuel h ns c l = used_from-total fuel h 0 h.mem_used_blocks_list ns c l
