-- ===== src/Floppy/Geometry.antt =====
-- Blocks and sectors of bootloader/stage2/devices/floppy/floppy.c: `fd_block2hcs`.
use native.Mathlib.Nat.{div-add-mod, mod-lt, mul-add-mod_self_left, div-lt_iff_lt-mul}
use native.Mathlib.Decide.{dec_lt}
use dalek.Base.{ℕ, ◌+◌, ◌-◌, ◌*◌, ◌/◌, ◌%◌, ◌^◌, ◌≤◌, ◌<◌, ◌≡◌, ap, ◌∙◌, arith}
use dalek.Floppy.{FloppyGeometry}

-- Head, track and sector. Sectors are counted from 1.
pub record Hcs : Type 0 where
  pub head : ℕ
  pub track : ℕ
  pub sector : ℕ

-- `fd_block2hcs`: `uint32_t` arithmetic, in which the product wraps.
unfoldable pub fd_block2hcs : FloppyGeometry → ℕ → Hcs
fd_block2hcs g block = record {
  head = block % (g.spt * g.heads % 2 ^ 32) / g.spt;
  track = block / (g.spt * g.heads % 2 ^ 32);
  sector = block % g.spt + 1;
}

-- A geometry with sectors, whose cylinder does not overflow.
pub record IsGeometry (g : FloppyGeometry) : Type 0 where
  pub some_heads : 0 < g.heads
  pub some_spt : 0 < g.spt
  pub small : g.spt * g.heads < 2 ^ 32

-- The block of a sector: sectors run fastest, then heads, then tracks.
abbrev pub block_of : FloppyGeometry → Hcs → ℕ
block_of g p = (p.track * g.heads + p.head) * g.spt + (p.sector - 1)

-- The two remainders of a block, by the cylinder and by the track, agree on the sector.
mod-cylinder : (s h n : ℕ) → n % s ≡ n % (s * h) % s
mod-cylinder s h n =
    ap (λ k. k % s) (omega (arith, div-add-mod n (s * h)))
    ∙ mul-add-mod_self_left s (h * (n / (s * h))) (n % (s * h))

split_block : (s h n : ℕ) → (n / (s * h) * h + n % (s * h) / s) * s + n % s ≡ n
split_block s h n =
    omega (arith, div-add-mod n (s * h), div-add-mod (n % (s * h)) s, mod-cylinder s h n)

-- Every block of the disk has a head, a track and a sector in range, and is the block of that sector.
pub fd_block2hcs-block_of :
    (g : FloppyGeometry) (block : ℕ)
    → IsGeometry g
    → block < g.tracks * (g.spt * g.heads)
    → let p = fd_block2hcs g block in
      (p.head < g.heads)
      × (p.track < g.tracks)
      × (1 ≤ p.sector)
      × (p.sector ≤ g.spt)
      × (block_of g p ≡ block)
unfolding fd_block2hcs
fd_block2hcs-block_of g block v h =
    let wrap : g.spt * g.heads % 2 ^ 32 ≡ g.spt * g.heads = omega arith in
    let cylinder : 0 < g.spt * g.heads = grind arith in
    rw wrap (
      (div-lt_iff_lt-mul v.some_spt).1 (omega (arith, mod-lt block cylinder)),
      (div-lt_iff_lt-mul cylinder).1 h,
      omega arith,
      omega (arith, mod-lt block v.some_spt),
      omega (arith, split_block g.spt g.heads block),
    )

radix_le : (s x y u : ℕ) → x < y → u < s → x * s + u < y * s
radix_le s x y u h l = grind arith

radix_unique : (s x u y w : ℕ) → u < s → w < s → x * s + u ≡ y * s + w → (x ≡ y) × (u ≡ w)
radix_unique s x u y w hu hw e = elim (dec_lt x y) [
  | yes less ↦ absurd (omega (arith, radix_le s x y u less hu))
  | no not_less ↦ elim (dec_lt y x) [
    | yes more ↦ absurd (omega (arith, radix_le s y x w more hw))
    | no not_more ↦ let same : x ≡ y = omega arith in (same, omega (arith, ap (λ k. k * s) same))
  ]
]

Hcs-eq : (p q : Hcs) → p.head ≡ q.head → p.track ≡ q.track → p.sector ≡ q.sector → p ≡ q
Hcs-eq p q h t s = λ i. record { head = h i; track = t i; sector = s i }

-- Two sectors in range with one block are the same sector.
pub block_of_injective :
    (g : FloppyGeometry) (p q : Hcs)
    → p.head < g.heads
    → q.head < g.heads
    → (1 ≤ p.sector) × (p.sector ≤ g.spt)
    → (1 ≤ q.sector) × (q.sector ≤ g.spt)
    → block_of g p ≡ block_of g q
    → p ≡ q
block_of_injective g p q hp hq sp sq e =
    let (cylinders, sectors) =
      radix_unique g.spt (p.track * g.heads + p.head) (p.sector - 1) (q.track * g.heads + q.head)
        (q.sector - 1) (omega arith) (omega arith) e in
    let (tracks, heads) = radix_unique g.heads p.track p.head q.track q.head hp hq cylinders in
    Hcs-eq p q heads tracks (omega arith)
