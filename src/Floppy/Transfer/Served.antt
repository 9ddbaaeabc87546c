-- ===== src/Floppy/Transfer/Served.antt =====
-- What a transfer of bootloader/stage2/devices/floppy/floppy.c asks of the hardware, block by block, and
-- where the bytes go.
use Prim.Native.Nat.{bit_or}
use dalek.Base.{
  ℕ, suc, ◌+◌, ◌-◌, ◌*◌, ◌/◌, ◌%◌, ◌^◌, ◌≤◌, ◌<◌, ◌≡◌, ◌⊎◌, inl, inr, refl, true, false, ◌&&◌, some,
  List, [], ◌∷◌, ◌++◌, leb, ltb, if◌then◌else◌, arith,
}
use dalek.Floppy.{Floppy, floppy_1_44}
use dalek.Floppy.Geometry.{fd_block2hcs}
use dalek.Floppy.Dma.{Fits, fd_setup_dma}
use dalek.Floppy.Motor.{Effect}
use dalek.Floppy.Transfer.{written, rw_command, copied}
use dalek.Floppy.Transfer.Answers.{Status, errno_of, attempt_effects}

-- The port writes that transfer a block of a 1.44 MB disk from a drive to a buffer: the address and the
-- size of the transfer, and the command with head, track and sector.
abbrev pub dma_of : ℕ → List (ℕ × ℕ)
dma_of buffer =
    (0x0a, 0x06)
    ∷ (0x0c, 0xff)
    ∷ (0x04, buffer % 256)
    ∷ (0x04, buffer / 256 % 256)
    ∷ (0x81, buffer / 65536 % 256)
    ∷ (0x0c, 0xff)
    ∷ (0x05, 0xff)
    ∷ (0x05, 0x01)
    ∷ (0x0d, 0x46)
    ∷ (0x0a, 0x02)
    ∷ []

abbrev pub read_of : ℕ → ℕ → ℕ → List (ℕ × ℕ)
read_of base drive block =
    (base + 5, 0xC6)
    ∷ (base + 5, bit_or (block / 18 % 2 * 4) drive % 256)
    ∷ (base + 5, block / 36)
    ∷ (base + 5, block / 18 % 2)
    ∷ (base + 5, block % 18 + 1)
    ∷ (base + 5, 2)
    ∷ (base + 5, 1)
    ∷ (base + 5, 27)
    ∷ (base + 5, 0xFF)
    ∷ []

-- The hardware answers the command for a block with the bytes of the block in the buffer.
abbrev pub Serves : (List Effect → ℕ → ℕ) → (ℕ → ℕ → ℕ) → ℕ → Floppy → Type 0
Serves contents disk dma_buffer fd =
    (done : List Effect) (block i : ℕ)
    → block < 2880
    → i < 512
    → contents
        (done ++ (written (dma_of dma_buffer) ++ written (read_of fd.base fd.drive_number block))) i
      ≡ disk block i

abbrev pub AllGood : List Status → Type 0
AllGood [] = Unit {0}
AllGood (a ∷ answers) = (errno_of a ≡ some 0) × AllGood answers

pub fd_setup_dma-Fits :
    (dma_buffer : ℕ)
    → Fits dma_buffer 512
    → fd_setup_dma dma_buffer 512 false ≡ some (dma_of dma_buffer)
unfolding fd_setup_dma
fd_setup_dma-Fits dma_buffer fits = ground arith

fd_block2hcs-numbers :
    (block : ℕ)
    → block < 2880
    → let p = fd_block2hcs floppy_1_44 block in
      (p.head ≡ block / 18 % 2)
      × (p.track % 2 ^ 8 ≡ block / 36)
      × (p.head % 2 ^ 8 ≡ block / 18 % 2)
      × (p.sector % 2 ^ 8 ≡ block % 18 + 1)
unfolding fd_block2hcs
fd_block2hcs-numbers block h = (omega arith, omega arith, omega arith, omega arith)

pub attempt_effects-read :
    (fd : Floppy) (dma_buffer : ℕ)
    → fd.geometry ≡ floppy_1_44
    → fd.block < 2880
    → attempt_effects fd (dma_of dma_buffer) false
      ≡ written (dma_of dma_buffer) ++ written (read_of fd.base fd.drive_number fd.block)
unfolding rw_command
attempt_effects-read fd dma_buffer g h =
    let (head, track, head', sector) = fd_block2hcs-numbers fd.block h in
    rw (g, head', track, sector, head) refl

-- A buffer with so many blocks of a disk from an offset on.
abbrev pub filled : (ℕ → ℕ → ℕ) → ℕ → ℕ → ℕ → (ℕ → ℕ) → ℕ → ℕ
filled disk block n offset buffer a =
    if leb offset a && ltb a (offset + 512 * n)
    then disk (block + (a - offset) / 512) ((a - offset) % 512)
    else buffer a

pub filled-start :
    (disk : ℕ → ℕ → ℕ) (block n : ℕ) (buffer : ℕ → ℕ) (a : ℕ)
    → filled disk block n 0 buffer a
      ≡ (if ltb a (512 * n) then disk (block + a / 512) (a % 512) else buffer a)
filled-start disk block n buffer a =
    let from : leb 0 a ≡ true = ground arith in
    let same : 0 + 512 * n ≡ 512 * n = omega arith in
    let whole : a - 0 ≡ a = omega arith in rw (from, same, whole) refl

pub filled-copied :
    (disk : ℕ → ℕ → ℕ) (block n offset : ℕ) (buffer source : ℕ → ℕ) (a : ℕ)
    → ((i : ℕ) → i < 512 → source i ≡ disk block i)
    → filled disk (block + 1) n (offset + 512) (copied buffer offset source) a
      ≡ filled disk block (suc n) offset buffer a
filled-copied disk block n offset buffer source a h =
    let region : (a < offset) ⊎ ((offset ≤ a) × (a < offset + 512)) ⊎ (offset + 512 ≤ a) =
      ground arith in
    elim region [
      | inl l ↦
          let below : leb (offset + 512) a ≡ false = ground arith in
          let below' : leb offset a ≡ false = ground arith in rw (below, below') refl
      | inr (inl (l, u)) ↦
          let below : leb (offset + 512) a ≡ false = ground arith in
          let from : leb offset a ≡ true = ground arith in
          let in_block : ltb a (offset + 512) ≡ true = ground arith in
          let in_all : ltb a (offset + 512 * suc n) ≡ true = ground arith in
          let first : block + (a - offset) / 512 ≡ block = omega arith in
          let byte : (a - offset) % 512 ≡ a - offset = omega arith in
          rw (below, from, in_block, in_all, first, byte) (h (a - offset) (omega arith))
      | inr (inr l) ↦
          let from : leb (offset + 512) a ≡ true = ground arith in
          let from' : leb offset a ≡ true = ground arith in
          let behind : ltb a (offset + 512) ≡ false = ground arith in
          let same : offset + 512 + 512 * n ≡ offset + 512 * suc n = omega arith in
          let next : block + 1 + (a - (offset + 512)) / 512 ≡ block + (a - offset) / 512 =
            omega arith in
          let byte : (a - (offset + 512)) % 512 ≡ (a - offset) % 512 = omega arith in
          rw (from, from', behind, same, next, byte) refl
    ]
