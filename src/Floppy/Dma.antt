-- ===== src/Floppy/Dma.antt =====
-- `fd_setup_dma` of bootloader/stage2/devices/floppy/floppy.c: the checks before the DMA controller
-- is programmed, and what is written to it.
use dalek.Base.{
  ℕ, ◌+◌, ◌-◌, ◌*◌, ◌/◌, ◌%◌, ◌^◌, ◌≤◌, ◌<◌, ◌≡◌, ◌↔◌, ◌≢◌, Bool, ltb, if◌then◌else◌, arith, Option,
  none, some, List, [], ◌∷◌,
}

-- Byte `k` of the union.
abbrev pub byte : ℕ → ℕ → ℕ
byte v k = v / 256 ^ k % 256

-- The ports of bootloader/stage2/include/dma.h.
abbrev dma_chan2_address : ℕ
dma_chan2_address = 0x04

abbrev dma_chan2_count : ℕ
dma_chan2_count = 0x05

abbrev dma_single_channel_mask : ℕ
dma_single_channel_mask = 0x0a

abbrev dma_flip_flop : ℕ
dma_flip_flop = 0x0c

abbrev dma_mode : ℕ
dma_mode = 0x0d

abbrev dma_chan2_page_address : ℕ
dma_chan2_page_address = 0x81

-- The port writes of the set up, or `none` for a panic. The buffer is its 32-bit address.
unfoldable pub fd_setup_dma : ℕ → ℕ → Bool → Option (List (ℕ × ℕ))
fd_setup_dma buffer nbytes write =
    let length = (nbytes + 2 ^ 32 - 1) % 2 ^ 32 in
    if ltb 0 (buffer / 2 ^ 24)
    then none
    else if ltb 0 (length / 2 ^ 16)
    then none
    else if ltb 0 ((buffer % 2 ^ 16 + length) % 2 ^ 32 / 2 ^ 16)
    then none
    else some (
        (dma_single_channel_mask, 0x06)
        ∷ (dma_flip_flop, 0xff)
        ∷ (dma_chan2_address, byte buffer 0)
        ∷ (dma_chan2_address, byte buffer 1)
        ∷ (dma_chan2_page_address, byte buffer 2)
        ∷ (dma_flip_flop, 0xff)
        ∷ (dma_chan2_count, byte length 0)
        ∷ (dma_chan2_count, byte length 1)
        ∷ (dma_mode, if write then 0x4a else 0x46)
        ∷ (dma_single_channel_mask, 0x02)
        ∷ [])

-- The buffer fits the controller: 24 address bits, at most 64 KB, and no 64 KB page is crossed.
abbrev pub Fits : ℕ → ℕ → Type 0
Fits buffer nbytes =
    (buffer < 2 ^ 24) × (0 < nbytes) × (nbytes ≤ 2 ^ 16) × (buffer % 2 ^ 16 + nbytes ≤ 2 ^ 16)

-- The value last written to each port, as the controller puts the bytes together: the low and the
-- high byte go to the same port, behind the reset of the flip-flop.
abbrev pub address_of : List (ℕ × ℕ) → Option ℕ
address_of (_ ∷ _ ∷ (_, low) ∷ (_, high) ∷ (_, page) ∷ r) = some (low + 256 * high + 65536 * page)
address_of _ = none

abbrev pub count_of : List (ℕ × ℕ) → Option ℕ
count_of (_ ∷ _ ∷ _ ∷ _ ∷ _ ∷ _ ∷ (_, low) ∷ (_, high) ∷ r) = some (low + 256 * high)
count_of _ = none

-- The set up panics exactly when the buffer does not fit the controller.
pub fd_setup_dma-none_iff :
    (buffer nbytes : ℕ) (write : Bool)
    → buffer < 2 ^ 32
    → nbytes < 2 ^ 32
    → (fd_setup_dma buffer nbytes write ≢ none) ↔ Fits buffer nbytes
unfolding fd_setup_dma
fd_setup_dma-none_iff buffer nbytes write h g = (λ n. ground arith, λ n. ground arith)

-- And otherwise the bytes that it writes make up the address of the buffer and the size less 1.
pub fd_setup_dma-programmed :
    (buffer nbytes : ℕ) (write : Bool) {ws : List (ℕ × ℕ)}
    → buffer < 2 ^ 32
    → nbytes < 2 ^ 32
    → fd_setup_dma buffer nbytes write ≡ some ws
    → (address_of ws ≡ some buffer) × (count_of ws ≡ some (nbytes - 1))
unfolding fd_setup_dma
fd_setup_dma-programmed buffer nbytes write h g e = ground arith
