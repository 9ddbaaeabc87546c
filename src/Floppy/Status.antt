-- ===== src/Floppy/Status.antt =====
-- `fd_errno_mapping` of bootloader/stage2/devices/floppy/floppy.c: what the three status bytes of a
-- transfer mean.
use dalek.Base.{
  ℕ, ◌/◌, ◌%◌, ◌^◌, ◌≡◌, Bool, ◌||◌, not, ◌==◌, if◌then◌else◌, arith, Option, none, some,
}
use dalek.Errno.{eio, eperm}

-- Bit `k` of a status byte.
abbrev pub bit : ℕ → ℕ → Bool
bit st k = st / 2 ^ k % 2 == 1

-- `none` is a panic.
unfoldable pub fd_errno_mapping : ℕ → ℕ → ℕ → ℕ → Option ℕ
fd_errno_mapping st0 st1 st2 bps =
    if bit st0 7 || bit st0 6
    then none
    else if bit st1 7
    then some eio
    else if bit st0 3
    then some eio
    else if bit st1 5
    then some eio
    else if bit st1 4
    then some eio
    else if bit st1 2
    then some eio
    else if bit st1 0 || bit st2 0
    then some eio
    else if bit st2 6
    then some eio
    else if bit st2 5
    then some eio
    else if bit st2 4
    then some eio
    else if bit st2 2
    then some eio
    else if bit st2 1
    then some eio
    else if not (bps == 2)
    then some eio
    else if bit st1 1
    then some eperm
    else some 0

-- Some bit of the second status byte that the driver reads is set, other than write protection.
abbrev pub st1_error : ℕ → Bool
st1_error st1 = bit st1 0 || bit st1 2 || bit st1 4 || bit st1 5 || bit st1 7

abbrev pub st2_error : ℕ → Bool
st2_error st2 = bit st2 0 || bit st2 1 || bit st2 2 || bit st2 4 || bit st2 5 || bit st2 6

abbrev pub failed : ℕ → ℕ → ℕ → ℕ → Bool
failed st0 st1 st2 bps = bit st0 3 || st1_error st1 || st2_error st2 || not (bps == 2)

-- Four outcomes and no other: a panic if the controller says that the command ended abnormally,
-- whatever else it says; else EIO if any error bit is set or the sectors have not 512 bytes; else
-- EPERM if the disk is write protected; else success.
pub fd_errno_mapping_lem :
    (st0 st1 st2 bps : ℕ)
    → fd_errno_mapping st0 st1 st2 bps ≡ (
        if bit st0 7 || bit st0 6
        then none
        else if failed st0 st1 st2 bps
        then some eio
        else if bit st1 1
        then some eperm
        else some 0)
unfolding fd_errno_mapping
fd_errno_mapping_lem st0 st1 st2 bps = ground arith
