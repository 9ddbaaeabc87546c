-- ===== src/Commands/Chainload.antt =====
-- chainload.c of bootloader/stage2/commands/. The jump, in assembly, does not come back: it is a result.
use dalek.Base.{
  ℕ, ◌&&◌, Bool, false, not, Option, none, some, List, [], ◌∷◌, ltb, ◌==◌, if◌then◌else◌, get_elem?,
}
use dalek.Base.Int.{ℤ, pos}
use dalek.Base.Fault.{◌>>=◌}
use dalek.Strings.Text.{c_string}
use dalek.Strings.Number.{is_negative}
use dalek.Strings.Compare.{strncmp}
use dalek.Io.{IoDevice, is_zero, io_read, io_seek, io_device_get_by_name}
use dalek.Stdio.Format.{Arg, word, str}
use dalek.Stdio.Print.{log, log_info, log_error}

-- What the command comes to: it returns, or jumps to the sector with the number of a device.
pub data Boot (State : Type 0) : Type 0 where
  returns : ℕ → State × ℕ → Boot State
  jumps : ℕ → List ℕ → State × ℕ → Boot State

-- The test of the two bytes that mark a sector that boots.
unfoldable pub is_marked : ℕ → ℕ → Bool
is_marked a b = not (not (a == 0x55) && not (b == 0xaa))

-- The third argument starts with `force`.
unfoldable pub is_forced : ℕ → List (List ℕ) → Option Bool
is_forced argc argv =
    if ltb 2 argc
    then (get_elem? argv 2 >>= λ a. strncmp a (c_string "force") 5 >>= λ r. some (is_zero r))
    else some false

module _ {State : Type 0} (stdout : Option (IoDevice State)) (stack : List ℕ) where
  abbrev pub func : List ℕ
  func = c_string "chainload"

  abbrev pub refuse : List ℕ → List Arg → State × ℕ → Option (Boot State)
  refuse msg args s =
      log stdout stack log_error func msg args s >>= λ (r, s'). some (returns 255 s')

  -- The sector was read.
  unfoldable pub chainload_loaded : ℕ → Bool → List ℕ → State × ℕ → Option (Boot State)
  chainload_loaded id force sector s = do
    (r, s₁) ←
        log stdout stack log_info func (c_string "Loaded 512 bytes into %x") (word 0x7c00 ∷ []) s
    a ← get_elem? sector 510
    b ← get_elem? sector 511
    if force
        then some (jumps id sector s₁)
        else if is_marked a b
        then some (jumps id sector s₁)
        else (do
          (r', s₂) ←
              log stdout stack log_error func (c_string "Loaded chunk does not have 0xAA55 marker")
                [] s₁
          refuse (c_string "Content: 0x%02X%02X") (word b ∷ word a ∷ []) s₂)

  unfoldable pub chainload_read : ℕ → Bool → ℤ × (List ℕ × (State × ℕ)) → Option (Boot State)
  chainload_read id force (r, (sector, (s, errno))) =
      if is_negative r
      then refuse (c_string "Could not read the first 512 bytes (%d)") (word errno ∷ []) (s, errno)
      else chainload_loaded id force sector (s, errno)

  unfoldable pub chainload_sought :
      IoDevice State → Bool → List ℕ → ℤ × (State × ℕ) → Option (Boot State)
  chainload_sought dev force memory (r, (s, errno)) =
      if is_negative r
      then refuse (c_string "Could not reset the position (%d)") (word errno ∷ []) (s, errno)
      else chainload_read dev.id force (io_read (some dev) (memory, 512) (s, errno))

  unfoldable pub chainload_device :
      Bool → List ℕ → List ℕ → State → Option (IoDevice State) × ℕ → Option (Boot State)
  chainload_device force memory name s (none, errno) =
      refuse (c_string "Could not open %s (%d)") (str (some name) ∷ word errno ∷ []) (s, errno)
  chainload_device force memory name s (some dev, errno) = do
    (r, s₁) ←
        log stdout stack log_info func (c_string "Chainload from %s") (str (some name) ∷ [])
          (s, errno)
    chainload_sought dev force memory (io_seek (some dev) (pos 0, 0) s₁)

  -- `chainload`, on what the memory holds at 0x7c00.
  unfoldable pub chainload :
      List (IoDevice State) → List ℕ → ℕ → List (List ℕ) → State × ℕ → Option (Boot State)
  chainload devices memory argc argv (s, errno) =
      if ltb argc 2 then refuse (c_string "Missing device parameter") [] (s, errno) else (do
        name ← get_elem? argv 1
        force ← is_forced argc argv
        found ← io_device_get_by_name devices name errno
        chainload_device force memory name s found)
