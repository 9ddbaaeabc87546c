-- ===== src/Commands/Disk.antt =====
-- The commands on devices: read.c and filesystem.c of bootloader/stage2/commands/.
use dalek.Base.{
  ℕ, zero, suc, ◌+◌, ◌*◌, ◌/◌, ◌%◌, Option, none, some, List, [], ◌∷◌, ltb, ◌==◌, if◌then◌else◌,
  get_elem?,
}
use dalek.Base.Int.{ℤ, pos}
use dalek.Base.Fault.{◌>>=◌}
use dalek.Strings.Text.{c_string}
use dalek.Strings.Number.{is_negative}
use dalek.Strings.Parse.{atoi}
use dalek.Io.{IoDevice, io_read, io_seek, io_device_get_by_name}
use dalek.Fs.{Fs, fs_set_root}
use dalek.Stdio.Format.{Arg, word, str}
use dalek.Stdio.Print.{printf, log, log_info, log_error}

-- A number given as the third argument, or else the default.
unfoldable pub number_argument : ℕ → ℕ → List (List ℕ) → Option ℕ
number_argument default argn argv = if ltb 2 argn then (get_elem? argv 2 >>= atoi) else some default

module _ {State : Type 0} (stdout : Option (IoDevice State)) (stack : List ℕ) where
  -- A message of the level of errors, and -1.
  abbrev pub complain : List ℕ → List ℕ → List Arg → State × ℕ → Option (ℕ × (State × ℕ))
  complain func msg args s =
      log stdout stack log_error func msg args s >>= λ (r, s'). some (255, s')

  -- The inner loop of `read`, from the index `i` on, at most `left` bytes: the index and the state.
  unfoldable pub dump_bytes : ℕ → ℕ → ℕ → List ℕ → State × ℕ → Option (ℕ × (State × ℕ))
  dump_bytes zero i nbytes buffer s = some (i, s)
  dump_bytes (suc left) i nbytes buffer s =
      if ltb i nbytes
      then (get_elem? buffer i >>= λ b.
          printf stdout (c_string "%02x ") (word b ∷ []) stack s >>= λ (r, s').
          dump_bytes left (i + 1) nbytes buffer s')
      else some (i, s)

  -- The loop over the lines, `n` of them from the number `line` on.
  unfoldable pub dump_lines : ℕ → ℕ → ℕ → ℕ → List ℕ → State × ℕ → Option (State × ℕ)
  dump_lines zero line i nbytes buffer s = some s
  dump_lines (suc n) line i nbytes buffer s = do
    (r, s₁) ← printf stdout (c_string "%08x\t") (word (line * 16) ∷ []) stack s
    (i', s₂) ← dump_bytes 16 i nbytes buffer s₁
    (r', s₃) ← printf stdout (c_string "\n") [] stack s₂
    dump_lines n (line + 1) i' nbytes buffer s₃

  abbrev pub line_count : ℕ → ℕ
  line_count nbytes = nbytes / 16 + (if ltb 0 (nbytes % 16) then 1 else 0)

  -- What `read` does with what was read.
  unfoldable pub dump : ℕ → ℤ × (List ℕ × (State × ℕ)) → Option (ℕ × (State × ℕ))
  dump nbytes (r, (buffer, (s, errno))) =
      if is_negative r
      then complain (c_string "read") (c_string "Failed to read: %d") (word errno ∷ []) (s, errno)
      else (dump_lines (line_count nbytes) 0 0 nbytes buffer (s, errno) >>= λ s'. some (0, s'))

  -- The device that was found, or the message that there is none.
  abbrev pub with_device :
      List ℕ
      → List ℕ
      → (IoDevice State → State × ℕ → Option (ℕ × (State × ℕ)))
      → State
      → Option (IoDevice State) × ℕ
      → Option (ℕ × (State × ℕ))
  with_device func name use_device s (none, errno) =
      complain func (c_string "Could not find %s (%d)") (str (some name) ∷ word errno ∷ [])
        (s, errno)
  with_device func name use_device s (some dev, errno) = use_device dev (s, errno)

  -- `read`. `fresh` is what an array of some size holds before it is written.
  unfoldable pub read :
      List (IoDevice State)
      → (ℕ → List ℕ)
      → ℕ
      → List (List ℕ)
      → State × ℕ
      → Option (ℕ × (State × ℕ))
  read devices fresh argn argv (s, errno) =
      if ltb 1 argn
      then (do
        name ← get_elem? argv 1
        nbytes ← number_argument 512 argn argv
        found ← io_device_get_by_name devices name errno
        with_device (c_string "read") name
            (λ dev s'. dump nbytes (io_read (some dev) (fresh nbytes, nbytes) s')) s found)
      else complain (c_string "read") (c_string "Missing device name") [] (s, errno)

  -- What `seek` does with the result.
  unfoldable pub sought : List ℕ → ℕ → ℤ × (State × ℕ) → Option (ℕ × (State × ℕ))
  sought name offset (r, (s, errno)) =
      if is_negative r
      then complain (c_string "seek") (c_string "%s failed to seek to %d (%d)")
          (str (some name) ∷ word offset ∷ word errno ∷ []) (s, errno)
      else some (0, (s, errno))

  -- `seek`. The whence is `SEEK_SET`.
  unfoldable pub seek :
      List (IoDevice State) → ℕ → List (List ℕ) → State × ℕ → Option (ℕ × (State × ℕ))
  seek devices argn argv (s, errno) =
      if ltb 1 argn
      then (do
        name ← get_elem? argv 1
        offset ← number_argument 0 argn argv
        found ← io_device_get_by_name devices name errno
        with_device (c_string "seek") name
            (λ dev s'. sought name offset (io_seek (some dev) (pos offset, 0) s')) s found)
      else complain (c_string "seek") (c_string "Missing device name") [] (s, errno)

  -- What `root` says of the result.
  abbrev pub rooted : List ℕ → ℤ × (Fs State × (State × ℕ)) → Option (ℕ × (Fs State × (State × ℕ)))
  rooted name (r, (fs, s)) =
      if is_negative r
      then (complain (c_string "root") (c_string "Could not mount %s") (str (some name) ∷ []) s
          >>= λ (n, s'). some (n, (fs, s')))
      else (log stdout stack log_info (c_string "root") (c_string "%s mounted as root")
            (str (some name) ∷ []) s
          >>= λ (n, s'). some (0, (fs, s')))

  abbrev pub root_on :
      List ℕ
      → Fs State
      → State
      → Option (IoDevice State) × ℕ
      → Option (ℕ × (Fs State × (State × ℕ)))
  root_on name fs s (none, errno) =
      complain (c_string "root") (c_string "Could not find the device %s") (str (some name) ∷ [])
        (s, errno)
      >>= λ (n, s'). some (n, (fs, s'))
  root_on name fs s (some dev, errno) = fs_set_root stdout stack dev fs (s, errno) >>= rooted name

  -- `root`, on the variables of the file system layer.
  unfoldable pub root :
      List (IoDevice State)
      → Fs State
      → ℕ
      → List (List ℕ)
      → State × ℕ
      → Option (ℕ × (Fs State × (State × ℕ)))
  root devices fs argn argv (s, errno) =
      if argn == 2
      then (do
        name ← get_elem? argv 1
        found ← io_device_get_by_name devices name errno
        root_on name fs s found)
      else (complain (c_string "root") (c_string "Need the device to set up as root") [] (s, errno)
          >>= λ (n, s'). some (n, (fs, s')))
