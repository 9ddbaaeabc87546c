-- ===== src/Io.antt =====
-- bootloader/stage2/io.c and include/io.h: the register of devices and the calls through it. A device's
-- methods are arguments of the model, as functions of the program's state; a name or a description is
-- the bytes of its array.
pub mod Register
mod Tests
use dalek.Base.{
  ℕ, ◌%◌, ◌^◌, Bool, true, false, Option, none, some, List, [], ◌∷◌, ◌==◌, if◌then◌else◌, replicate,
}
use dalek.Base.Int.{ℤ, pos, negsuc}
use dalek.Base.Fault.{◌>>=◌}
use dalek.Errno.{enoent, efault, enosys}
use dalek.Strings.Compare.{strcmp}
use dalek.Strings.Copy.{strlcpy}

-- The test `== 0` of an `int`.
abbrev pub is_zero : ℤ → Bool
is_zero (pos n) = n == 0
is_zero (negsuc n) = false

-- The state of the program other than `errno`, with what a method does to it.
module _ (State : Type 0) where
  -- A method, on its arguments: it leaves a state and `errno`, and returns a number.
  abbrev pub Method : Type 0 → Type 0
  Method Argument = Argument → State × ℕ → ℤ × (State × ℕ)

  -- A read, on the buffer (its bytes from the pointer on) and a size: it also leaves the buffer.
  abbrev pub Reader : Type 0
  Reader = List ℕ × ℕ → State × ℕ → ℤ × (List ℕ × (State × ℕ))

  -- `IODevice`, with its `data`. A seek takes an offset and a whence; a write the bytes from the pointer
  -- on and a size; a request its name and its arguments. `none` is the null pointer.
  pub record IoDevice : Type 0 where
    pub name : List ℕ
    pub description : List ℕ
    pub private_data : ℕ
    pub id : ℕ
    pub seek : Option (Method (ℤ × ℕ))
    pub read : Option Reader
    pub write : Option (Method (List ℕ × ℕ))
    pub ioctl : Option (Method (List ℕ × List ℕ))

-- The operations of the register.
module _ {State : Type 0} where
  -- `io_seek`, `io_write` and `io_ioctl`, which differ in the method that they take.
  abbrev pub call_method :
      {Argument : Type 0} → Option (Method State Argument) → Argument → State × ℕ → ℤ × (State × ℕ)
  call_method none a (s, errno) = (negsuc 0, (s, enosys))
  call_method (some f) a s = f a s

  unfoldable pub io_seek : Option (IoDevice State) → ℤ × ℕ → State × ℕ → ℤ × (State × ℕ)
  io_seek none a (s, errno) = (negsuc 0, (s, efault))
  io_seek (some dev) a s = call_method dev.seek a s

  abbrev pub call_read : Option (Reader State) → List ℕ × ℕ → State × ℕ → ℤ × (List ℕ × (State × ℕ))
  call_read none (buffer, n) (s, errno) = (negsuc 0, (buffer, (s, enosys)))
  call_read (some f) a s = f a s

  unfoldable pub io_read :
      Option (IoDevice State) → List ℕ × ℕ → State × ℕ → ℤ × (List ℕ × (State × ℕ))
  io_read none (buffer, n) (s, errno) = (negsuc 0, (buffer, (s, efault)))
  io_read (some dev) a s = call_read dev.read a s

  unfoldable pub io_write : Option (IoDevice State) → List ℕ × ℕ → State × ℕ → ℤ × (State × ℕ)
  io_write none a (s, errno) = (negsuc 0, (s, efault))
  io_write (some dev) a s = call_method dev.write a s

  unfoldable pub io_ioctl : Option (IoDevice State) → List ℕ × List ℕ → State × ℕ → ℤ × (State × ℕ)
  io_ioctl none a (s, errno) = (negsuc 0, (s, efault))
  io_ioctl (some dev) a s = call_method dev.ioctl a s

  -- A device with zeroes in it, `memset`.
  abbrev pub zeroed : ℕ → IoDevice State
  zeroed owner = record {
    name = replicate 16 0;
    description = replicate 32 0;
    private_data = owner;
    id = 0;
    seek = none;
    read = none;
    write = none;
    ioctl = none;
  }

  -- `io_register_device`: the list with the new device in front. There is memory for it; `none` is a name
  -- or a description that does not fit its array.
  unfoldable pub io_register_device :
      List (IoDevice State) → List ℕ → List ℕ → ℕ → Option (List (IoDevice State))
  io_register_device devices name description owner = do
    name' ← strlcpy (replicate 16 0) name 16
    description' ← strlcpy (replicate 32 0) description 32
    some (record (zeroed owner) { name = name'; description = description' } ∷ devices)

  -- A node of the list is the list from it on.
  abbrev pub io_init : List (IoDevice State)
  io_init = []

  abbrev pub io_device_list_begin : List (IoDevice State) → List (IoDevice State)
  io_device_list_begin first_device = first_device

  abbrev pub io_device_list_next : List (IoDevice State) → List (IoDevice State)
  io_device_list_next [] = []
  io_device_list_next (dev ∷ next) = next

  abbrev pub io_device_get_device : List (IoDevice State) → Option (IoDevice State)
  io_device_get_device [] = none
  io_device_get_device (dev ∷ next) = some dev

  -- `io_device_list_begin`, and `io_device_list_next` of it, as a list and what is behind its first.
  unfoldable pub find_by_name : List (IoDevice State) → List ℕ → Option (Option (IoDevice State))
  find_by_name [] name = some none
  find_by_name (dev ∷ devices) name =
      let rest = find_by_name devices name in
      strcmp dev.name name >>= λ order. if is_zero order then some (some dev) else rest

  -- A lookup that finds nothing sets `errno`.
  abbrev pub found_errno : Option (IoDevice State) → ℕ → Option (IoDevice State) × ℕ
  found_errno none errno = (none, enoent)
  found_errno (some dev) errno = (some dev, errno)

  -- `io_device_get_by_name`: the device or null, and `errno`.
  unfoldable pub io_device_get_by_name :
      List (IoDevice State) → List ℕ → ℕ → Option (Option (IoDevice State) × ℕ)
  io_device_get_by_name devices name errno = do
    found ← find_by_name devices name
    some (found_errno found errno)
