-- ===== src/Fs.antt =====
-- bootloader/stage2/fs.c and include/fs.h: the list of file systems and the root. What a file system
-- does is an argument of the model; a handle is the number of its address.
pub mod Mounts
mod Tests
use dalek.Base.{ℕ, Bool, true, false, ◌||◌, Option, none, some, List, [], ◌∷◌, if◌then◌else◌}
use dalek.Base.Int.{ℤ, pos, negsuc}
use dalek.Base.Fault.{◌>>=◌}
use dalek.Errno.{ebadf}
use dalek.Strings.Text.{c_string}
use dalek.Io.{IoDevice}
use dalek.Stdio.Format.{str}
use dalek.Stdio.Print.{log, log_debug, log_error}

-- The test for a null pointer.
abbrev pub is_null : {A : Type 0} → Option A → Bool
is_null none = true
is_null (some a) = false

module _ (State : Type 0) where
  -- `FileSystemImpl`; a list stands for `next`. `none` is a null handle.
  pub record FileSystemImpl : Type 0 where
    pub name : List ℕ
    pub get_handle : IoDevice State → State × ℕ → Option ℕ × (State × ℕ)
    pub release_handle : ℕ → State × ℕ → State × ℕ
    pub get_root : ℕ → State × ℕ → ℕ × (State × ℕ)

  -- The static variables.
  pub record Fs : Type 0 where
    pub fs_list : List (FileSystemImpl)
    pub root : Option ℕ
    pub root_fs : Option FileSystemImpl
    pub cwd : ℕ

module _ {State : Type 0} (stdout : Option (IoDevice State)) (stack : List ℕ) where
  -- `fs_register`.
  unfoldable pub fs_register :
      FileSystemImpl State → Fs State → State × ℕ → Option (Fs State × (State × ℕ))
  fs_register impl fs s = do
    (r, s') ←
        log stdout stack log_debug (c_string "fs_register") (c_string "Registered filesystem %s")
          (str (some impl.name) ∷ []) s
    some (record fs { fs_list = impl ∷ fs.fs_list }, s')

module _ {State : Type 0} where
  -- The old root is released; `none` is a root without a file system, a call through a null pointer.
  abbrev pub released :
      Option ℕ
      → Option (FileSystemImpl State)
      → Fs State
      → State × ℕ
      → Option (Fs State × (State × ℕ))
  released none impl fs s = some (fs, s)
  released (some handle) none fs s = none
  released (some handle) (some impl) fs s =
      some (record fs { root_fs = none; root = none }, impl.release_handle handle s)

  unfoldable pub release_root : Fs State → State × ℕ → Option (Fs State × (State × ℕ))
  release_root fs s = released fs.root fs.root_fs fs s

  -- A file system that knows the device ends the loop over the list.
  abbrev pub probed :
      FileSystemImpl State
      → Option ℕ × (State × ℕ)
      → (State × ℕ → Option (FileSystemImpl State × ℕ) × (State × ℕ))
      → Option (FileSystemImpl State × ℕ) × (State × ℕ)
  probed impl (none, s) next = next s
  probed impl (some handle, s) next = (some (impl, handle), s)

  unfoldable pub probe :
      List (FileSystemImpl State)
      → IoDevice State
      → State × ℕ
      → Option (FileSystemImpl State × ℕ) × (State × ℕ)
  probe [] dev s = (none, s)
  probe (impl ∷ list) dev s = probed impl (impl.get_handle dev s) (probe list dev)

module _ {State : Type 0} (stdout : Option (IoDevice State)) (stack : List ℕ) where
  -- What the loop found becomes the root.
  unfoldable pub mounted :
      Fs State
      → Option (FileSystemImpl State × ℕ) × (State × ℕ)
      → Option (ℤ × (Fs State × (State × ℕ)))
  mounted fs (none, s) = do
    (r, s') ←
        log stdout stack log_error (c_string "fs_set_root") (c_string "Filesystem not recognized")
          [] s
    some (negsuc 0, (record fs { root = none }, s'))
  mounted fs (some (impl, handle), s) =
      let (ino, s') = impl.get_root handle s in
      some (pos 0, (record fs { root = some handle; root_fs = some impl; cwd = ino }, s'))

  -- `fs_set_root`.
  unfoldable pub fs_set_root :
      IoDevice State → Fs State → State × ℕ → Option (ℤ × (Fs State × (State × ℕ)))
  fs_set_root dev fs (s, errno) =
      if is_null dev.read || is_null dev.seek
      then (log stdout stack log_error (c_string "fs_set_root")
            (c_string "Invalid device: missing read and/or seek") [] (s, ebadf)
          >>= λ (r, s'). some (negsuc 0, (fs, s')))
      else (release_root fs (s, errno) >>= λ (fs', s'). mounted fs' (probe fs'.fs_list dev s'))
