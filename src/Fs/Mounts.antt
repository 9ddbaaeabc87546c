-- ===== src/Fs/Mounts.antt =====
-- Which file system `fs_set_root` of bootloader/stage2/fs.c mounts.
use dalek.Base.{
  ℕ, ◌≡◌, refl, ap, ap₂, true, false, ◌||◌, Option, none, some, List, [], ◌∷◌, ◌++◌, length, arith,
}
use dalek.Base.Int.{pos, negsuc}
use dalek.Errno.{ebadf}
use dalek.Strings.Text.{chars}
use dalek.Io.{IoDevice}
use dalek.Stdio.Print.{log_error}
use dalek.Stdio.Logs.{log_line}
use dalek.Stdio.Terminal.{Terminal}
use dalek.Stdio.Formats.{text, format_text, arguments, meaning}
use dalek.Stdio.Logs.{log_line, log-meaning}
use dalek.Fs.{FileSystemImpl, Fs, is_null, released, release_root, probe, mounted, fs_set_root}

module _ {State : Type 0} (dev : IoDevice State) where
  -- The first file system of the list that knows the device, the handle it gives, and the state that
  -- the questions leave.
  pub data Knows (impl : FileSystemImpl State) (handle : ℕ) (s' : State × ℕ)
      : List (FileSystemImpl State) → State × ℕ → Type 0 where
    here :
        {list : List (FileSystemImpl State)} {s : State × ℕ}
        → impl.get_handle dev s ≡ (some handle, s')
        → Knows impl handle s' (impl ∷ list) s
    there :
        {other : FileSystemImpl State} {list : List (FileSystemImpl State)} {s s₁ : State × ℕ}
        → other.get_handle dev s ≡ (none, s₁)
        → Knows impl handle s' list s₁
        → Knows impl handle s' (other ∷ list) s

  -- None of them knows it.
  pub data Strange (s' : State × ℕ) : List (FileSystemImpl State) → State × ℕ → Type 0 where
    empty : Strange s' [] s'
    other :
        {impl : FileSystemImpl State} {list : List (FileSystemImpl State)} {s s₁ : State × ℕ}
        → impl.get_handle dev s ≡ (none, s₁)
        → Strange s' list s₁
        → Strange s' (impl ∷ list) s

  probe-Knows :
      (impl : FileSystemImpl State) (handle : ℕ) (s' : State × ℕ)
      (list : List (FileSystemImpl State)) (s : State × ℕ)
      → Knows impl handle s' list s
      → probe list dev s ≡ (some (impl, handle), s')
  unfolding probe
  probe-Knows impl handle s' _ s (here e) = rw e refl
  probe-Knows impl handle s' _ s (there e known) = rw e (probe-Knows impl handle s' _ _ known)

  probe-Strange :
      (s' : State × ℕ) (list : List (FileSystemImpl State)) (s : State × ℕ)
      → Strange s' list s
      → probe list dev s ≡ (none, s')
  unfolding probe
  probe-Strange s' _ s empty = refl
  probe-Strange s' _ s (other e strange) = rw e (probe-Strange s' _ _ strange)

  -- The device can be read and positioned.
  abbrev pub Usable : Type 0
  Usable = (is_null dev.read || is_null dev.seek) ≡ false

module _ {State : Type 0} where
  -- There is a root exactly if its file system is known.
  abbrev pub IsFs : Fs State → Type 0
  IsFs fs = is_null fs.root ≡ is_null fs.root_fs

  -- The state behind the release of the old root, if there is one.
  abbrev pub after_release : Option ℕ → Option (FileSystemImpl State) → State × ℕ → State × ℕ
  after_release (some handle) (some impl) s = impl.release_handle handle s
  after_release root impl s = s

  -- The variables without a root.
  abbrev pub unrooted : Fs State → Fs State
  unrooted fs = record fs { root = none; root_fs = none }

  released-unrooted :
      (root : Option ℕ) (impl : Option (FileSystemImpl State)) (fs : Fs State) (s : State × ℕ)
      → fs.root ≡ root
      → fs.root_fs ≡ impl
      → is_null root ≡ is_null impl
      → released root impl fs s ≡ some (unrooted fs, after_release root impl s)
  released-unrooted none none fs s e f h =
      ap (λ (v : Fs State). some (v, s)) (ap₂ (λ r i. record fs { root = r; root_fs = i }) e f)
  released-unrooted none (some impl) fs s e f h = absurd (ground arith)
  released-unrooted (some r) none fs s e f h = absurd (ground arith)
  released-unrooted (some r) (some impl) fs s e f h = refl

module _ {State : Type 0} (terminal : Terminal State) where
  open terminal use {stdout, shown}

  -- A device that can be read and positioned, with a file system in the list that knows it: the old
  -- root is released, and the first such file system is asked for its root, which becomes the new one.
  pub fs_set_root-mounts :
      (dev : IoDevice State) (fs : Fs State) (impl : FileSystemImpl State) (handle : ℕ)
      (stack : List ℕ) (s s' : State × ℕ)
      → IsFs fs
      → Usable dev
      → Knows dev impl handle s' fs.fs_list (after_release fs.root fs.root_fs s)
      → (fs' : Fs State) × (fs_set_root (some stdout) stack dev fs s
          ≡ some (pos 0, (fs', (impl.get_root handle s').1)))
        × (fs'.fs_list ≡ fs.fs_list)
        × (fs'.root ≡ some handle)
        × (fs'.root_fs ≡ some impl)
        × (fs'.cwd ≡ (impl.get_root handle s').0)
  unfolding fs_set_root mounted release_root
  fs_set_root-mounts dev fs impl handle stack s s' h usable known =
      let unrooted_fs = released-unrooted fs.root fs.root_fs fs s refl refl h in
      (
        record fs { root = some handle; root_fs = some impl; cwd = (impl.get_root handle s').0 },
        rw
            (
              usable,
              unrooted_fs,
              probe-Knows dev impl handle s' fs.fs_list (after_release fs.root fs.root_fs s) known,
            )
            refl,
        refl,
        refl,
        refl,
        refl,
      )

  -- Such a device that no file system in the list knows: the call returns -1 and says so, and the old
  -- root is released all the same, so that there is no root any more.
  pub fs_set_root-lost :
      (dev : IoDevice State) (fs : Fs State) (stack : List ℕ) (s : State × ℕ) (s' : State)
      (errno : ℕ)
      → IsFs fs
      → Usable dev
      → Strange dev (s', errno) fs.fs_list (after_release fs.root fs.root_fs s)
      → length stack ≡ 64
      → (fs' : Fs State) × (s'' : State) × (fs_set_root (some stdout) stack dev fs s
          ≡ some (negsuc 0, (fs', (s'', errno))))
        × (fs'.fs_list ≡ fs.fs_list)
        × (fs'.root ≡ none)
        × (fs'.root_fs ≡ none)
        × (shown s''
            ≡ shown s'
              ++ log_line log_error (chars "fs_set_root") (chars "Filesystem not recognized"))
  unfolding fs_set_root mounted release_root format_text arguments meaning
  fs_set_root-lost dev fs stack s s' errno h usable strange stacked =
      let unrooted_fs = released-unrooted fs.root fs.root_fs fs s refl refl h in
      let (s'', logged, more_shown, same_typed) =
        log-meaning terminal (text (chars "Filesystem not recognized")) [] (chars "fs_set_root") []
          log_error [] stack s' errno (ground arith) (ground arith) stacked in
      (
        unrooted fs,
        s'',
        rw
            (
              usable,
              unrooted_fs,
              probe-Strange dev (s', errno) fs.fs_list (after_release fs.root fs.root_fs s) strange,
              logged,
            )
            refl,
        refl,
        refl,
        refl,
        more_shown,
      )

  -- A device without a read or a seek is refused with EBADF, and nothing is released.
  pub fs_set_root-refused :
      (dev : IoDevice State) (fs : Fs State) (stack : List ℕ) (s : State) (errno : ℕ)
      → (is_null dev.read || is_null dev.seek) ≡ true
      → length stack ≡ 64
      → (s' : State) × (fs_set_root (some stdout) stack dev fs (s, errno)
          ≡ some (negsuc 0, (fs, (s', ebadf))))
  unfolding fs_set_root format_text arguments
  fs_set_root-refused dev fs stack s errno useless stacked =
      let (s', logged, more_shown, same_typed) =
        log-meaning terminal (text (chars "Invalid device: missing read and/or seek")) []
          (chars "fs_set_root") [] log_error [] stack s ebadf (ground arith) (ground arith)
          stacked in
      (s', rw (useless, logged) refl)
