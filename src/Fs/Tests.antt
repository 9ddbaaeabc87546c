-- ===== src/Fs/Tests.antt =====
-- The root at concrete file systems, and the theorems at them.
use dalek.Base.{ℕ, ◌≡◌, refl, some, none, List, [], ◌∷◌, replicate, arith}
use dalek.Base.Int.{pos, negsuc}
use dalek.Errno.{ebadf}
use dalek.Strings.Text.{chars, c_string}
use dalek.Io.{IoDevice, zeroed}
use dalek.Stdio.Print.{log_error}
use dalek.Stdio.Logs.{log_line}
use dalek.Stdio.Console.{Console, console, screen}
use dalek.Fs.{FileSystemImpl, Fs, fs_set_root}
use dalek.Fs.Mounts.{
  here, there, empty, other, fs_set_root-mounts, fs_set_root-lost, fs_set_root-refused,
}

-- A disk, a file system that knows every device and writes down what it releases, and one that knows
-- none.
abbrev disk : IoDevice Console
disk = record (zeroed 0) {
  seek = some (λ a s. (pos 0, s));
  read = some (λ (buffer, n) s. (pos n, (buffer, s)));
}

abbrev fat : FileSystemImpl Console
fat = record {
  name = c_string "fat";
  get_handle = λ dev s. (some 7, s);
  release_handle = λ handle ((typed, shown), errno). ((handle ∷ typed, shown), errno);
  get_root = λ handle s. (2, s);
}

abbrev tar : FileSystemImpl Console
tar = record {
  name = c_string "tar";
  get_handle = λ dev s. (none, s);
  release_handle = λ handle s. s;
  get_root = λ handle s. (0, s);
}

abbrev rooted : List (FileSystemImpl Console) → Fs Console
rooted list = record { fs_list = list; root = some 5; root_fs = some fat; cwd = 2 }

abbrev stack : List ℕ
stack = replicate 64 170

fs_set_root-mounts_example :
    (fs' : Fs Console) × (fs_set_root
        (some screen)
        stack
        disk
        (rooted (tar ∷ fat ∷ []))
        (([], []), 0)
      ≡ some (pos 0, (fs', ((5 ∷ [], []), 0))))
    × (fs'.fs_list ≡ tar ∷ fat ∷ [])
    × (fs'.root ≡ some 7)
    × (fs'.root_fs ≡ some fat)
    × (fs'.cwd ≡ 2)
fs_set_root-mounts_example =
    fs_set_root-mounts console disk (rooted (tar ∷ fat ∷ [])) fat 7 stack (([], []), 0)
      ((5 ∷ [], []), 0) refl refl (there refl (here refl))

fs_set_root-lost_example :
    (fs' : Fs Console) × (s'' : Console) × (fs_set_root
        (some screen)
        stack
        disk
        (rooted (tar ∷ []))
        (([], []), 0)
      ≡ some (negsuc 0, (fs', (s'', 0))))
    × (fs'.fs_list ≡ tar ∷ [])
    × (fs'.root ≡ none)
    × (fs'.root_fs ≡ none)
    × (s''.1 ≡ log_line log_error (chars "fs_set_root") (chars "Filesystem not recognized"))
fs_set_root-lost_example =
    fs_set_root-lost console disk (rooted (tar ∷ [])) stack (([], []), 0) (5 ∷ [], []) 0 refl refl
      (other refl empty) (omega arith)

fs_set_root-refused_instance :
    (s' : Console) × (fs_set_root (some screen) stack (zeroed 0) (rooted []) (([], []), 0)
      ≡ some (negsuc 0, (rooted [], (s', ebadf))))
fs_set_root-refused_instance =
    fs_set_root-refused console (zeroed 0) (rooted []) stack ([], []) 0 refl (omega arith)
