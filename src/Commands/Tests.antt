-- ===== src/Commands/Tests.antt =====
-- The commands at concrete arguments, and the theorems at them.
use dalek.Base.{ℕ, ◌≡◌, refl, inl, some, List, [], ◌∷◌, ◌++◌, replicate, arith}
use dalek.Base.Int.{pos}
use dalek.Strings.Text.{chars, c_string}
use dalek.Strings.Compare.{strcmp}
use dalek.Io.{IoDevice, zeroed, io_read, io_seek, io_device_get_by_name, find_by_name}
use dalek.Stdio.Console.{Console, console, keys, screen}
use dalek.Stdio.Leaves.{Leaves}
use dalek.Stdio.Edits.{edited, echoes, pressed}
use dalek.Cli.{CliCommand, Buffers, cli_round}
use dalek.Cli.Rows.{Holds}
use dalek.Cli.Find.{here}
use dalek.Cli.Rounds.{Typed}
use dalek.Commands.Texts.{echo}
use dalek.Commands.Echoes.{cli_round-echo}
use dalek.Commands.Disk.{read}
use dalek.Commands.Dumps.{dump_text, read-Leaves}
use dalek.Commands.Chainload.{returns, jumps, chainload}
use dalek.Commands.Boots.{chainload-refuses, chainload-jumps}

abbrev stack : List ℕ
stack = replicate 64 170

abbrev echo_command : CliCommand Console
echo_command = record {
  name = c_string "echo";
  description = some (c_string "Echo the string(s)");
  func = echo (some screen) stack;
}

abbrev buffers : Buffers
buffers = record { line = replicate 128 170; strings = replicate 2048 170 }

abbrev typing : List ℕ
typing = chars "echo ab c"

typing-Typed : Typed typing (chars "echo" ∷ chars "ab" ∷ chars "c" ∷ [])
unfolding edited pressed
typing-Typed = record {
  keys = ground arith;
  short = omega arith;
  spelled = refl;
  words = ground arith;
  plain = ground arith;
  few = omega arith;
}

cli_round-echo_example :
    (b' : Buffers) × (s' : Console) × (cli_round 20
        (some keys)
        (some screen)
        0
        stack
        (echo_command ∷ [])
        buffers
        ((typing ++ (b'\n' ∷ []), []), 0)
      ≡ some (b', (s', 0)))
    × (s'.1 ≡ (chars "?: " ++ (echoes [] typing ++ (b'\n' ∷ []))) ++ chars "ab c \n")
    × (s'.0 ≡ [])
cli_round-echo_example =
    cli_round-echo console typing (chars "echo") [] (chars "ab" ∷ chars "c" ∷ []) echo_command 20 0
      stack stack (echo_command ∷ []) buffers (typing ++ (b'\n' ∷ []), []) 0 typing-Typed
      (here [] refl) refl (ground arith) refl (omega arith) (omega arith) (omega arith)
      (omega arith) (omega arith)

-- A disk whose every read gives the same sector.
abbrev sector : List ℕ
sector = replicate 510 7 ++ (0x55 ∷ 0xaa ∷ [])

abbrev disk : IoDevice Console
disk = record (zeroed 0) {
  name = c_string "fd0";
  seek = some (λ a s. (pos 0, s));
  read = some (λ (buffer, n) s. (pos n, (sector, s)));
}

abbrev words : List (List ℕ)
words = c_string "read" ∷ c_string "fd0" ∷ []

words-Holds : Holds (chars "read" ∷ chars "fd0" ∷ []) words
words-Holds = (([], refl), (([], refl), tt))

finds_disk :
    (rest : List ℕ)
    → io_device_get_by_name (disk ∷ []) (chars "fd0" ++ (0 ∷ rest)) 0 ≡ some (some disk, 0)
unfolding io_device_get_by_name find_by_name strcmp
finds_disk rest = refl

disk_reads :
    (buffer : List ℕ) (s : Console)
    → io_read (some disk) (buffer, 512) (s, 0) ≡ (pos 512, (sector, (s, 0)))
unfolding io_read
disk_reads buffer s = refl

disk_seeks : (s : Console) → io_seek (some disk) (pos 0, 0) (s, 0) ≡ (pos 0, (s, 0))
unfolding io_seek
disk_seeks s = refl

read-Leaves_example :
    Leaves console
      (read (some screen) stack (disk ∷ []) (λ n. replicate n 0) 2 words (([], []), 0))
      (λ s'. (0, (s', 0)))
      ([], [])
      (dump_text 32 0 sector)
read-Leaves_example =
    read-Leaves console (chars "read") (chars "fd0") words (disk ∷ []) (λ n. replicate n 0) disk
      stack sector 512 ([], []) ([], []) 0 0 words-Holds finds_disk
      (disk_reads (replicate 512 0) ([], [])) refl (omega arith)

chainload-jumps_example :
    (s' : Console) × (chainload (some screen) stack (disk ∷ []) [] 2 words (([], []), 0)
      ≡ some (jumps 0 sector (s', 0)))
chainload-jumps_example =
    chainload-jumps console (chars "read") (chars "fd0") sector [] stack words (disk ∷ []) disk 0x55
      0xaa (λ s. s) (λ s. s) ([], []) 0 words-Holds (ground arith) finds_disk disk_seeks
      (disk_reads []) refl refl (inl refl) (omega arith)

-- A disk of sevens.
abbrev sevens : IoDevice Console
sevens = record disk { read = some (λ (buffer, n) s. (pos n, (replicate 512 7, s))) }

finds_sevens :
    (rest : List ℕ)
    → io_device_get_by_name (sevens ∷ []) (chars "fd0" ++ (0 ∷ rest)) 0 ≡ some (some sevens, 0)
unfolding io_device_get_by_name find_by_name strcmp
finds_sevens rest = refl

sevens_seeks : (s : Console) → io_seek (some sevens) (pos 0, 0) (s, 0) ≡ (pos 0, (s, 0))
unfolding io_seek
sevens_seeks s = refl

sevens_reads :
    (s : Console) → io_read (some sevens) ([], 512) (s, 0) ≡ (pos 512, (replicate 512 7, (s, 0)))
unfolding io_read
sevens_reads s = refl

chainload-refuses_example :
    (s' : Console) × (chainload (some screen) stack (sevens ∷ []) [] 2 words (([], []), 0)
      ≡ some (returns 255 (s', 0)))
chainload-refuses_example =
    chainload-refuses console (chars "read") (chars "fd0") (replicate 512 7) [] stack words
      (sevens ∷ []) sevens 7 7 (λ s. s) (λ s. s) ([], []) 0 words-Holds (ground arith) finds_sevens
      sevens_seeks sevens_reads refl refl (λ e. ground arith) (λ e. ground arith) (omega arith)
