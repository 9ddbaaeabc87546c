-- ===== src/Main.antt =====
-- What bootloader/stage2/main.c does behind the start of the interrupts, and bootloader/stage2/panic.c. A
-- call that halts the machine does not return: its result is that it halts.
pub mod Panics
mod Tests
use dalek.Base.{ℕ, ◌%◌, Option, some, List, [], ◌∷◌, length}
use dalek.Base.Fault.{◌>>=◌}
use dalek.Strings.Text.{c_string}
use dalek.Io.{IoDevice}
use dalek.Memory.Pool.{SmapEntry}
use dalek.Stdio.Format.{Arg, word, quad, str}
use dalek.Stdio.Print.{printf}
use dalek.Modules.{ModuleInit, mod_init_all}

-- `BootInformation`.
pub record BootInformation : Type 0 where
  pub boot_drive : ℕ
  pub smap_entries : List SmapEntry

-- What a function that does not return comes to: the machine halts, in a state.
pub data Halted (State : Type 0) : Type 0 where
  halts : State × ℕ → Halted State

module _ {State : Type 0} (stdout : State → Option (IoDevice State)) (stack : List ℕ) where
  abbrev pub print : List ℕ → List Arg → State × ℕ → Option (State × ℕ)
  print t args (s, errno) = printf (stdout s) t args stack (s, errno) >>= λ (r, s'). some s'

  -- The loop of `main` over the entries.
  unfoldable pub print_entries : List SmapEntry → State × ℕ → Option (State × ℕ)
  print_entries [] s = some s
  print_entries (ent ∷ entries) s = do
    s₁ ← print (c_string "\tACPI Flags 0x%x Type %d ") (word (ent.acpi % 4) ∷ word ent.type ∷ []) s
    s₂ ← print (c_string "Base 0x%016llx\tSize %lld\n") (quad ent.base ∷ quad ent.length ∷ []) s₁
    print_entries entries s₂

  -- `main`, from the start of the modules to the command line.
  unfoldable pub welcome :
      List (ModuleInit State) → BootInformation → State × ℕ → Option (State × ℕ)
  welcome modules boot_info s = do
    s₁ ← mod_init_all stdout stack modules s
    s₂ ← print (c_string "Stage 2 loaded from drive %i\n") (word boot_info.boot_drive ∷ []) s₁
    s₃ ←
        print (c_string "%d entries found for the memory\n")
          (word (length boot_info.smap_entries) ∷ []) s₂
    print_entries boot_info.smap_entries s₃

  -- `panic` ends in a loop of `hlt` with interrupts off.
  unfoldable pub panic : List ℕ → List ℕ → List Arg → State × ℕ → Option (Halted State)
  panic f msg args s = do
    s₁ ← print (c_string "PANIC!! ") [] s
    s₂ ← print (c_string "[%s] ") (str (some f) ∷ []) s₁
    s₃ ← print msg args s₂
    s₄ ← print (c_string "\nHalting...\n") [] s₃
    some (halts s₄)

  unfoldable pub stack_chk_fail : State × ℕ → Option (Halted State)
  stack_chk_fail s = panic (c_string "__stack_chk_fail") (c_string "Stack smash detected!") [] s
