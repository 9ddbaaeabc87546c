-- ===== src/Modules.antt =====
-- bootloader/stage2/modules.c: the start and the end of the modules. The linker gathers their functions
-- in two arrays, sorted by level; they are arguments.
pub mod Order
pub mod Devices
use dalek.Base.{ℕ, zero, suc, Option, some, List, [], ◌∷◌, get_elem?, length}
use dalek.Base.Int.{ℤ}
use dalek.Base.Fault.{◌>>=◌}
use dalek.Strings.Text.{c_string}
use dalek.Io.{IoDevice}
use dalek.Stdio.Print.{log, log_info}

module _ (State : Type 0) where
  -- `ModuleInit` and `ModuleDestroy`.
  abbrev pub ModuleInit : Type 0
  ModuleInit = State × ℕ → ℤ × (State × ℕ)

-- `stdout` is a part of the state: a module sets it.
module _ {State : Type 0} (stdout : State → Option (IoDevice State)) (stack : List ℕ) where
  abbrev pub log_module : List ℕ → List ℕ → State × ℕ → Option (State × ℕ)
  log_module func msg (s, errno) =
      log (stdout s) stack log_info func msg [] (s, errno) >>= λ (r, s'). some s'

  -- The loop of `mod_init_all`. What the functions return is not looked at.
  unfoldable pub init_loop : List (ModuleInit State) → State × ℕ → State × ℕ
  init_loop [] s = s
  init_loop (mod_init ∷ modules) s = init_loop modules (mod_init s).1

  unfoldable pub mod_init_all : List (ModuleInit State) → State × ℕ → Option (State × ℕ)
  mod_init_all modules s = do
    s₁ ← log_module (c_string "mod_init_all") (c_string "Initializing modules") s
    log_module (c_string "mod_init_all") (c_string "Modules initialized") (init_loop modules s₁)

  -- The loop of `mod_destroy_all`, with the pointer behind so many functions.
  unfoldable pub destroy_loop : ℕ → List (ModuleInit State) → State × ℕ → Option (State × ℕ)
  destroy_loop zero modules s = some s
  destroy_loop (suc i) modules s =
      get_elem? modules i >>= λ mod_destroy. destroy_loop i modules (mod_destroy s).1

  unfoldable pub mod_destroy_all : List (ModuleInit State) → State × ℕ → Option (State × ℕ)
  mod_destroy_all modules s = do
    s₁ ← log_module (c_string "mod_destroy_all") (c_string "Destroying modules") s
    s₂ ← destroy_loop (length modules) modules s₁
    log_module (c_string "mod_destroy_all") (c_string "Modules destroyed") s₂
