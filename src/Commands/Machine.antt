-- ===== src/Commands/Machine.antt =====
-- The commands on the machine: memory.c, reboot.c and test_timer.c of bootloader/stage2/commands/.
use Prim.Native.Nat.{bit_and}
use dalek.Base.{
  ℕ, ◌+◌, ◌-◌, ◌/◌, ◌*◌, ◌%◌, ◌^◌, Option, none, some, List, [], ◌∷◌, ltb, ◌==◌, if◌then◌else◌,
  get_elem?,
}
use dalek.Base.Fault.{◌>>=◌}
use dalek.Strings.Text.{c_string}
use dalek.Strings.Compare.{strcmp}
use dalek.Io.{IoDevice, is_zero}
use dalek.Memory.Pool.{Heap}
use dalek.Memory.Heap.{mm_allocatable_free, mm_allocatable_used, mm_allocatable_start}
use dalek.Timer.{Timer, timer_register_task, timer_unregister_task}
use dalek.Floppy.Motor.{Effect, outportb, slept}
use dalek.Stdio.Format.{Arg, word, double}
use dalek.Stdio.Print.{printf}
use dalek.Commands.Texts.{say}

-- The wait of `reboot` for the keyboard's controller, on the values that its port gives; those left.
unfoldable pub await_controller : List ℕ → Option (List ℕ)
await_controller [] = none
await_controller (temp ∷ values) =
    let rest = await_controller values in if bit_and temp 0x02 == 0x00 then some values else rest

module _ {State : Type 0} (stdout : Option (IoDevice State)) (stack : List ℕ) where
  abbrev pub show : List ℕ → List Arg → State × ℕ → Option (State × ℕ)
  show t args s = printf stdout t args stack s >>= λ (r, s'). some s'

  -- The size of the memory, a heap, where the image of stage 2 starts and ends, and what `ftoa_s` makes
  -- of a number of bytes as KB.
  module _ (mem_size : ℕ) (heap : Heap) (start end : ℕ)
      (kilobytes : ℕ → List ℕ → Option (List ℕ)) where
    abbrev show_kilobytes : List ℕ → ℕ → State × ℕ → Option (State × ℕ)
    show_kilobytes t n s = show t (word n ∷ double (kilobytes n) ∷ []) s

    -- `fuel` is for the walks over the blocks.
    unfoldable pub memory_report : ℕ → State × ℕ → Option (ℕ × (State × ℕ))
    memory_report fuel s = do
      let size = mem_size % 2 ^ 32
      s₁ ←
          show (c_string "Usable memory size: %z bytes\n\t\t%z KB\n\t\t%z MB\n")
            (word size ∷ word (size / 1024) ∷ word (size / (1024 * 1024)) ∷ []) s
      (free, biggest) ← mm_allocatable_free fuel heap
      used ← mm_allocatable_used fuel heap
      s₂ ←
          show_kilobytes (c_string "Allocatable memory: %z bytes (%f KB)\n")
            ((free + used) % 2 ^ 32) s₁
      s₃ ← show (c_string "\tStarting at 0x%p\n") (word (mm_allocatable_start heap) ∷ []) s₂
      s₄ ← show_kilobytes (c_string "\tUsed:\t%z bytes (%f KB)\n") used s₃
      s₅ ← show_kilobytes (c_string "\tFree:\t%z bytes (%f KB)\n") free s₄
      s₆ ← show (c_string "\tMax.Contiguous:\t%z bytes\n") (word biggest ∷ []) s₅
      s₇ ← show (c_string "Stage 2 start address: 0x%x\n") (word start ∷ []) s₆
      s₈ ←
          show_kilobytes (c_string "\tBinary size: %z bytes (%f KB)\n")
            ((end + 2 ^ 32 - start) % 2 ^ 32) s₇
      some (0, s₈)

    unfoldable pub memory_usage : State × ℕ → Option (ℕ × (State × ℕ))
    memory_usage s =
        say stdout stack (c_string "Shows information about the memory.\nUsage: memory [help]\n") s
        >>= λ s'. some (0, s')

    -- An argument other than `help` asks for the usage.
    unfoldable pub memory_with : ℕ → List (List ℕ) → State × ℕ → Option (ℕ × (State × ℕ))
    memory_with fuel argv s = do
      a ← get_elem? argv 1
      order ← strcmp a (c_string "help")
      if is_zero order then memory_report fuel s else memory_usage s

    unfoldable pub memory : ℕ → ℕ → List (List ℕ) → State × ℕ → Option (ℕ × (State × ℕ))
    memory fuel argn argv s = if ltb 1 argn then memory_with fuel argv s else memory_report fuel s

  -- What the command returns, what it does to the machine, the values left, and the state.
  abbrev pub Reboot : Type 0
  Reboot = ℕ × (List Effect × (List ℕ × (State × ℕ)))

  unfoldable pub reboot_now : List ℕ → State × ℕ → Option Reboot
  reboot_now values s = do
    s₁ ← say stdout stack (c_string "Rebooting...\n") s
    values' ← await_controller values
    some (1, (slept 500 ∷ outportb 0x64 0xFE ∷ [], (values', s₁)))

  unfoldable pub reboot_usage : List ℕ → State × ℕ → Option Reboot
  reboot_usage values s = do
    s₁ ← say stdout stack (c_string "Reboots the system\n") s
    s₂ ← say stdout stack (c_string "Usage: reboot [help]\n") s₁
    some (0, ([], (values, s₂)))

  unfoldable pub reboot_with : List ℕ → List (List ℕ) → State × ℕ → Option Reboot
  reboot_with values argv s = do
    a ← get_elem? argv 1
    order ← strcmp a (c_string "help")
    if is_zero order then reboot_usage values s else reboot_now values s

  unfoldable pub reboot : List ℕ → ℕ → List (List ℕ) → State × ℕ → Option Reboot
  reboot values argn argv s = if ltb 1 argn then reboot_with values argv s else reboot_now values s

  -- `callback` of the test, on its count of calls and the timer.
  unfoldable pub callback : ℕ → ℕ × Timer → State × ℕ → Option ((ℕ × Timer) × (State × ℕ))
  callback id (num_calls, t) s = do
    let called = num_calls + 1
    s₁ ← show (c_string "TIMER CALLBACK %i...\n") (word called ∷ []) s
    some (if ltb 20 called then (0, timer_unregister_task t id) else (called, t), s₁)

  -- `test_timer`, with the address of the callback.
  unfoldable pub test_timer : ℕ → Timer → State × ℕ → Option (ℕ × (Timer × (State × ℕ)))
  test_timer func t s = say stdout stack (c_string "Registering callback...\n") s >>= λ s'.
      some (0, ((timer_register_task t func 1000).0, s'))
