-- ===== src/Floppy/Controller.antt =====
-- The floppy controller as bootloader/stage2/devices/floppy/floppy.c sees it: what its registers are read
-- to hold, the interrupts that come, and what is written. The functions that only talk to it.
use dalek.Base.{
  ℕ, zero, suc, ◌+◌, ◌-◌, ◌*◌, ◌%◌, ◌^◌, Option, none, some, List, [], ◌∷◌, ◌++◌, ◌==◌,
  if◌then◌else◌, drop,
}
use Prim.Native.Nat.{bit_or}
use dalek.Base.Int.{ℤ, pos, negsuc}
use dalek.Base.Fault.{◌>>=◌}
use dalek.Floppy.{Floppy}
use dalek.Floppy.Motor.{Effect, outportb, slept}
use dalek.Floppy.Wait.{Interrupt, tick, floppy, other, fd_irq_handler, fd_wait_irq, fd_wait_ready}

abbrev pub fd_primary_base : ℕ
fd_primary_base = 0x03F0

abbrev pub fd_main_status : ℕ
fd_main_status = 0x04

abbrev pub fd_data_fifo : ℕ
fd_data_fifo = 0x05

abbrev pub fd_digital_input : ℕ
fd_digital_input = 0x07

abbrev pub fd_config_control : ℕ
fd_config_control = 0x07

abbrev pub fd_recalibrate_command : ℕ
fd_recalibrate_command = 0x07

abbrev pub fd_sense_interrupt : ℕ
fd_sense_interrupt = 0x08

abbrev pub fd_seek_command : ℕ
fd_seek_command = 0x0f

abbrev pub fd_version : ℕ
fd_version = 0x10

abbrev pub fd_configure_command : ℕ
fd_configure_command = 0x13

abbrev pub fd_unlock : ℕ
fd_unlock = 0x14

abbrev pub fd_lock : ℕ
fd_lock = 0x94

-- `reads` is the values to be read, each with its port, in the order in which they are; `done` is what
-- was written and slept, first first.
pub record Controller : Type 0 where
  pub reads : List (ℕ × ℕ)
  pub coming : List Interrupt
  pub irq_waiting : ℕ
  pub errno : ℕ
  pub done : List Effect

-- `inportb`; `none` is a value that is not given.
unfoldable pub inportb_from : ℕ → List (ℕ × ℕ) → Option (ℕ × List (ℕ × ℕ))
inportb_from port [] = none
inportb_from port ((p, v) ∷ reads) = if p == port then some (v, reads) else none

unfoldable pub inportb : ℕ → Controller → Option (ℕ × Controller)
inportb port c = do (v, reads) ← inportb_from port c.reads; some (v, record c { reads = reads })

abbrev pub send : ℕ → ℕ → Controller → Controller
send port v c = record c { done = c.done ++ (outportb port v ∷ []) }

-- The interrupts that come while so many ticks go by, and `irq_waiting`.
unfoldable pub ticks_pass : ℕ → ℕ → List Interrupt → Option (ℕ × List Interrupt)
ticks_pass zero irq_waiting coming = some (irq_waiting, coming)
ticks_pass (suc n) irq_waiting [] = none
ticks_pass (suc n) irq_waiting (tick ∷ coming) = ticks_pass n irq_waiting coming
ticks_pass (suc n) irq_waiting (floppy ∷ coming) =
    ticks_pass (suc n) (fd_irq_handler irq_waiting) coming
ticks_pass (suc n) irq_waiting (other ∷ coming) = ticks_pass (suc n) irq_waiting coming

-- `sleep`, of a tick for every millisecond.
unfoldable pub pause : ℕ → Controller → Option Controller
pause ms c = do
  (irq_waiting, coming) ← ticks_pass ms c.irq_waiting c.coming
  some (record c { irq_waiting = irq_waiting; coming = coming; done = c.done ++ (slept ms ∷ []) })

unfoldable pub fd_send_byte : ℕ → ℕ → Controller → Controller
fd_send_byte base command c = send (base + fd_data_fifo) command c

unfoldable pub fd_recv_byte : ℕ → Controller → Option (ℕ × Controller)
fd_recv_byte base c = inportb (base + fd_data_fifo) c

-- The bits are put side by side, in a byte.
unfoldable pub fd_configure : ℕ → ℕ → ℕ → ℕ → ℕ → ℕ → Controller → Controller
fd_configure base seek fifo polling threshold precompensation c =
    let bits =
      bit_or (bit_or (bit_or (seek * 2 ^ 6) (fifo * 2 ^ 5)) (polling * 2 ^ 4)) (threshold - 1)
      % 2 ^ 8 in
    fd_send_byte base precompensation
      (fd_send_byte base bits (fd_send_byte base 0x00 (fd_send_byte base fd_configure_command c)))

-- The values that the next reads of a port give.
unfoldable pub values_of : ℕ → List (ℕ × ℕ) → List ℕ
values_of port [] = []
values_of port ((p, v) ∷ reads) =
    let rest = values_of port reads in if p == port then v ∷ rest else []

-- So many sleeps of 10 ms.
unfoldable pub pauses : ℕ → Controller → Option Controller
pauses zero c = some c
pauses (suc n) c = pause 10 c >>= λ c'. pauses n c'

-- `fd_wait_ready` on the controller: the last value that was read is the one behind the sleeps if there
-- is one.
abbrev pub ready_reads : ℤ → ℕ → ℕ
ready_reads (pos r) sleeps = suc sleeps
ready_reads (negsuc r) sleeps = sleeps

unfoldable pub await_ready : Floppy → Controller → Option (ℤ × Controller)
await_ready fd c = do
  (r, errno, sleeps) ← fd_wait_ready c.errno (values_of (fd.base + fd_main_status) c.reads)
  c' ← pauses sleeps c
  some (r, record c' { errno = errno; reads = drop (ready_reads r sleeps) c.reads })

-- `fd_wait_irq` on the controller.
unfoldable pub await_irq : ℕ → Controller → Option (ℤ × Controller)
await_irq timeout c = do
  w ← fd_wait_irq timeout c.errno c.irq_waiting c.coming
  some (w.result, record c { errno = w.errno; irq_waiting = w.irq_waiting; coming = w.coming })
