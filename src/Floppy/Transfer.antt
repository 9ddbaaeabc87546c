-- ===== src/Floppy/Transfer.antt =====
-- Transfers in bootloader/stage2/devices/floppy/floppy.c: `fd_rw_block`, with its ten attempts, and
-- `fd_read`, on the controller.
pub mod Answers
pub mod Retries
pub mod Served
pub mod Blocks
mod Tests
use Prim.Native.Nat.{bit_or}
use dalek.Base.{
  ℕ, zero, suc, ◌+◌, ◌-◌, ◌*◌, ◌/◌, ◌%◌, ◌^◌, Bool, true, false, ◌&&◌, Option, none, some, List, [],
  ◌∷◌, ◌++◌, ◌==◌, leb, ltb, if◌then◌else◌,
}
use dalek.Base.Int.{ℤ, pos, negsuc}
use dalek.Base.Fault.{◌>>=◌}
use dalek.Errno.{einval, enosys}
use dalek.Strings.Number.{is_negative}
use dalek.Floppy.{Floppy}
use dalek.Floppy.Geometry.{fd_block2hcs}
use dalek.Floppy.Status.{fd_errno_mapping}
use dalek.Floppy.Dma.{fd_setup_dma}
use dalek.Floppy.Motor.{Effect, outportb, fd_motor_off}
use dalek.Floppy.Controller.{Controller, fd_recv_byte, await_irq, fd_data_fifo}
use dalek.Floppy.Calibrate.{fd_reset, switch_motor, fd_activate}

abbrev pub fd_gap3 : ℕ
fd_gap3 = 27

-- The command of a transfer, as the bytes that go to the controller.
unfoldable pub rw_command : Floppy → Bool → List ℕ
rw_command fd write =
    let p = fd_block2hcs fd.geometry fd.block in
    (if write then 0xC5 else 0xC6)
    ∷ bit_or (p.head * 4) fd.drive_number % 2 ^ 8
    ∷ p.track % 2 ^ 8
    ∷ p.head % 2 ^ 8
    ∷ p.sector % 2 ^ 8
    ∷ 2
    ∷ 1
    ∷ fd_gap3
    ∷ 0xFF
    ∷ []

-- Port writes, in order.
abbrev pub written : List (ℕ × ℕ) → List Effect
written [] = []
written ((port, v) ∷ writes) = outportb port v ∷ written writes

abbrev pub out_all : List (ℕ × ℕ) → Controller → Controller
out_all writes c = record c { done = c.done ++ written writes }

-- The bytes that `fd_send_byte` sends, as port writes.
abbrev pub command_writes : ℕ → List ℕ → List (ℕ × ℕ)
command_writes base [] = []
command_writes base (b ∷ bytes) = (base + fd_data_fifo, b) ∷ command_writes base bytes

-- The seven status bytes behind a transfer: the error number, which `errno` becomes. `none` is a panic,
-- or a byte that is not given.
unfoldable pub read_status : Floppy → Controller → Option (ℕ × Controller)
read_status fd c = do
  (st0, c₁) ← fd_recv_byte fd.base c
  (st1, c₂) ← fd_recv_byte fd.base c₁
  (st2, c₃) ← fd_recv_byte fd.base c₂
  (rcy, c₄) ← fd_recv_byte fd.base c₃
  (rhe, c₅) ← fd_recv_byte fd.base c₄
  (rse, c₆) ← fd_recv_byte fd.base c₅
  (bps, c₇) ← fd_recv_byte fd.base c₆
  e ← fd_errno_mapping st0 st1 st2 bps
  some (e, record c₇ { errno = e })

-- Behind the wait: a reset after a timeout, whose result is not looked at, or the status.
abbrev pub waited : Floppy → ℤ × Controller → Option (Option ℕ × Controller)
waited fd (r, c) =
    if is_negative r
    then (fd_reset fd.base c >>= λ (_, c'). some (none, c'))
    else (read_status fd c >>= λ (e, c'). some (some e, c'))

-- An attempt of `fd_rw_block`, with the address of `fd_dma_buffer`: the error number, `none` inside after
-- a timeout.
unfoldable pub rw_attempt : ℕ → Floppy → Bool → Controller → Option (Option ℕ × Controller)
rw_attempt dma_buffer fd write c = fd_setup_dma dma_buffer 512 write >>= λ writes.
    await_irq 2000 (out_all (command_writes fd.base (rw_command fd write)) (out_all writes c))
    >>= waited fd

-- What an attempt gave, with what the next attempts give: success and a timeout end the loop.
abbrev pub answered :
    Option ℕ × Controller → (Controller → Option (ℤ × Controller)) → Option (ℤ × Controller)
answered (none, c) next = some (negsuc 0, c)
answered (some zero, c) next = some (pos 0, c)
answered (some (suc e), c) next = next c

-- The loop of `fd_rw_block`, with so many attempts left, and what is behind it.
unfoldable pub rw_loop : ℕ → ℕ → Floppy → Bool → Controller → Option (ℤ × Controller)
rw_loop zero dma_buffer fd write c = some (if c.errno == 0 then (pos 0, c) else (negsuc 0, c))
rw_loop (suc left) dma_buffer fd write c =
    rw_attempt dma_buffer fd write c >>= λ a. answered a (rw_loop left dma_buffer fd write)

unfoldable pub fd_rw_block : ℕ → Floppy → Bool → Controller → Option (ℤ × Controller)
fd_rw_block dma_buffer fd write c = rw_loop 10 dma_buffer fd write c

-- What `fd_read` leaves and returns; `buffer` is the caller's, from its start on.
pub record Read : Type 0 where
  pub device : Floppy
  pub controller : Controller
  pub result : ℤ
  pub buffer : ℕ → ℕ

-- `memcpy(buffer + offset, fd_dma_buffer, 512)`
abbrev pub copied : (ℕ → ℕ) → ℕ → (ℕ → ℕ) → ℕ → ℕ
copied buffer offset source a =
    if leb offset a && ltb a (offset + 512) then source (a - offset) else buffer a

-- One turn of the loop of `fd_read`, by what the transfer gave.
abbrev pub transferred :
    ℤ × Controller → (Controller → Option Read) → (Controller → Option Read) → Option Read
transferred (pos n, c) failed next = next c
transferred (negsuc n, c) failed next = failed c

-- `fd_deactivate`
unfoldable pub fd_deactivate : Read → Option Read
fd_deactivate r = do
  (fd, c) ← switch_motor r.device fd_motor_off r.controller
  some (record r { device = fd; controller = c })

-- The address of `fd_dma_buffer`, and what the hardware has put there when so much was written to it.
module _ (dma_buffer : ℕ) (contents : List Effect → ℕ → ℕ) where
  -- The loop of `fd_read`, with so many blocks left.
  unfoldable pub read_blocks : ℕ → Floppy → (ℕ → ℕ) → ℕ → Controller → Option Read
  read_blocks zero fd buffer offset c =
      some (record { device = fd; controller = c; result = pos offset; buffer = buffer })
  read_blocks (suc nblocks) fd buffer offset c = fd_rw_block dma_buffer fd false c >>= λ t.
      transferred t
        (λ c'. some (record { device = fd; controller = c'; result = negsuc 0; buffer = buffer }))
        (λ c'.
          read_blocks nblocks (record fd { block = (fd.block + 1) % 2 ^ 32 })
            (copied buffer offset (contents c'.done)) (offset + 512) c')

  -- Behind `fd_activate`.
  abbrev pub activated : (ℕ → ℕ) → ℕ → ℤ × (Floppy × Controller) → Option Read
  activated buffer nbytes (stat, (fd, c)) =
      if is_negative stat
      then some (record { device = fd; controller = c; result = negsuc 0; buffer = buffer })
      else (read_blocks (nbytes / 512) fd buffer 0 c >>= fd_deactivate)

  unfoldable pub fd_read : Floppy → (ℕ → ℕ) → ℕ → Controller → Option Read
  fd_read fd buffer nbytes c =
      if nbytes % 512 == 0
      then (fd_activate fd c >>= activated buffer nbytes)
      else some (record {
        device = fd;
        controller = record c { errno = einval };
        result = negsuc 0;
        buffer = buffer;
      })

-- `fd_write`: there are no writes.
abbrev pub fd_write : {State : Type 0} → List ℕ × ℕ → State × ℕ → ℤ × (State × ℕ)
fd_write (buffer, nbytes) (s, errno) = (negsuc 0, (s, enosys))
