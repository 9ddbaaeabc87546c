-- ===== src/Floppy/Transfer/Answers.antt =====
-- What an attempt of `fd_rw_block` in bootloader/stage2/devices/floppy/floppy.c makes of the answer of the
-- controller.
use dalek.Base.{ℕ, ◌+◌, ◌≡◌, refl, ap, Bool, Option, some, List, [], ◌∷◌, ◌++◌, append_assoc, arith}
use dalek.Floppy.{Floppy}
use dalek.Floppy.Motor.{Effect}
use dalek.Floppy.Dma.{fd_setup_dma}
use dalek.Floppy.Status.{fd_errno_mapping}
use dalek.Floppy.Wait.{Interrupt, floppy, fd_wait_irq, wait_loop-arrives}
use dalek.Floppy.Controller.{Controller, inportb, fd_recv_byte, await_irq, fd_data_fifo}
use dalek.Floppy.Calibrate.Answers.{same_port}
use dalek.Floppy.Transfer.{written, command_writes, rw_command, read_status, rw_attempt}

-- The seven status bytes of an answer.
pub record Status : Type 0 where
  pub st0 : ℕ
  pub st1 : ℕ
  pub st2 : ℕ
  pub rcy : ℕ
  pub rhe : ℕ
  pub rse : ℕ
  pub bps : ℕ

-- The error number of an answer; `none` is a panic.
abbrev pub errno_of : Status → Option ℕ
errno_of a = fd_errno_mapping a.st0 a.st1 a.st2 a.bps

module _ (fd : Floppy) where
  abbrev pub status_reads : Status → List (ℕ × ℕ) → List (ℕ × ℕ)
  status_reads a reads =
      (fd.base + fd_data_fifo, a.st0)
      ∷ (fd.base + fd_data_fifo, a.st1)
      ∷ (fd.base + fd_data_fifo, a.st2)
      ∷ (fd.base + fd_data_fifo, a.rcy)
      ∷ (fd.base + fd_data_fifo, a.rhe)
      ∷ (fd.base + fd_data_fifo, a.rse)
      ∷ (fd.base + fd_data_fifo, a.bps)
      ∷ reads

  -- A controller that has these bytes to read, these interrupts to come, and none waiting.
  abbrev pub controller : List (ℕ × ℕ) → List Interrupt → ℕ → List Effect → Controller
  controller reads coming errno done = record {
    reads = reads;
    coming = coming;
    irq_waiting = 0;
    errno = errno;
    done = done;
  }

  read_status-answer :
      (a : Status) (reads : List (ℕ × ℕ)) (coming : List Interrupt) (errno : ℕ) (done : List Effect)
      {e : ℕ}
      → errno_of a ≡ some e
      → read_status fd (controller (status_reads a reads) coming errno done)
        ≡ some (e, controller reads coming e done)
  unfolding read_status fd_recv_byte inportb
  read_status-answer a reads coming errno done h =
      let p = fd.base + fd_data_fifo in
      let r₆ = (p, a.bps) ∷ reads in
      let r₅ = (p, a.rse) ∷ r₆ in
      let r₄ = (p, a.rhe) ∷ r₅ in
      let r₃ = (p, a.rcy) ∷ r₄ in
      let r₂ = (p, a.st2) ∷ r₃ in
      let r₁ = (p, a.st1) ∷ r₂ in
      rw
        (
          same_port fd p a.st0 r₁,
          same_port fd p a.st1 r₂,
          same_port fd p a.st2 r₃,
          same_port fd p a.rcy r₄,
          same_port fd p a.rhe r₅,
          same_port fd p a.rse r₆,
          same_port fd p a.bps reads,
          h,
        )
        refl

  -- Everything that an attempt writes.
  abbrev pub attempt_effects : List (ℕ × ℕ) → Bool → List Effect
  attempt_effects dma write = written dma ++ written (command_writes fd.base (rw_command fd write))

  pub rw_attempt-answer :
      (dma_buffer : ℕ) (write : Bool) (a : Status) (reads : List (ℕ × ℕ)) (coming : List Interrupt)
      (errno : ℕ) (done : List Effect) {dma : List (ℕ × ℕ)} {e : ℕ}
      → fd_setup_dma dma_buffer 512 write ≡ some dma
      → errno_of a ≡ some e
      → rw_attempt dma_buffer fd write
          (controller (status_reads a reads) (floppy ∷ coming) errno done)
        ≡ some (some e, controller reads coming e (done ++ attempt_effects dma write))
  unfolding rw_attempt await_irq fd_wait_irq
  rw_attempt-answer dma_buffer write a reads coming errno done {dma} {e} d h =
      let sent = (done ++ written dma) ++ written (command_writes fd.base (rw_command fd write)) in
      rw
        (
          d,
          wait_loop-arrives 2000 errno 0 [] coming refl (omega arith),
          read_status-answer a reads coming errno sent h,
        )
        (ap (λ l. some (some e, controller reads coming e l))
          (append_assoc done (written dma)
            (written (command_writes fd.base (rw_command fd write)))))
