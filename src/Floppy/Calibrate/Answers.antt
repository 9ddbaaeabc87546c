-- ===== src/Floppy/Calibrate/Answers.antt =====
-- The answers of a controller that is ready at once to the commands of a calibration in
-- bootloader/stage2/devices/floppy/floppy.c.
use dalek.Base.{ℕ, ◌+◌, ◌≡◌, refl, true, some, List, [], ◌∷◌, ◌++◌, ◌==◌, arith}
use dalek.Base.Int.{pos}
use dalek.Floppy.{Floppy}
use dalek.Floppy.Motor.{Effect, outportb}
use dalek.Floppy.Wait.{Interrupt, floppy, fd_wait_irq, wait_loop-arrives, fd_wait_ready, ready_loop}
use dalek.Floppy.Controller.{
  inportb, inportb_from, pauses, fd_send_byte, fd_recv_byte, await_ready, await_irq, values_of,
  fd_main_status, fd_data_fifo,
}
use dalek.Floppy.Calibrate.{read_interrupt, fd_check_interrupt, attempt, dummy_seek}

-- What an interrupt says: the status and the cylinder.
abbrev pub Answer : Type 0
Answer = ℕ × ℕ

module _ (fd : Floppy) where
  -- What is read behind interrupts with these answers, of a controller that is ready at once.
  abbrev pub answer_reads : Answer → List (ℕ × ℕ) → List (ℕ × ℕ)
  answer_reads (st0, cyl) reads =
      (fd.base + fd_main_status, 0x80)
      ∷ (fd.base + fd_main_status, 0x80)
      ∷ (fd.base + fd_data_fifo, st0)
      ∷ (fd.base + fd_data_fifo, cyl)
      ∷ reads

  abbrev pub all_reads : List Answer → List (ℕ × ℕ) → List (ℕ × ℕ)
  all_reads [] reads = reads
  all_reads (a ∷ answers) reads = answer_reads a (all_reads answers reads)

  abbrev pub interrupts : List Answer → List Interrupt → List Interrupt
  interrupts [] coming = coming
  interrupts (a ∷ answers) coming = floppy ∷ interrupts answers coming

  pub same_port :
      (p v : ℕ) (reads : List (ℕ × ℕ)) → inportb_from p ((p, v) ∷ reads) ≡ some (v, reads)
  unfolding inportb_from
  same_port p v reads = ground arith

  await_ready-now :
      (reads : List (ℕ × ℕ)) (coming : List Interrupt) (irq errno : ℕ) (done : List Effect)
      → await_ready fd (record {
        reads = (fd.base + fd_main_status, 0x80) ∷ reads;
        coming = coming;
        irq_waiting = irq;
        errno = errno;
        done = done;
      })
        ≡ some (
          pos 0,
          record { reads = reads; coming = coming; irq_waiting = irq; errno = errno; done = done },
        )
  unfolding await_ready values_of fd_wait_ready ready_loop pauses
  await_ready-now reads coming irq errno done =
      let same : (fd.base + fd_main_status == fd.base + fd_main_status) ≡ true = ground arith in
      rw same refl

  fd_check_interrupt-answer :
      (a : Answer) (reads : List (ℕ × ℕ)) (coming : List Interrupt) (irq errno : ℕ)
      (done : List Effect)
      → (done' : List Effect) × (fd_check_interrupt fd (record {
        reads = answer_reads a reads;
        coming = coming;
        irq_waiting = irq;
        errno = errno;
        done = done;
      })
          ≡ some (
            some a,
            record {
              reads = reads;
              coming = coming;
              irq_waiting = irq;
              errno = errno;
              done = done';
            },
          ))
  unfolding fd_check_interrupt read_interrupt fd_send_byte fd_recv_byte inportb
  fd_check_interrupt-answer (st0, cyl) reads coming irq errno done = (
    done ++ (outportb (fd.base + fd_data_fifo) 0x08 ∷ []),
    rw
        (
          await_ready-now
              ((fd.base + fd_main_status, 0x80)
                ∷ (fd.base + fd_data_fifo, st0)
                ∷ (fd.base + fd_data_fifo, cyl)
                ∷ reads)
              coming irq errno done,
          await_ready-now ((fd.base + fd_data_fifo, st0) ∷ (fd.base + fd_data_fifo, cyl) ∷ reads)
              coming irq errno (done ++ (outportb (fd.base + fd_data_fifo) 0x08 ∷ [])),
          same_port (fd.base + fd_data_fifo) st0 ((fd.base + fd_data_fifo, cyl) ∷ reads),
          same_port (fd.base + fd_data_fifo) cyl reads,
        )
        refl,
  )

  pub attempt-answer :
      (a : Answer) (reads : List (ℕ × ℕ)) (coming : List Interrupt) (errno : ℕ) (done : List Effect)
      → (done' : List Effect) × (attempt fd (record {
        reads = answer_reads a reads;
        coming = floppy ∷ coming;
        irq_waiting = 0;
        errno = errno;
        done = done;
      })
          ≡ some (
            some a,
            record { reads = reads; coming = coming; irq_waiting = 0; errno = errno; done = done' },
          ))
  unfolding attempt await_irq fd_wait_irq fd_send_byte
  attempt-answer a reads coming errno done =
      let sent =
        (done ++ (outportb (fd.base + fd_data_fifo) 0x07 ∷ []))
        ++ (outportb (fd.base + fd_data_fifo) fd.drive_number ∷ []) in
      let (done', checked) = fd_check_interrupt-answer a reads coming 0 errno sent in
      (done', rw (wait_loop-arrives 5000 errno 0 [] coming refl (omega arith)) checked)

  pub dummy_seek-answer :
      (a : Answer) (reads : List (ℕ × ℕ)) (coming : List Interrupt) (errno : ℕ) (done : List Effect)
      → (done' : List Effect) × (dummy_seek fd (record {
        reads = (fd.base + fd_main_status, 0x80) ∷ answer_reads a reads;
        coming = floppy ∷ coming;
        irq_waiting = 0;
        errno = errno;
        done = done;
      })
          ≡ some (
            some a,
            record { reads = reads; coming = coming; irq_waiting = 0; errno = errno; done = done' },
          ))
  unfolding dummy_seek await_irq fd_wait_irq fd_send_byte
  dummy_seek-answer a reads coming errno done =
      let port = fd.base + fd_data_fifo in
      let sent =
        ((done ++ (outportb port 0x0f ∷ [])) ++ (outportb port fd.drive_number ∷ []))
        ++ (outportb port 0x01 ∷ []) in
      let (done', checked) = fd_check_interrupt-answer a reads coming 0 errno sent in
      (
        done',
        rw
            (
              await_ready-now (answer_reads a reads) (floppy ∷ coming) 0 errno done,
              wait_loop-arrives 5000 errno 0 [] coming refl (omega arith),
            )
            checked,
      )
