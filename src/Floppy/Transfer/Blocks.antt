-- ===== src/Floppy/Transfer/Blocks.antt =====
-- `fd_read` of bootloader/stage2/devices/floppy/floppy.c: which blocks it reads, and where they go.
use dalek.Base.{
  ℕ, suc, ◌+◌, ◌*◌, ◌/◌, ◌%◌, ◌^◌, ◌≤◌, ◌<◌, ◌≡◌, refl, ap, ◌∙◌, true, false, Option, some, List,
  [], ◌∷◌, ◌++◌, ◌==◌, ltb, length, if◌then◌else◌, arith,
}
use dalek.Base.Int.{pos}
use dalek.Floppy.{Floppy, floppy_1_44}
use dalek.Floppy.Dma.{Fits}
use dalek.Floppy.Motor.{Effect, fd_motor, fd_motor_wait}
use dalek.Floppy.Wait.{Interrupt, floppy}
use dalek.Floppy.Controller.{Controller}
use dalek.Floppy.Calibrate.{fd_activate, switch_motor, perform}
use dalek.Floppy.Transfer.{written, fd_rw_block, Read, copied, fd_deactivate, read_blocks, fd_read}
use dalek.Floppy.Transfer.Answers.{Status, errno_of, controller}
use dalek.Floppy.Transfer.Served.{
  dma_of, read_of, Serves, AllGood, fd_setup_dma-Fits, attempt_effects-read, filled, filled-start,
  filled-copied,
}
use dalek.Floppy.Transfer.Retries.{all_reads, interrupts, rw_loop-good}

module _ (dma_buffer : ℕ) (contents : List Effect → ℕ → ℕ) (disk : ℕ → ℕ → ℕ) where
  fd_rw_block-read :
      (fd : Floppy) (answer : Status) (reads : List (ℕ × ℕ)) (coming : List Interrupt) (errno : ℕ)
      (done : List Effect)
      → Fits dma_buffer 512
      → fd.geometry ≡ floppy_1_44
      → fd.block < 2880
      → errno_of answer ≡ some 0
      → fd_rw_block dma_buffer fd false
          (controller fd (all_reads fd (answer ∷ []) reads) (floppy ∷ coming) errno done)
        ≡ some (
          pos 0,
          controller fd reads coming 0 (
              done
              ++ (written (dma_of dma_buffer)
                  ++ written (read_of fd.base fd.drive_number fd.block))),
        )
  unfolding fd_rw_block
  fd_rw_block-read fd answer reads coming errno done fits g h good =
      rw_loop-good fd dma_buffer false (dma_of dma_buffer) 10 [] answer reads coming errno done
        (fd_setup_dma-Fits dma_buffer fits) refl (omega arith) good
      ∙ ap (λ l. some (pos 0, controller fd reads coming 0 (done ++ l)))
          (attempt_effects-read fd dma_buffer g h)

  -- What is left behind the blocks, at one address of the buffer.
  record Copied (o : Option Read) (fd : Floppy) (n offset : ℕ) (buffer : ℕ → ℕ)
      (reads : List (ℕ × ℕ)) (coming : List Interrupt) (a : ℕ) : Type 0 where
    pub read : Read
    pub returned : o ≡ some read
    pub result : read.result ≡ pos (offset + 512 * n)
    pub bytes : read.buffer a ≡ filled disk fd.block n offset buffer a
    pub device : read.device ≡ record fd { block = fd.block + n }
    pub reads_left : read.controller.reads ≡ reads
    pub coming_left : read.controller.coming ≡ coming

  read_blocks-next :
      (fd : Floppy) (answer : Status) (n : ℕ) (buffer : ℕ → ℕ) (offset : ℕ) (reads : List (ℕ × ℕ))
      (coming : List Interrupt) (errno : ℕ) (done : List Effect)
      → Fits dma_buffer 512
      → fd.geometry ≡ floppy_1_44
      → fd.block < 2880
      → errno_of answer ≡ some 0
      → let done' =
          done
          ++ (written (dma_of dma_buffer) ++ written (read_of fd.base fd.drive_number fd.block)) in
        read_blocks dma_buffer contents
          (suc n)
          fd
          buffer
          offset
          (controller fd (all_reads fd (answer ∷ []) reads) (floppy ∷ coming) errno done)
        ≡ read_blocks dma_buffer contents n
            (record fd { block = fd.block + 1 })
            (copied buffer offset (contents done'))
            (offset + 512)
            (controller fd reads coming 0 done')
  unfolding read_blocks
  read_blocks-next fd answer n buffer offset reads coming errno done fits g h good =
      let next : (fd.block + 1) % 2 ^ 32 ≡ fd.block + 1 = omega arith in
      rw (fd_rw_block-read fd answer reads coming errno done fits g h good, next) refl

  read_blocks-Copied :
      (fd : Floppy) (answers : List Status) (buffer : ℕ → ℕ) (offset : ℕ) (reads : List (ℕ × ℕ))
      (coming : List Interrupt) (errno : ℕ) (done : List Effect) (a : ℕ)
      → Fits dma_buffer 512
      → Serves contents disk dma_buffer fd
      → fd.geometry ≡ floppy_1_44
      → AllGood answers
      → fd.block + length answers ≤ 2880
      → Copied
          (read_blocks dma_buffer contents
            (length answers)
            fd
            buffer
            offset
            (controller fd (all_reads fd answers reads) (interrupts fd answers coming) errno done))
          fd
          (length answers)
          offset
          buffer
          reads
          coming
          a
  unfolding read_blocks
  read_blocks-Copied fd [] buffer offset reads coming errno done a fits serves g good l =
      let none_read : offset ≡ offset + 512 * 0 = omega arith in
      let none_moved : fd.block ≡ fd.block + 0 = omega arith in
      record {
        read = record {
          device = fd;
          controller = controller fd reads coming errno done;
          result = pos offset;
          buffer = buffer;
        };
        returned = refl;
        result = ap pos none_read;
        bytes = ground arith;
        device = λ i. record fd { block = none_moved i };
        reads_left = refl;
        coming_left = refl;
      }
  read_blocks-Copied fd (answer ∷ answers) buffer offset reads coming errno done a fits serves g
        good l =
      let n = length answers in
      let fd' : Floppy = record fd { block = fd.block + 1 } in
      let done' =
        done
        ++ (written (dma_of dma_buffer) ++ written (read_of fd.base fd.drive_number fd.block)) in
      let inside : fd.block < 2880 = omega arith in
      let r =
        read_blocks-Copied fd' answers (copied buffer offset (contents done')) (offset + 512) reads
          coming 0 done' a fits serves g good.1 (omega arith) in
      record {
        read = r.read;
        returned =
            read_blocks-next fd answer n buffer offset (all_reads fd answers reads)
              (interrupts fd answers coming) errno done fits g inside good.0
            ∙ r.returned;
        result = r.result ∙ ap pos (omega arith);
        bytes =
            r.bytes
            ∙ filled-copied disk fd.block n offset buffer (contents done') a
                (λ i u. serves done fd.block i inside u);
        device = r.device ∙ ap (λ b. record fd { block = b }) (omega arith);
        reads_left = r.reads_left;
        coming_left = r.coming_left;
      }

  fd_deactivate-wait :
      (r : Read)
      → fd_deactivate r
        ≡ some (record r {
          device = record r.device { motor_ticks = 300; motor_state = fd_motor_wait };
        })
  unfolding fd_deactivate switch_motor fd_motor perform
  fd_deactivate-wait r = refl

  -- On a 1.44 MB drive that `fd_activate` gets ready, and whose controller then answers as many transfers
  -- as there are blocks with success, a read of so many blocks returns their number of bytes. The buffer
  -- has the bytes of the blocks of the disk from the position on, in order, and what it had behind them.
  -- The position is behind the blocks, the motor waits to be stopped, and every answer is taken. The
  -- blocks are on the disk, the buffer of the DMA fits its controller, and the hardware answers a set up
  -- of the DMA and a read command with the bytes of the block at that head, track and sector.
  pub fd_read-Serves :
      (fd fd' : Floppy) (answers : List Status) (buffer : ℕ → ℕ) (reads : List (ℕ × ℕ))
      (coming : List Interrupt) (errno : ℕ) (done : List Effect) (c : Controller) (a : ℕ)
      → Fits dma_buffer 512
      → Serves contents disk dma_buffer fd'
      → fd'.geometry ≡ floppy_1_44
      → AllGood answers
      → fd'.block + length answers ≤ 2880
      → fd_activate fd c
        ≡ some (
          pos 0,
          (
            fd',
            controller fd' (all_reads fd' answers reads) (interrupts fd' answers coming) errno done,
          ),
        )
      → (r : Read) × (fd_read dma_buffer contents fd buffer (512 * length answers) c ≡ some r)
        × (r.result ≡ pos (512 * length answers))
        × (r.buffer a ≡ (
            if ltb a (512 * length answers)
            then disk (fd'.block + a / 512) (a % 512)
            else buffer a))
        × (r.device ≡ record fd' {
          block = fd'.block + length answers;
          motor_ticks = 300;
          motor_state = fd_motor_wait;
        })
        × (r.controller.reads ≡ reads)
        × (r.controller.coming ≡ coming)
  unfolding fd_read
  fd_read-Serves fd fd' answers buffer reads coming errno done c a fits serves g good l active =
      let r =
        read_blocks-Copied fd' answers buffer 0 reads coming errno done a fits serves g good l in
      let whole : (512 * length answers % 512 == 0) ≡ true = ground arith in
      let blocks : 512 * length answers / 512 ≡ length answers = omega arith in
      (
        record r.read {
          device = record r.read.device { motor_ticks = 300; motor_state = fd_motor_wait };
        },
        rw (whole, active, blocks, r.returned) (fd_deactivate-wait r.read),
        r.result ∙ ap pos (omega arith),
        r.bytes ∙ filled-start disk fd'.block (length answers) buffer a,
        λ i. record (r.device i) { motor_ticks = 300; motor_state = fd_motor_wait },
        r.reads_left,
        r.coming_left,
      )
