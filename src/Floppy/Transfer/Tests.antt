-- ===== src/Floppy/Transfer/Tests.antt =====
-- The motor, the waits and the transfers of the floppy driver at concrete inputs, and the theorems at
-- them.
use dalek.Base.{
  replicate, ◌+◌, ◌-◌, ◌*◌, ◌/◌, ◌%◌, ap, ◌∙◌, ◌++◌, ℕ, ◌≡◌, refl, true, false, some, List, [], ◌∷◌,
  arith,
}
use dalek.Base.Int.{pos, negsuc}
use dalek.Errno.{eio, etime}
use dalek.Floppy.{Floppy, floppy_1_44}
use dalek.Floppy.Geometry.{fd_block2hcs}
use dalek.Floppy.Status.{fd_errno_mapping}
use dalek.Floppy.Motor.{
  Effect, outportb, slept, fd_motor, fd_motor_off, fd_motor_wait, fd_motor_kill, unit_timer,
  fd_timer, timed, fd_motor-stops,
}
use dalek.Floppy.Wait.{tick, floppy, other, fd_wait_irq, fd_wait_irq_lem, fd_wait_ready, ready_loop}
use dalek.Floppy.Dma.{fd_setup_dma}
use dalek.Floppy.Controller.{Controller, inportb, inportb_from}
use dalek.Floppy.Calibrate.{fd_activate, switch_motor, perform}
use dalek.Floppy.Transfer.{written, rw_command, fd_rw_block, Read, fd_read}
use dalek.Floppy.Transfer.Answers.{Status, errno_of, status_reads, controller, attempt_effects}
use dalek.Floppy.Transfer.Retries.{all_errors, all_reads, interrupts, repeated, fd_rw_block-retries}
use dalek.Floppy.Transfer.Served.{dma_of, read_of, Serves}
use dalek.Floppy.Transfer.Blocks.{fd_read-Serves}

-- A 1.44 MB drive at block 20 with its motor on.
abbrev drive : Floppy
drive = record {
  geometry = floppy_1_44;
  motor_state = 1;
  motor_ticks = 0;
  base = 0x3f0;
  drive_number = 0;
  n_blocks = 2880;
  block = 20;
}

fd_motor-stops_example :
    (timed (0 ∷ 0 ∷ 0 ∷ 0 ∷ 0 ∷ 0 ∷ []) (fd_motor drive fd_motor_off 0).0).motor_state
    ≡ fd_motor_off
fd_motor-stops_example = fd_motor-stops drive 0 (0 ∷ 0 ∷ 0 ∷ 0 ∷ 0 ∷ 0 ∷ []) (omega arith)

both_drives : (fd_timer ((drive, 0) ∷ (drive, 0) ∷ [])).1 ≡ []
unfolding fd_timer unit_timer
both_drives = refl

killed : (fd_motor_kill drive 0x1C).0.motor_state ≡ 0
unfolding fd_motor_kill
killed = refl

fd_wait_irq_lem_instance :
    (fd_wait_irq 2 7 0 (other ∷ floppy ∷ tick ∷ [])
      ≡ some (record { result = pos 0; errno = 7; irq_waiting = 0; coming = tick ∷ [] }))
    × (fd_wait_irq 2 7 0 (tick ∷ other ∷ tick ∷ tick ∷ [])
        ≡ some (record { result = negsuc 0; errno = etime; irq_waiting = 0; coming = tick ∷ [] }))
fd_wait_irq_lem_instance =
    fd_wait_irq_lem 2 7 (other ∷ []) (tick ∷ other ∷ []) (tick ∷ []) refl (omega arith) refl refl

ready_at_once : fd_wait_ready 0 (0x80 ∷ []) ≡ some (pos 0, 0, 0)
unfolding fd_wait_ready ready_loop
ready_at_once = refl

command : rw_command drive false ≡ 0xC6 ∷ 4 ∷ 0 ∷ 1 ∷ 3 ∷ 2 ∷ 1 ∷ 27 ∷ 0xFF ∷ []
unfolding rw_command fd_block2hcs
command = refl

-- A CRC error, and a success.
abbrev bad : Status
bad = record { st0 = 0; st1 = 0x20; st2 = 0; rcy = 0; rhe = 1; rse = 3; bps = 2 }

abbrev good : Status
good = record { st0 = 0; st1 = 0; st2 = 0; rcy = 0; rhe = 1; rse = 4; bps = 2 }

bad_errno : errno_of bad ≡ some eio
unfolding fd_errno_mapping
bad_errno = refl

good_errno : errno_of good ≡ some 0
unfolding fd_errno_mapping
good_errno = refl

one_error : all_errors (bad ∷ []) ≡ true
unfolding fd_errno_mapping
one_error = refl

nine_errors : all_errors (replicate 9 bad) ≡ true
unfolding fd_errno_mapping
nine_errors = refl

buffer_fits : fd_setup_dma 0x8000 512 false ≡ some (dma_of 0x8000)
unfolding fd_setup_dma
buffer_fits = refl

fd_rw_block-retries_example :
    (fd_rw_block 0x8000 drive false (
        controller drive
          (all_reads drive (bad ∷ []) (status_reads drive good []))
          (interrupts drive (bad ∷ []) (floppy ∷ tick ∷ []))
          0
          [])
      ≡ some (
        pos 0,
        controller drive []
            (tick ∷ [])
            0
            (repeated 2 (attempt_effects drive (dma_of 0x8000) false) []),
      ))
    × (fd_rw_block 0x8000 drive false (
          controller drive
            (all_reads drive (replicate 9 bad) (status_reads drive bad []))
            (interrupts drive (replicate 9 bad) (floppy ∷ tick ∷ []))
            0
            [])
        ≡ some (
          negsuc 0,
          controller drive []
              (tick ∷ [])
              eio
              (repeated 10 (attempt_effects drive (dma_of 0x8000) false) []),
        ))
fd_rw_block-retries_example =
    fd_rw_block-retries drive 0x8000 false (dma_of 0x8000) (bad ∷ []) (replicate 9 bad) good bad []
      (tick ∷ []) 0 0 [] buffer_fits one_error (omega arith) good_errno nine_errors refl bad_errno

-- The values that were written, the last one first.
abbrev values : List ℕ → List Effect → List ℕ
values seen [] = seen
values seen (outportb port v ∷ effects) = values (v ∷ seen) effects
values seen (slept ms ∷ effects) = values seen effects

values-append :
    (seen : List ℕ) (first second : List Effect)
    → values seen (first ++ second) ≡ values (values seen first) second
values-append seen [] second = refl
values-append seen (outportb port v ∷ first) second = values-append (v ∷ seen) first second
values-append seen (slept ms ∷ first) second = values-append seen first second

-- A disk on which every byte is the number of its block and its place, and the bytes of the last command.
abbrev numbered : ℕ → ℕ → ℕ
numbered block i = (block + i) % 256

abbrev commanded : List ℕ → ℕ → ℕ
commanded (_ ∷ _ ∷ _ ∷ _ ∷ sector ∷ head ∷ track ∷ r) i =
    numbered (track * 36 + head * 18 + (sector - 1)) i
commanded _ i = 0

abbrev contents : List Effect → ℕ → ℕ
contents done = commanded (values [] done)

contents-Serves : Serves contents numbered 0x8000 drive
contents-Serves done block i h u =
    let same : block / 36 * 36 + block / 18 % 2 * 18 + (block % 18 + 1 - 1) ≡ block = omega arith in
    ap (λ l. commanded l i)
      (values-append [] done
        (written (dma_of 0x8000) ++ written (read_of drive.base drive.drive_number block)))
    ∙ ap (λ b. numbered b i) same

-- The drive is ready at once and answers two transfers.
abbrev two_blocks : Controller
two_blocks = record {
  reads = (0x3f2, 0x1C) ∷ (0x3f7, 0) ∷ all_reads drive (good ∷ good ∷ []) [];
  coming = floppy ∷ floppy ∷ tick ∷ [];
  irq_waiting = 0;
  errno = 0;
  done = [];
}

ready :
    fd_activate drive two_blocks
    ≡ some (
      pos 0,
      (
        drive,
        controller drive
            (all_reads drive (good ∷ good ∷ []) [])
            (interrupts drive (good ∷ good ∷ []) (tick ∷ []))
            0
            (outportb 0x3f2 0x1C ∷ []),
      ),
    )
unfolding fd_activate inportb inportb_from switch_motor fd_motor perform
ready = refl

-- The byte 3 of the second block.
fd_read-Serves_example :
    (r : Read) × (fd_read 0x8000 contents drive (λ _. 7) 1024 two_blocks ≡ some r)
    × (r.result ≡ pos 1024)
    × (r.buffer 515 ≡ 24)
    × (r.device ≡ record drive { block = 22; motor_ticks = 300; motor_state = fd_motor_wait })
    × (r.controller.reads ≡ [])
    × (r.controller.coming ≡ tick ∷ [])
fd_read-Serves_example =
    fd_read-Serves 0x8000 contents numbered drive drive (good ∷ good ∷ []) (λ _. 7) [] (tick ∷ []) 0
      (outportb 0x3f2 0x1C ∷ []) two_blocks 515 (omega arith, omega arith, omega arith, omega arith)
      contents-Serves refl (good_errno, (good_errno, record {})) (omega arith) ready
