-- ===== src/Floppy/Calibrate/Tests.antt =====
-- A calibration at concrete answers, and the theorem at them.
use dalek.Base.{refl, [], ◌∷◌, replicate, arith}
use dalek.Base.Int.{pos, negsuc}
use dalek.Errno.{eagain}
use dalek.Floppy.{Floppy, floppy_1_44}
use dalek.Floppy.Calibrate.{fd_recalibrate}
use dalek.Floppy.Calibrate.Answers.{Answer}
use dalek.Floppy.Calibrate.Attempts.{Left, is_good, before_calibration, fd_recalibrate-attempts}

abbrev drive : Floppy
drive = record {
  geometry = floppy_1_44;
  motor_state = 1;
  motor_ticks = 0;
  base = 0x3f0;
  drive_number = 0;
  n_blocks = 2880;
  block = 0;
}

-- An answer with bit 5 of the status set.
abbrev with_seek_end : Answer
with_seek_end = (0x20, 0)

fd_recalibrate-attempts_example :
    Left drive
      (fd_recalibrate drive (before_calibration drive 0x20 (with_seek_end ∷ (0, 0) ∷ []) [] [] 0))
      (pos 0)
      0
      []
      []
    × Left drive
        (fd_recalibrate drive (before_calibration drive 0x20 (replicate 10 with_seek_end) [] [] 0))
        (negsuc 0)
        eagain
        []
        []
unfolding is_good
fd_recalibrate-attempts_example =
    fd_recalibrate-attempts drive 0x20 (with_seek_end ∷ []) (replicate 10 with_seek_end) (0, 0) []
      [] 0 (ground arith) refl (omega arith) (ground arith) refl
