-- ===== src/Floppy/Calibrate/Attempts.antt =====
-- How many attempts `fd_recalibrate` of bootloader/stage2/devices/floppy/floppy.c makes.
use Prim.Native.Nat.{bit_and}
use dalek.Base.{
  ℕ, zero, suc, ◌+◌, ◌<◌, ◌≡◌, refl, ap, ◌∙◌, Bool, true, false, ◌&&◌, Option, some, List, [], ◌∷◌,
  ◌++◌, ◌==◌, length, arith,
}
use dalek.Base.Int.{ℤ, pos, negsuc}
use dalek.Errno.{eagain}
use dalek.Floppy.{Floppy}
use dalek.Floppy.Motor.{Effect}
use dalek.Floppy.Wait.{Interrupt, floppy}
use dalek.Floppy.Controller.{Controller, fd_main_status}
use dalek.Floppy.Calibrate.{attempted, calibrate_loop, fd_recalibrate}
use dalek.Floppy.Calibrate.Answers.{
  Answer, answer_reads, all_reads, interrupts, attempt-answer, dummy_seek-answer,
}

-- The answer is good: no error, no bit 5, and the cylinder 0.
unfoldable pub is_good : Answer → Bool
is_good (st0, cyl) = bit_and st0 0xC0 == 0 && bit_and st0 0x20 == 0 && cyl == 0

abbrev pub AllBad : List Answer → Type 0
AllBad [] = Unit {0}
AllBad (a ∷ answers) = (is_good a ≡ false) × AllBad answers

attempted-bad :
    (a : Answer) (c : Controller) (next : Controller → Option (ℤ × Controller))
    → is_good a ≡ false
    → attempted (some a, c) next ≡ next c
unfolding is_good
attempted-bad (st0, cyl) c next h = ground arith

attempted-good :
    (a : Answer) (c : Controller) (next : Controller → Option (ℤ × Controller))
    → is_good a ≡ true
    → attempted (some a, c) next ≡ some (pos 0, c)
unfolding is_good
attempted-good (st0, cyl) c next h = ground arith

module _ (fd : Floppy) where
  -- The controller that is left: what is read and what comes behind the answers.
  pub record Left (o : Option (ℤ × Controller)) (r : ℤ) (errno : ℕ) (reads : List (ℕ × ℕ))
      (coming : List Interrupt) : Type 0 where
    pub done : List Effect
    pub returned :
        o
        ≡ some (
          r,
          record { reads = reads; coming = coming; irq_waiting = 0; errno = errno; done = done },
        )

  calibrate_loop-good :
      (left : ℕ) (bad : List Answer) (good : Answer) (reads : List (ℕ × ℕ))
      (coming : List Interrupt) (errno : ℕ) (done : List Effect)
      → AllBad bad
      → is_good good ≡ true
      → length bad < left
      → Left
          (calibrate_loop left fd (record {
            reads = all_reads fd bad (answer_reads fd good reads);
            coming = interrupts fd bad (floppy ∷ coming);
            irq_waiting = 0;
            errno = errno;
            done = done;
          }))
          (pos 0)
          errno
          reads
          coming
  unfolding calibrate_loop
  calibrate_loop-good zero bad good reads coming errno done h g l = absurd (omega arith)
  calibrate_loop-good (suc left) [] good reads coming errno done h g l =
      let (done', e) = attempt-answer fd good reads coming errno done in
      record { done = done'; returned = rw e (attempted-good good _ (calibrate_loop left fd) g) }
  calibrate_loop-good (suc left) (a ∷ bad) good reads coming errno done h g l =
      let (done', e) =
        attempt-answer fd a (all_reads fd bad (answer_reads fd good reads))
          (interrupts fd bad (floppy ∷ coming)) errno done in
      let r = calibrate_loop-good left bad good reads coming errno done' h.1 g (omega arith) in
      record {
        done = r.done;
        returned = rw e (attempted-bad a _ (calibrate_loop left fd) h.0 ∙ r.returned);
      }

  calibrate_loop-bad :
      (left : ℕ) (bad : List Answer) (reads : List (ℕ × ℕ)) (coming : List Interrupt) (errno : ℕ)
      (done : List Effect)
      → AllBad bad
      → length bad ≡ left
      → Left
          (calibrate_loop left fd (record {
            reads = all_reads fd bad reads;
            coming = interrupts fd bad coming;
            irq_waiting = 0;
            errno = errno;
            done = done;
          }))
          (negsuc 0)
          eagain
          reads
          coming
  unfolding calibrate_loop
  calibrate_loop-bad zero [] reads coming errno done h l = record { done = done; returned = refl }
  calibrate_loop-bad zero (a ∷ bad) reads coming errno done h l = absurd (omega arith)
  calibrate_loop-bad (suc left) [] reads coming errno done h l = absurd (omega arith)
  calibrate_loop-bad (suc left) (a ∷ bad) reads coming errno done h l =
      let (done', e) =
        attempt-answer fd a (all_reads fd bad reads) (interrupts fd bad coming) errno done in
      let r = calibrate_loop-bad left bad reads coming errno done' h.1 (omega arith) in
      record {
        done = r.done;
        returned = rw e (attempted-bad a _ (calibrate_loop left fd) h.0 ∙ r.returned);
      }

  -- The controller before a calibration, with the answer to the dummy seek first.
  abbrev pub before_calibration : ℕ → List Answer → List (ℕ × ℕ) → List Interrupt → ℕ → Controller
  before_calibration st0 answers reads coming errno = record {
    reads =
        (fd.base + fd_main_status, 0x80) ∷ answer_reads fd (st0, 1) (all_reads fd answers reads);
    coming = floppy ∷ interrupts fd answers coming;
    irq_waiting = 0;
    errno = errno;
    done = [];
  }

  fd_recalibrate-dummy :
      (st0 : ℕ) (answers : List Answer) (reads : List (ℕ × ℕ)) (coming : List Interrupt) (errno : ℕ)
      → (done : List Effect) × (fd_recalibrate fd
            (before_calibration st0 answers reads coming errno)
          ≡ calibrate_loop 10 fd (record {
            reads = all_reads fd answers reads;
            coming = interrupts fd answers coming;
            irq_waiting = 0;
            errno = errno;
            done = done;
          }))
  unfolding fd_recalibrate
  fd_recalibrate-dummy st0 answers reads coming errno =
      let (done, e) =
        dummy_seek-answer fd (st0, 1) (all_reads fd answers reads) (interrupts fd answers coming)
          errno [] in
      (done, rw e refl)

  all_reads-append :
      (bad : List Answer) (good : Answer) (reads : List (ℕ × ℕ))
      → all_reads fd (bad ++ (good ∷ [])) reads ≡ all_reads fd bad (answer_reads fd good reads)
  all_reads-append [] good reads = refl
  all_reads-append (a ∷ bad) good reads = ap (answer_reads fd a) (all_reads-append bad good reads)

  interrupts-append :
      (bad : List Answer) (good : Answer) (coming : List Interrupt)
      → interrupts fd (bad ++ (good ∷ [])) coming ≡ interrupts fd bad (floppy ∷ coming)
  interrupts-append [] good coming = refl
  interrupts-append (a ∷ bad) good coming = ap (λ l. floppy ∷ l) (interrupts-append bad good coming)

  -- A drive that answers every command at once, and is on cylinder 1 behind the dummy seek: the
  -- calibration succeeds when the first good answer is one of ten, and takes no answer behind it; and
  -- it fails with EAGAIN when ten answers are bad. A good answer says cylinder 0, no error, and has bit
  -- 5 of the status clear.
  pub fd_recalibrate-attempts :
      (st0 : ℕ) (few bad : List Answer) (good : Answer) (reads : List (ℕ × ℕ))
      (coming : List Interrupt) (errno : ℕ)
      → AllBad few
      → is_good good ≡ true
      → length few < 10
      → AllBad bad
      → length bad ≡ 10
      → Left
          (fd_recalibrate fd (before_calibration st0 (few ++ (good ∷ [])) reads coming errno))
          (pos 0)
          errno
          reads
          coming
        × Left
            (fd_recalibrate fd (before_calibration st0 bad reads coming errno))
            (negsuc 0)
            eagain
            reads
            coming
  fd_recalibrate-attempts st0 few bad good reads coming errno h g l h' l' =
      let (done, e) = fd_recalibrate-dummy st0 (few ++ (good ∷ [])) reads coming errno in
      let r = calibrate_loop-good 10 few good reads coming errno done h g l in
      let (done', e') = fd_recalibrate-dummy st0 bad reads coming errno in
      let r' = calibrate_loop-bad 10 bad reads coming errno done' h' l' in
      (
        record {
          done = r.done;
          returned =
              e
              ∙ rw (all_reads-append few good reads, interrupts-append few good coming) r.returned;
        },
        record { done = r'.done; returned = e' ∙ r'.returned },
      )
