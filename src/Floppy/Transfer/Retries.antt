-- ===== src/Floppy/Transfer/Retries.antt =====
-- The attempts of `fd_rw_block` in bootloader/stage2/devices/floppy/floppy.c.
use dalek.Base.{
  ℕ, zero, suc, ◌+◌, ◌<◌, ◌≡◌, refl, Bool, true, false, ◌&&◌, Option, none, some, List, [], ◌∷◌,
  ◌++◌, ◌==◌, length, arith,
}
use dalek.Base.Int.{ℤ, pos, negsuc}
use dalek.Floppy.{Floppy}
use dalek.Floppy.Motor.{Effect}
use dalek.Floppy.Dma.{fd_setup_dma}
use dalek.Floppy.Wait.{Interrupt, floppy}
use dalek.Floppy.Controller.{Controller}
use dalek.Floppy.Transfer.{answered, rw_loop, fd_rw_block}
use dalek.Floppy.Transfer.Answers.{
  Status, errno_of, status_reads, controller, attempt_effects, rw_attempt-answer,
}

abbrev pub is_error : Option ℕ → Bool
is_error none = false
is_error (some zero) = false
is_error (some (suc e)) = true

-- Every answer is an error that the loop tries again after.
abbrev pub all_errors : List Status → Bool
all_errors [] = true
all_errors (a ∷ answers) = is_error (errno_of a) && all_errors answers

is_error-suc : (o : Option ℕ) → is_error o ≡ true → (e : ℕ) × (o ≡ some (suc e))
is_error-suc none h = ground arith
is_error-suc (some zero) h = ground arith
is_error-suc (some (suc e)) h = (e, refl)

answered-error :
    (e : ℕ) (c : Controller) (next : Controller → Option (ℤ × Controller))
    → 0 < e
    → answered (some e, c) next ≡ next c
answered-error zero c next h = absurd (omega arith)
answered-error (suc e) c next h = refl

-- The same writes so many times.
abbrev pub repeated : ℕ → List Effect → List Effect → List Effect
repeated zero effects done = done
repeated (suc n) effects done = repeated n effects (done ++ effects)

module _ (fd : Floppy) where
  -- What is read behind these answers, and the interrupts of so many of them.
  abbrev pub all_reads : List Status → List (ℕ × ℕ) → List (ℕ × ℕ)
  all_reads [] reads = reads
  all_reads (a ∷ answers) reads = status_reads fd a (all_reads answers reads)

  abbrev pub interrupts : List Status → List Interrupt → List Interrupt
  interrupts [] coming = coming
  interrupts (a ∷ answers) coming = floppy ∷ interrupts answers coming

  module _ (dma_buffer : ℕ) (write : Bool) (dma : List (ℕ × ℕ)) where
    pub rw_loop-good :
        (left : ℕ) (before : List Status) (good : Status) (reads : List (ℕ × ℕ))
        (coming : List Interrupt) (errno : ℕ) (done : List Effect)
        → fd_setup_dma dma_buffer 512 write ≡ some dma
        → all_errors before ≡ true
        → length before < left
        → errno_of good ≡ some 0
        → rw_loop left dma_buffer fd write (
            controller fd
              (all_reads before (status_reads fd good reads))
              (interrupts before (floppy ∷ coming))
              errno
              done)
          ≡ some (
            pos 0,
            controller fd reads coming 0
                (repeated (suc (length before)) (attempt_effects fd dma write) done),
          )
    unfolding rw_loop
    rw_loop-good zero before good reads coming errno done d b l g = absurd (omega arith)
    rw_loop-good (suc left) [] good reads coming errno done d b l g =
        rw (rw_attempt-answer fd dma_buffer write good reads coming errno done d g) refl
    rw_loop-good (suc left) (a ∷ before) good reads coming errno done d b l g =
        let (e, at) = is_error-suc (errno_of a) (ground arith) in
        rw
          (rw_attempt-answer fd dma_buffer write a (all_reads before (status_reads fd good reads))
            (interrupts before (floppy ∷ coming)) errno done d at)
          (rw_loop-good left before good reads coming (suc e) (done ++ attempt_effects fd dma write)
            d (ground arith) (omega arith) g)

    rw_loop-bad :
        (left : ℕ) (before : List Status) (bad : Status) (reads : List (ℕ × ℕ))
        (coming : List Interrupt) (errno e : ℕ) (done : List Effect)
        → fd_setup_dma dma_buffer 512 write ≡ some dma
        → all_errors before ≡ true
        → length before + 1 ≡ left
        → errno_of bad ≡ some (suc e)
        → rw_loop left dma_buffer fd write (
            controller fd
              (all_reads before (status_reads fd bad reads))
              (interrupts before (floppy ∷ coming))
              errno
              done)
          ≡ some (
            negsuc 0,
            controller fd reads coming (suc e) (repeated left (attempt_effects fd dma write) done),
          )
    unfolding rw_loop
    rw_loop-bad zero before bad reads coming errno e done d b l h = absurd (omega arith)
    rw_loop-bad (suc zero) [] bad reads coming errno e done d b l h =
        let failed : (suc e == 0) ≡ false = ground arith in
        rw (rw_attempt-answer fd dma_buffer write bad reads coming errno done d h, failed) refl
    rw_loop-bad (suc (suc left)) [] bad reads coming errno e done d b l h = absurd (omega arith)
    rw_loop-bad (suc left) (a ∷ before) bad reads coming errno e done d b l h =
        let (e', at) = is_error-suc (errno_of a) (ground arith) in
        rw
          (rw_attempt-answer fd dma_buffer write a (all_reads before (status_reads fd bad reads))
            (interrupts before (floppy ∷ coming)) errno done d at)
          (rw_loop-bad left before bad reads coming (suc e') e
            (done ++ attempt_effects fd dma write) d (ground arith) (omega arith) h)

    -- On a controller that answers each attempt by an interrupt and a status, a transfer succeeds when
    -- one of the first ten answers says success and all before it are errors, and fails with the error of
    -- the tenth answer when ten answers are errors. For each attempt it writes the set up of the DMA and
    -- the command again, and it takes no answer behind the last one. The set up does not panic.
    pub fd_rw_block-retries :
        (before nine : List Status) (good bad : Status) (reads : List (ℕ × ℕ))
        (coming : List Interrupt) (errno e : ℕ) (done : List Effect)
        → fd_setup_dma dma_buffer 512 write ≡ some dma
        → all_errors before ≡ true
        → length before < 10
        → errno_of good ≡ some 0
        → all_errors nine ≡ true
        → length nine ≡ 9
        → errno_of bad ≡ some (suc e)
        → (fd_rw_block dma_buffer fd write (
              controller fd
                (all_reads before (status_reads fd good reads))
                (interrupts before (floppy ∷ coming))
                errno
                done)
            ≡ some (
              pos 0,
              controller fd reads coming 0
                  (repeated (suc (length before)) (attempt_effects fd dma write) done),
            ))
          × (fd_rw_block dma_buffer fd write (
                controller fd
                  (all_reads nine (status_reads fd bad reads))
                  (interrupts nine (floppy ∷ coming))
                  errno
                  done)
              ≡ some (
                negsuc 0,
                controller fd reads coming
                    (suc e)
                    (repeated 10 (attempt_effects fd dma write) done),
              ))
    unfolding fd_rw_block
    fd_rw_block-retries before nine good bad reads coming errno e done d b l g b' l' h = (
      rw_loop-good 10 before good reads coming errno done d b l g,
      rw_loop-bad 10 nine bad reads coming errno e done d b' (omega arith) h,
    )
