-- ===== src/Floppy/Start/Tests.antt =====
-- The start with two drives in the CMOS, and the theorem at it.
use dalek.Base.{◌≡◌, true, some, [], ◌∷◌, arith}
use dalek.Base.Int.{pos, negsuc}
use dalek.Floppy.Wait.{tick}
use dalek.Floppy.Start.{no_driver, fd_init}
use dalek.Floppy.Start.Drives.{answering, started, expected_driver, fd_init-drives}

fd_init-drives_example :
    (fd_init (answering 0x90 0x42 0x10 [] (tick ∷ []) 3)
      ≡ some (pos 0, (expected_driver 4 2, started [] (tick ∷ []) 3)))
    × (fd_init (answering 0x90 0x42 0x00 [] (tick ∷ []) 3)
        ≡ some (negsuc 0, (record no_driver { handler = true }, started [] (tick ∷ []) 3)))
fd_init-drives_example =
    fd_init-drives 0x42 0x00 [] (tick ∷ []) 3 (omega arith) (omega arith) (omega arith)
