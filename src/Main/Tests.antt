-- ===== src/Main/Tests.antt =====
-- A smashed stack, and the theorem at it; and the welcome of a small machine.
use dalek.Base.{ℕ, refl, some, List, [], replicate, arith}
use dalek.Strings.Text.{chars}
use dalek.Stdio.Console.{console, screen}
use dalek.Stdio.Formats.{text, format_text, arguments, meaning}
use dalek.Stdio.Leaves.{Leaves}
use dalek.Main.{halts, stack_chk_fail}
use dalek.Main.Panics.{panic-Leaves}

abbrev stack : List ℕ
stack = replicate 64 170

panic-Leaves_instance :
    Leaves console
      (stack_chk_fail (λ s. some screen) stack (([], []), 5))
      (λ s'. halts (s', 5))
      ([], [])
      (chars "PANIC!! [__stack_chk_fail] Stack smash detected!\nHalting...\n")
unfolding stack_chk_fail format_text arguments meaning
panic-Leaves_instance =
    panic-Leaves console stack (chars "__stack_chk_fail") (text (chars "Stack smash detected!"))
      ([], []) 5 (ground arith) (ground arith) refl
