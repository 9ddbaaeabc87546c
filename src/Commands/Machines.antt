-- ===== src/Commands/Machines.antt =====
-- The commands on the machine at concrete arguments, and the theorem of the callback at one of them.
use dalek.Base.{List, ℕ, refl, [], ◌∷◌, replicate, some, ◌≡◌}
use dalek.Timer.{Timer, timer_unregister_task, free_task}
use dalek.Stdio.Console.{console, screen}
use dalek.Stdio.Leaves.{Leaves}
use dalek.Commands.Machine.{await_controller}
use dalek.Commands.Calls.{callbacks, called_lines, callbacks-Leaves}

abbrev stack : List ℕ
stack = replicate 64 170

abbrev timer : Timer
timer = record {
  counter = 5;
  tasks = free_task ∷ record free_task { callback = some 0x9000 } ∷ [];
  calls = [];
}

callbacks-Leaves_instance :
    Leaves console
      (callbacks (some screen) stack 3 1 (18, timer) (([], []), 0))
      (λ s'. ((0, timer_unregister_task timer 1), (s', 0)))
      ([], [])
      (called_lines 18 3)
callbacks-Leaves_instance = callbacks-Leaves console stack 2 1 18 timer ([], []) 0 refl refl

ready_at_last : await_controller (0x02 ∷ 0x03 ∷ 0x01 ∷ 0x02 ∷ []) ≡ some (0x02 ∷ [])
unfolding await_controller
ready_at_last = refl
