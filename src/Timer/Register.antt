-- ===== src/Timer/Register.antt =====
-- `timer_register_task` and `timer_unregister_task` of bootloader/stage2/timer.c.
use dalek.Base.{
  ℕ, zero, suc, ◌+◌, ◌≡◌, refl, ap, ◌∙◌, true, false, none, some, List, [], ◌∷◌, set, arith,
}
use dalek.Base.Int.{pos, negsuc}
use dalek.Timer.{
  TimerTask, Timer, register_loop, behind, registered, new_task, is_free, timer_register_task,
}

-- Every place has a callback.
abbrev pub AllUsed : List TimerTask → Type 0
AllUsed [] = Unit {0}
AllUsed (task ∷ tasks) = (is_free task ≡ false) × AllUsed tasks

-- The first free place is `i`.
abbrev pub FirstFree : List TimerTask → ℕ → Type 0
FirstFree [] i = ⊥
FirstFree (task ∷ tasks) zero = is_free task ≡ true
FirstFree (task ∷ tasks) (suc i) = (is_free task ≡ false) × FirstFree tasks i

register_loop-free :
    (i : ℕ) (new : TimerTask) (tasks : List TimerTask) (place : ℕ)
    → FirstFree tasks place
    → register_loop i new tasks ≡ some (set tasks place new, i + place)
unfolding register_loop behind
register_loop-free i new [] place h = absurd h
register_loop-free i new (task ∷ tasks) zero h =
    rw h (ap (λ k. some (new ∷ tasks, k)) (omega arith))
register_loop-free i new (task ∷ tasks) (suc place) (used, h) =
    let e : i + 1 + place ≡ i + suc place = omega arith in
    rw (used, register_loop-free (i + 1) new tasks place h, e) refl

register_loop-full :
    (i : ℕ) (new : TimerTask) (tasks : List TimerTask)
    → AllUsed tasks
    → register_loop i new tasks ≡ none
unfolding register_loop behind
register_loop-full i new [] h = refl
register_loop-full i new (task ∷ tasks) (used, h) =
    rw (used, register_loop-full (i + 1) new tasks h) refl

-- A registration takes the first free place, sets its callback, its period and the tick as the time of
-- its last call, leaves every other place, and returns the number of the place.
pub timer_register_task-free :
    (t : Timer) (func ms place : ℕ)
    → FirstFree t.tasks place
    → timer_register_task t func ms
      ≡ (record t { tasks = set t.tasks place (new_task t func ms) }, pos place)
unfolding timer_register_task registered
timer_register_task-free t func ms place h =
    let e : 0 + place ≡ place = omega arith in
    ap (registered t) (register_loop-free 0 (new_task t func ms) t.tasks place h)
    ∙ ap (λ k. (record t { tasks = set t.tasks place (new_task t func ms) }, pos k)) e

-- When every place is taken a registration returns -1 and changes nothing.
pub timer_register_task-full :
    (t : Timer) (func ms : ℕ) → AllUsed t.tasks → timer_register_task t func ms ≡ (t, negsuc 0)
unfolding timer_register_task registered
timer_register_task-full t func ms h =
    ap (registered t) (register_loop-full 0 (new_task t func ms) t.tasks h)
