-- ===== src/Timer/Tests.antt =====
-- The timer at concrete inputs, and the theorems at them.
use dalek.Base.{◌+◌, ◌^◌, ◌≡◌, refl, true, false, some, [], ◌∷◌, arith}
use dalek.Base.Int.{pos, negsuc}
use dalek.Timer.{
  Timer, free_task, is_free, behind, register_loop, registered, timer_handler, run_tasks,
  timer_init, timer_register_task, timer_unregister_task, timer_get_tick, sleep,
}
use dalek.Timer.Tasks.{count_calls}
use dalek.Timer.Ticks.{ticks, task_of, ticks-periodic, sleep-ticks}
use dalek.Timer.Late.{ticks-overflow}
use dalek.Timer.Register.{timer_register_task-free, timer_register_task-full}

-- A task of period 50 in the second place, registered at tick 100.
abbrev clock : Timer
clock = record { counter = 100; tasks = free_task ∷ task_of 7 50 100 ∷ free_task ∷ []; calls = [] }

ticks-periodic_example : count_calls 1 (ticks 120 clock).calls ≡ 2
ticks-periodic_example = ticks-periodic clock 1 7 50 120 (omega arith) (omega arith) refl

-- The same task after 2 ^ 32 ticks.
abbrev late_clock : Timer
late_clock = record { counter = 2 ^ 32 + 9; tasks = task_of 7 50 3 ∷ []; calls = [] }

ticks-overflow_example : count_calls 0 (ticks 4 late_clock).calls ≡ 4
ticks-overflow_example =
    ticks-overflow late_clock 0 7 50 3 4 (omega arith) (omega arith) (omega arith) (omega arith)
      refl

sleep-ticks_example : sleep 3 clock ≡ some (ticks 3 clock)
sleep-ticks_example = sleep-ticks 3 clock (omega arith) (omega arith)

clock_first_used : is_free (task_of 7 50 100) ≡ false
unfolding is_free
clock_first_used = refl

clock_place_free : is_free free_task ≡ true
unfolding is_free
clock_place_free = refl

-- A list of two places, the first taken.
abbrev half_full : Timer
half_full = record { counter = 5; tasks = task_of 7 50 0 ∷ free_task ∷ []; calls = [] }

half_used : is_free (task_of 7 50 0) ≡ false
unfolding is_free
half_used = refl

timer_register_task-free_instance :
    timer_register_task half_full 8 20
    ≡ (record half_full { tasks = task_of 7 50 0 ∷ task_of 8 20 5 ∷ [] }, pos 1)
timer_register_task-free_instance =
    timer_register_task-free half_full 8 20 1 (half_used, clock_place_free)

abbrev full : Timer
full = record { counter = 5; tasks = task_of 7 50 0 ∷ []; calls = [] }

timer_register_task-full_instance : timer_register_task full 8 20 ≡ (full, negsuc 0)
timer_register_task-full_instance = timer_register_task-full full 8 20 (half_used, tt)

-- Two places, a registration, 20 ticks and its removal.
registered_and_run : count_calls 1 (ticks 20 (timer_register_task half_full 8 20).0).calls ≡ 1
unfolding timer_register_task timer_handler run_tasks registered register_loop behind is_free
registered_and_run = refl

started : (timer_init.1).counter ≡ 0
unfolding timer_init
started = refl

unregistered : (timer_unregister_task full 0).counter ≡ 5
unfolding timer_unregister_task
unregistered = refl

tick_read : timer_get_tick full ≡ pos 5
unfolding timer_get_tick
tick_read = refl
