-- ===== src/Timer.antt =====
-- bootloader/stage2/timer.c and timer.h: the tick, the periodic tasks and sleeping. A callback is the
-- address of a function, and a call of it an entry of a list. Callbacks that change the tasks, as the
-- one of the test command does that removes itself, are outside the model.
pub mod Tasks
pub mod Ticks
pub mod Late
pub mod Register
mod Tests
use dalek.Base.{
  ℕ, zero, suc, ◌+◌, ◌-◌, ◌/◌, ◌%◌, ◌^◌, Bool, true, false, Option, none, some, List, [], ◌∷◌, ◌++◌,
  ltb, leb, if◌then◌else◌, set, get_elem?, replicate,
}
use dalek.Base.Int.{ℤ, pos, negsuc}

abbrev pub ticks_per_sec : ℕ
ticks_per_sec = 1000

abbrev pub timer_max_tasks : ℕ
timer_max_tasks = 32

-- `struct timer_task`; no callback is a free place. The numbers are `uint32_t`.
pub record TimerTask : Type 0 where
  pub callback : Option ℕ
  pub period : ℕ
  pub last_call : ℕ

-- A call of a callback, with the number of its task.
abbrev pub Call : Type 0
Call = ℕ × ℕ

-- `timer_counter`, a `uint64_t`, `task_list`, and the calls made, first first.
pub record Timer : Type 0 where
  pub counter : ℕ
  pub tasks : List TimerTask
  pub calls : List Call

abbrev pub free_task : TimerTask
free_task = record { callback = none; period = 0; last_call = 0 }

-- The callback of a task that has one.
abbrev pub get_callback : TimerTask → ℕ
get_callback task = elim (task.callback) [ none ↦ 0 | some f ↦ f ]

-- The task is to be called: the difference is a `uint64_t`.
abbrev pub due : ℕ → TimerTask → Bool
due now task = elim (task.callback) [
  | none ↦ false
  | some f ↦ leb task.period ((now + 2 ^ 64 - task.last_call) % 2 ^ 64)
]

-- The loop of `timer_handler` from task `i` on: the tasks and the calls.
unfoldable pub run_tasks : ℕ → ℕ → List TimerTask → List TimerTask × List Call
run_tasks now i [] = ([], [])
run_tasks now i (task ∷ tasks) =
    let (rest, calls) = run_tasks now (i + 1) tasks in
    if due now task
    then (record task { last_call = now % 2 ^ 32 } ∷ rest, (get_callback task, i) ∷ calls)
    else (task ∷ rest, calls)

unfoldable pub timer_handler : Timer → Timer
timer_handler t =
    let now = (t.counter + 1) % 2 ^ 64 in
    let (tasks, calls) = run_tasks now 0 t.tasks in
    record { counter = now; tasks = tasks; calls = t.calls ++ calls }

-- What `timer_init` writes to the ports, and the tasks.
unfoldable pub timer_init : List (ℕ × ℕ) × Timer
timer_init =
    let divisor = 1193180 / ticks_per_sec in
    (
      (0x43, 0x36) ∷ (0x40, divisor % 2 ^ 8) ∷ (0x40, divisor / 2 ^ 8) ∷ [],
      record { counter = 0; tasks = replicate timer_max_tasks free_task; calls = [] },
    )

-- The test `callback == NULL`.
unfoldable pub is_free : TimerTask → Bool
is_free task = elim (task.callback) [ none ↦ true | some f ↦ false ]

-- A place in what stands behind `task`, behind `task`.
unfoldable pub behind : TimerTask → Option (List TimerTask × ℕ) → Option (List TimerTask × ℕ)
behind task none = none
behind task (some (tasks, place)) = some (task ∷ tasks, place)

-- The loop of `timer_register_task` from place `i` on: the tasks and the place taken.
unfoldable pub register_loop : ℕ → TimerTask → List TimerTask → Option (List TimerTask × ℕ)
register_loop i new [] = none
register_loop i new (task ∷ tasks) =
    let rest = register_loop (i + 1) new tasks in
    if is_free task then some (new ∷ tasks, i) else behind task rest

-- The task that a registration sets.
abbrev pub new_task : Timer → ℕ → ℕ → TimerTask
new_task t func ms = record { callback = some func; period = ms; last_call = t.counter % 2 ^ 32 }

-- What a registration leaves and returns.
unfoldable pub registered : Timer → Option (List TimerTask × ℕ) → Timer × ℤ
registered t none = (t, negsuc 0)
registered t (some (tasks, place)) = (record t { tasks = tasks }, pos place)

unfoldable pub timer_register_task : Timer → ℕ → ℕ → Timer × ℤ
timer_register_task t func ms = registered t (register_loop 0 (new_task t func ms) t.tasks)

-- `task_id` names a place.
unfoldable pub timer_unregister_task : Timer → ℕ → Timer
timer_unregister_task t task_id = elim (get_elem? t.tasks task_id) [
  | none ↦ t
  | some task ↦ record t { tasks = set t.tasks task_id (record task { callback = none }) }
]

-- The loop of `sleep`, on fuel, woken by the timer alone.
unfoldable pub sleep_loop : ℕ → ℕ → ℕ → Timer → Option Timer
sleep_loop zero start ms t = none
sleep_loop (suc fuel) start ms t =
    let rest = sleep_loop fuel start ms (timer_handler t) in
    if ltb ((t.counter + 2 ^ 64 - start) % 2 ^ 64) ms then rest else some t

-- A tick more than the milliseconds is fuel enough.
unfoldable pub sleep : ℕ → Timer → Option Timer
sleep ms t = sleep_loop (suc ms) t.counter ms t

-- `timer_get_tick`, an `int`: the low half of the counter.
unfoldable pub timer_get_tick : Timer → ℤ
timer_get_tick t =
    let low = t.counter % 2 ^ 32 in if ltb low (2 ^ 31) then pos low else negsuc (2 ^ 32 - low - 1)
