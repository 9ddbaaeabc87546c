-- ===== src/Timer/Tasks.antt =====
-- The task list of bootloader/stage2/timer.c.
use mathlib.Core.Option
use dalek.Base.{
  ℕ, zero, suc, ◌+◌, ◌%◌, ◌^◌, ◌<◌, ◌≡◌, refl, ap, sym, map, ◌++◌, true, false, Bool-cases, inl,
  inr, none, some, List, [], ◌∷◌, ◌==◌, if◌then◌else◌, get_elem?, arith,
}
use dalek.Timer.{TimerTask, Call, due, run_tasks}

-- How many of the calls are for the task `id`.
abbrev pub count_calls : ℕ → List Call → ℕ
count_calls id [] = 0
count_calls id ((f, i) ∷ calls) = (if i == id then 1 else 0) + count_calls id calls

-- A task after a tick.
abbrev pub touched : ℕ → TimerTask → TimerTask
touched now task = if due now task then record task { last_call = now % 2 ^ 32 } else task

-- The number of calls of a task in a tick.
abbrev pub called : ℕ → TimerTask → ℕ
called now task = if due now task then 1 else 0

some_injective : {x y : TimerTask} → some x ≡ some y → x ≡ y
some_injective {x} h = ap (λ o. elim o [ none ↦ x | some a ↦ a ]) h

called-yes :
    (now : ℕ) (x task : TimerTask) → some x ≡ some task → due now x ≡ true → called now task ≡ 1
called-yes now x task h hit = rw (sym (some_injective h), hit) refl

called-no :
    (now : ℕ) (x task : TimerTask) → some x ≡ some task → due now x ≡ false → called now task ≡ 0
called-no now x task h miss = rw (sym (some_injective h), miss) refl

run_tasks-tasks :
    (now i : ℕ) (tasks : List TimerTask) → (run_tasks now i tasks).0 ≡ map (touched now) tasks
unfolding run_tasks
run_tasks-tasks now i [] = refl
run_tasks-tasks now i (x ∷ tasks) = elim (Bool-cases (due now x)) [
  | inl hit ↦ rw (hit, run_tasks-tasks now (i + 1) tasks) refl
  | inr miss ↦ rw (miss, run_tasks-tasks now (i + 1) tasks) refl
]

get_elem?-map :
    (f : TimerTask → TimerTask) (tasks : List TimerTask) (j : ℕ) {task : TimerTask}
    → get_elem? tasks j ≡ some task
    → get_elem? (map f tasks) j ≡ some (f task)
get_elem?-map f [] j h = ground arith
get_elem?-map f (x ∷ tasks) zero h = ap (λ o. Option.map f o) h
get_elem?-map f (x ∷ tasks) (suc j) h = get_elem?-map f tasks j h

-- After a tick a task that was called has the time of it, and another is as it was.
pub run_tasks-task :
    (now i : ℕ) (tasks : List TimerTask) (j : ℕ) {task : TimerTask}
    → get_elem? tasks j ≡ some task
    → get_elem? (run_tasks now i tasks).0 j ≡ some (touched now task)
run_tasks-task now i tasks j h =
    rw (run_tasks-tasks now i tasks) (get_elem?-map (touched now) tasks j h)

count_calls-before :
    (now i id : ℕ) (tasks : List TimerTask) → id < i → count_calls id (run_tasks now i tasks).1 ≡ 0
unfolding run_tasks
count_calls-before now i id [] h = refl
count_calls-before now i id (x ∷ tasks) h = elim (Bool-cases (due now x)) [
  | inl hit ↦
      let other : (i == id) ≡ false = ground arith in
      rw (hit, other) (omega (arith, count_calls-before now (i + 1) id tasks (omega arith)))
  | inr miss ↦ rw miss (count_calls-before now (i + 1) id tasks (omega arith))
]

-- In a tick a task is called once if it is due, and else not.
pub count_calls-run_tasks :
    (now i id : ℕ) (tasks : List TimerTask) (j : ℕ) {task : TimerTask}
    → id ≡ i + j
    → get_elem? tasks j ≡ some task
    → count_calls id (run_tasks now i tasks).1 ≡ called now task
unfolding run_tasks
count_calls-run_tasks now i id [] j e h = ground arith
count_calls-run_tasks now i id (x ∷ tasks) zero {task} e h = elim (Bool-cases (due now x)) [
  | inl hit ↦
      let same : (i == id) ≡ true = ground arith in
      rw (hit, same)
        (omega (
          arith,
          count_calls-before now (i + 1) id tasks (omega arith),
          called-yes now x task h hit,
        ))
  | inr miss ↦ rw miss (
      omega
        (arith, count_calls-before now (i + 1) id tasks (omega arith), called-no now x task h miss))
]
count_calls-run_tasks now i id (x ∷ tasks) (suc j) e h = elim (Bool-cases (due now x)) [
  | inl hit ↦
      let other : (i == id) ≡ false = ground arith in
      rw (hit, other) (omega (arith, count_calls-run_tasks now (i + 1) id tasks j (omega arith) h))
  | inr miss ↦ rw miss (count_calls-run_tasks now (i + 1) id tasks j (omega arith) h)
]

pub count_calls-append :
    (id : ℕ) (xs ys : List Call) → count_calls id (xs ++ ys) ≡ count_calls id xs + count_calls id ys
count_calls-append id [] ys = omega arith
count_calls-append id ((f, i) ∷ xs) ys = omega (arith, count_calls-append id xs ys)
