-- ===== src/Timer/Late.antt =====
-- The ticks of bootloader/stage2/timer.c from the 2 ^ 32nd on.
use dalek.Base.{
  ℕ, zero, suc, ◌+◌, ◌%◌, ◌^◌, ◌≤◌, ◌<◌, ◌≡◌, refl, ap, ◌∙◌, true, some, get_elem?, arith,
}
use dalek.Timer.{Timer, due}
use dalek.Timer.Tasks.{count_calls}
use dalek.Timer.Ticks.{ticks, task_of, next, tick_task, task_hit, ticks-counter}

overflow_due :
    (now f p last : ℕ)
    → p < 2 ^ 32
    → last + 2 ^ 32 < now
    → now < 2 ^ 64
    → due now (task_of f p last) ≡ true
overflow_due now f p last h o l = ground arith

-- A task `n` ticks after the ticks passed 32 bits: the time of its last call fits, and is wrong.
abbrev Late : ℕ → ℕ → ℕ → ℕ → Timer → Timer → ℕ → Type 0
Late j f p n t u last =
    (last < 2 ^ 32)
    × (last + 2 ^ 32 ≤ t.counter + n)
    × (get_elem? u.tasks j ≡ some (task_of f p last))
    × (count_calls j u.calls ≡ count_calls j t.calls + n)

Late-ticks :
    (t : Timer) (j f p l n : ℕ)
    → p < 2 ^ 32
    → l < 2 ^ 32
    → l + 2 ^ 32 ≤ t.counter
    → t.counter + n < 2 ^ 64
    → get_elem? t.tasks j ≡ some (task_of f p l)
    → (last : ℕ) × Late j f p n t (ticks n t) last
Late-ticks t j f p l zero hp hl o fits k = (l, (hl, omega arith, k, omega arith))
Late-ticks t j f p l (suc n) hp hl o fits k =
    let (last, (small, over, at, calls)) = Late-ticks t j f p l n hp hl o (omega arith) k in
    let counted : (ticks n t).counter ≡ t.counter + n = ticks-counter n t (omega arith) in
    let now : next (ticks n t) ≡ t.counter + suc n = omega (arith, counted) in
    let (k', e') = tick_task (ticks n t) j (t.counter + suc n) now at in
    let (task, one) =
      task_hit (t.counter + suc n) f p last ((t.counter + suc n) % 2 ^ 32)
        (overflow_due (t.counter + suc n) f p last hp (omega (arith, over)) fits) refl in
    (
      (t.counter + suc n) % 2 ^ 32,
      (omega arith, omega arith, k' ∙ ap some task, omega (arith, e', calls, one)),
    )

-- A task whose stored time of its last call is 2 ^ 32 ticks or more behind the counter is called at
-- every tick from then on, whatever its period.
pub ticks-overflow :
    (t : Timer) (j f p l n : ℕ)
    → p < 2 ^ 32
    → l < 2 ^ 32
    → l + 2 ^ 32 ≤ t.counter
    → t.counter + n < 2 ^ 64
    → get_elem? t.tasks j ≡ some (task_of f p l)
    → count_calls j (ticks n t).calls ≡ count_calls j t.calls + n
ticks-overflow t j f p l n hp hl o fits k =
    let (last, (small, over, at, calls)) = Late-ticks t j f p l n hp hl o fits k in calls
