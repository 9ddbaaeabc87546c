-- ===== src/Timer/Ticks.antt =====
-- Many ticks of bootloader/stage2/timer.c: how often a task is called, and how long `sleep` lasts.
use mathlib.Core.Path.{subst}
use native.Mathlib.Nat.{div-add-mod', mod-lt, mul-add-div_right, div-eq_of_lt}
use dalek.Base.{
  ℕ, zero, suc, ◌+◌, ◌-◌, ◌*◌, ◌/◌, ◌%◌, ◌^◌, ◌<◌, ◌≡◌, refl, ap, sym, ◌∙◌, true, false, Bool-cases,
  inl, inr, some, ltb, leb, get_elem?, arith,
}
use dalek.Timer.{TimerTask, Timer, due, timer_handler, sleep_loop, sleep}
use dalek.Timer.Tasks.{
  count_calls, touched, called, run_tasks-task, count_calls-run_tasks, count_calls-append,
}

-- `n` ticks, one after the other.
abbrev pub ticks : ℕ → Timer → Timer
ticks zero t = t
ticks (suc n) t = timer_handler (ticks n t)

-- A task of the callback `f`.
abbrev pub task_of : ℕ → ℕ → ℕ → TimerTask
task_of f p l = record { callback = some f; period = p; last_call = l }

abbrev pub next : Timer → ℕ
next t = (t.counter + 1) % 2 ^ 64

pub tick_task :
    (t : Timer) (j now : ℕ) {task : TimerTask}
    → next t ≡ now
    → get_elem? t.tasks j ≡ some task
    → (get_elem? (timer_handler t).tasks j ≡ some (touched now task))
      × (count_calls j (timer_handler t).calls ≡ count_calls j t.calls + called now task)
unfolding timer_handler
tick_task t j now {task} e h =
    let calls = count_calls-run_tasks (next t) 0 j t.tasks j (omega arith) h in
    (
      run_tasks-task (next t) 0 t.tasks j h ∙ ap (λ m. some (touched m task)) e,
      count_calls-append j t.calls _
          ∙ ap (λ k. count_calls j t.calls + k) (calls ∙ ap (λ m. called m task) e),
    )

pub task_hit :
    (now : ℕ) (f p l l' : ℕ)
    → due now (task_of f p l) ≡ true
    → now % 2 ^ 32 ≡ l'
    → (touched now (task_of f p l) ≡ task_of f p l') × (called now (task_of f p l) ≡ 1)
task_hit now f p l l' h e = (rw h (ap (task_of f p) e), rw h refl)

task_miss :
    (now : ℕ) (f p l l' : ℕ)
    → due now (task_of f p l) ≡ false
    → l ≡ l'
    → (touched now (task_of f p l) ≡ task_of f p l') × (called now (task_of f p l) ≡ 0)
task_miss now f p l l' h e = (rw h (ap (task_of f p) e), rw h refl)

pub ticks-counter :
    (n : ℕ) (t : Timer) → t.counter + n < 2 ^ 64 → (ticks n t).counter ≡ t.counter + n
unfolding timer_handler
ticks-counter zero t h = omega arith
ticks-counter (suc n) t h = omega (arith, ticks-counter n t (omega arith))

-- The state of a task `n` ticks after its registration at `start`.
abbrev Regular : ℕ → ℕ → ℕ → ℕ → ℕ → Timer → Timer → Type 0
Regular start j f p n t u =
    (u.counter ≡ start + n)
    × (get_elem? u.tasks j ≡ some (task_of f p (start + n / p * p)))
    × (count_calls j u.calls ≡ count_calls j t.calls + n / p)

quotient_of : (n p q r : ℕ) → r < p → n ≡ q * p + r → n / p ≡ q
quotient_of n p q r l e =
    ap (λ k. k / p) e ∙ mul-add-div_right (omega arith) q r ∙ omega (arith, div-eq_of_lt l)

-- Whether the task is due one tick later, and how many periods are over then.
period_reached :
    (start n p : ℕ) (f : ℕ)
    → 0 < p
    → start + suc n < 2 ^ 32
    → leb p (n % p + 1) ≡ true
    → (due (start + suc n) (task_of f p (start + n / p * p)) ≡ true)
      × (suc n / p ≡ n / p + 1)
      × ((start + suc n) % 2 ^ 32 ≡ start + suc n / p * p)
period_reached start n p f h small l =
    let full : n % p + 1 ≡ p = ground (arith, mod-lt n h) in
    let whole : n ≡ n / p * p + n % p = omega (arith, div-add-mod' n p) in
    let q : suc n / p ≡ n / p + 1 = quotient_of (suc n) p (n / p + 1) 0 h (grind arith) in
    (ground arith, q, rw q (grind arith))

period_open :
    (start n p : ℕ) (f : ℕ)
    → 0 < p
    → start + suc n < 2 ^ 32
    → leb p (n % p + 1) ≡ false
    → (due (start + suc n) (task_of f p (start + n / p * p)) ≡ false) × (suc n / p ≡ n / p)
period_open start n p f h small l =
    let whole : n ≡ n / p * p + n % p = omega (arith, div-add-mod' n p) in
    let less : n % p + 1 < p = ground arith in
    (ground arith, quotient_of (suc n) p (n / p) (n % p + 1) less (omega arith))

counter_step : (t : Timer) (now : ℕ) → next t ≡ now → (timer_handler t).counter ≡ now
unfolding timer_handler
counter_step t now e = e

Regular-step :
    (start j f p n : ℕ) (t u : Timer)
    → 0 < p
    → start + suc n < 2 ^ 32
    → Regular start j f p n t u
    → Regular start j f p (suc n) t (timer_handler u)
Regular-step start j f p n t u pos_p small (c, k, e) =
    let now : next u ≡ start + suc n = omega arith in
    let (k', e') = tick_task u j (start + suc n) now k in
    elim (Bool-cases (leb p (n % p + 1))) [
      | inl reached ↦
          let (hit, quotient, last) = period_reached start n p f pos_p small reached in
          let (task, one) =
            task_hit (start + suc n) f p (start + n / p * p) (start + suc n / p * p) hit last in
          (
            counter_step u (start + suc n) now,
            k' ∙ ap some task,
            omega (arith, e', e, one, quotient),
          )
      | inr not_reached ↦
          let (miss, quotient) = period_open start n p f pos_p small not_reached in
          let (task, none_called) =
            task_miss (start + suc n) f p (start + n / p * p) (start + suc n / p * p) miss
              (ap (λ q. start + q * p) (sym quotient)) in
          (
            counter_step u (start + suc n) now,
            k' ∙ ap some task,
            omega (arith, e', e, none_called, quotient),
          )
    ]

Regular-ticks :
    (start j f p n : ℕ) (t : Timer)
    → 0 < p
    → start + n < 2 ^ 32
    → t.counter ≡ start
    → get_elem? t.tasks j ≡ some (task_of f p start)
    → Regular start j f p n t (ticks n t)
Regular-ticks start j f p zero t h small c k =
    let none_over : 0 / p ≡ 0 = div-eq_of_lt h in
    (
      omega arith,
      k ∙ ap some (ap (task_of f p) (rw none_over (omega arith))),
      omega (arith, none_over),
    )
Regular-ticks start j f p (suc n) t h small c k =
    Regular-step start j f p n t (ticks n t) h small
      (Regular-ticks start j f p n t h (omega arith) c k)

-- A task of period `p` that is registered at this tick has been called `n / p` times after `n` ticks,
-- while the ticks since the start fit 32 bits.
pub ticks-periodic :
    (t : Timer) (j f p n : ℕ)
    → 0 < p
    → t.counter + n < 2 ^ 32
    → get_elem? t.tasks j ≡ some (task_of f p t.counter)
    → count_calls j (ticks n t).calls ≡ count_calls j t.calls + n / p
ticks-periodic t j f p n h small k = (Regular-ticks t.counter j f p n t h small refl k).2

sleep_loop-ticks :
    (fuel k n : ℕ) (t : Timer)
    → fuel ≡ suc k
    → t.counter + n + k < 2 ^ 64
    → sleep_loop fuel t.counter (n + k) (ticks n t) ≡ some (ticks (n + k) t)
unfolding sleep_loop
sleep_loop-ticks zero k n t e fits = absurd (omega arith)
sleep_loop-ticks (suc fuel) zero n t e fits =
    let counted : (ticks n t).counter ≡ t.counter + n = ticks-counter n t (omega arith) in
    let same : n + 0 ≡ n = omega arith in
    let awake : ltb ((t.counter + n + 2 ^ 64 - t.counter) % 2 ^ 64) n ≡ false = ground arith in
    rw (counted, same, awake) refl
sleep_loop-ticks (suc fuel) (suc k) n t e fits =
    let counted : (ticks n t).counter ≡ t.counter + n = ticks-counter n t (omega arith) in
    let same : n + suc k ≡ suc n + k = omega arith in
    let asleep : ltb ((t.counter + n + 2 ^ 64 - t.counter) % 2 ^ 64) (n + suc k) ≡ true =
      ground arith in
    let rest = sleep_loop-ticks fuel k (suc n) t (omega arith) (omega arith) in
    rw (counted, asleep, same) rest

-- `sleep` of less than 2 ^ 32 milliseconds returns, after exactly as many ticks, while the counter does
-- not wrap.
pub sleep-ticks :
    (ms : ℕ) (t : Timer) → ms < 2 ^ 32 → t.counter + ms < 2 ^ 64 → sleep ms t ≡ some (ticks ms t)
unfolding sleep
sleep-ticks ms t h fits =
    let e : 0 + ms ≡ ms = omega arith in
    subst (λ m. sleep_loop (suc ms) t.counter m t ≡ some (ticks m t)) e
      (sleep_loop-ticks (suc ms) ms 0 t (omega arith) (omega arith))
