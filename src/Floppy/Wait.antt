-- ===== src/Floppy/Wait.antt =====
-- The waits of bootloader/stage2/devices/floppy/floppy.c: for the controller's interrupt, with a
-- timeout, and for its main status. What the hardware does is a list: the interrupts in the order in
-- which they come, and the values of the status register in the order in which they are read.
use dalek.Base.{
  ℕ, ◌+◌, ◌-◌, ◌/◌, ◌%◌, ◌^◌, ◌≤◌, ◌<◌, ◌≡◌, ap, ◌∙◌, Bool, true, false, ◌&&◌, Option, none, some,
  List, [], ◌∷◌, ◌++◌, ltb, ◌==◌, if◌then◌else◌, length, arith,
}
use dalek.Base.Int.{ℤ, pos, negsuc}
use dalek.Errno.{etime, ebusy}

-- What ends a `hlt`.
pub data Interrupt : Type 0 where
  tick : Interrupt
  floppy : Interrupt
  other : Interrupt

-- What a wait leaves: the result, `errno`, `irq_waiting` and the interrupts to come.
pub record Waited : Type 0 where
  pub result : ℤ
  pub errno : ℕ
  pub irq_waiting : ℕ
  pub coming : List Interrupt

-- The end of `fd_wait_irq`.
abbrev pub wait_end : ℕ → ℕ → List Interrupt → Waited
wait_end errno irq_waiting coming =
    if ltb 0 irq_waiting
    then record { result = pos 0; errno = errno; irq_waiting = irq_waiting - 1; coming = coming }
    else record { result = negsuc 0; errno = etime; irq_waiting = irq_waiting; coming = coming }

-- `fd_irq_handler`, on a `uint8_t`.
abbrev pub fd_irq_handler : ℕ → ℕ
fd_irq_handler irq_waiting = (irq_waiting + 1) % 2 ^ 8

-- `fd_wait_irq` after `elapsed` ticks; `none` is a `hlt` that no interrupt ends.
unfoldable pub wait_loop : ℕ → ℕ → ℕ → ℕ → List Interrupt → Option Waited
wait_loop timeout errno elapsed irq_waiting [] =
    if irq_waiting == 0 && ltb elapsed timeout then none else some (wait_end errno irq_waiting [])
wait_loop timeout errno elapsed irq_waiting (i ∷ coming) =
    if irq_waiting == 0 && ltb elapsed timeout
    then elim i [
      | tick ↦ wait_loop timeout errno (elapsed + 1) irq_waiting coming
      | floppy ↦ wait_loop timeout errno elapsed (fd_irq_handler irq_waiting) coming
      | other ↦ wait_loop timeout errno elapsed irq_waiting coming
    ]
    else some (wait_end errno irq_waiting (i ∷ coming))

unfoldable pub fd_wait_irq : ℕ → ℕ → ℕ → List Interrupt → Option Waited
fd_wait_irq timeout errno irq_waiting coming = wait_loop timeout errno 0 irq_waiting coming

-- The ticks before the controller's interrupt, and that there is none of it.
abbrev pub count_ticks : List Interrupt → ℕ
count_ticks [] = 0
count_ticks (tick ∷ is) = 1 + count_ticks is
count_ticks (floppy ∷ is) = count_ticks is
count_ticks (other ∷ is) = count_ticks is

abbrev pub quiet : List Interrupt → Bool
quiet [] = true
quiet (tick ∷ is) = quiet is
quiet (floppy ∷ is) = false
quiet (other ∷ is) = quiet is

pub wait_loop-arrives :
    (timeout errno elapsed : ℕ) (before after : List Interrupt)
    → quiet before ≡ true
    → elapsed + count_ticks before < timeout
    → wait_loop timeout errno elapsed 0 (before ++ (floppy ∷ after))
      ≡ some (record { result = pos 0; errno = errno; irq_waiting = 0; coming = after })
unfolding wait_loop
wait_loop-arrives timeout errno elapsed [] [] q h = ground arith
wait_loop-arrives timeout errno elapsed [] (i ∷ after) q h = ground arith
wait_loop-arrives timeout errno elapsed (tick ∷ before) after q h =
    let waits : ltb elapsed timeout ≡ true = ground arith in
    rw waits (wait_loop-arrives timeout errno (elapsed + 1) before after q (omega arith))
wait_loop-arrives timeout errno elapsed (floppy ∷ before) after q h = ground arith
wait_loop-arrives timeout errno elapsed (other ∷ before) after q h =
    let waits : ltb elapsed timeout ≡ true = ground arith in
    rw waits (wait_loop-arrives timeout errno elapsed before after q h)

wait_loop-times_out :
    (timeout errno elapsed : ℕ) (before after : List Interrupt)
    → quiet before ≡ true
    → elapsed + count_ticks before + 1 ≡ timeout
    → wait_loop timeout errno elapsed 0 (before ++ (tick ∷ after))
      ≡ some (record { result = negsuc 0; errno = etime; irq_waiting = 0; coming = after })
unfolding wait_loop
wait_loop-times_out timeout errno elapsed [] [] q h = ground arith
wait_loop-times_out timeout errno elapsed [] (i ∷ after) q h = ground arith
wait_loop-times_out timeout errno elapsed (tick ∷ before) after q h =
    let waits : ltb elapsed timeout ≡ true = ground arith in
    rw waits (wait_loop-times_out timeout errno (elapsed + 1) before after q (omega arith))
wait_loop-times_out timeout errno elapsed (floppy ∷ before) after q h = ground arith
wait_loop-times_out timeout errno elapsed (other ∷ before) after q h =
    let waits : ltb elapsed timeout ≡ true = ground arith in
    rw waits (wait_loop-times_out timeout errno elapsed before after q h)

-- With no interrupt waiting, the wait succeeds when the controller's interrupt comes before as many ticks
-- as the timeout, whatever other interrupts come, and takes that interrupt; and it fails with ETIME at
-- the last of these ticks when it has not come by then.
pub fd_wait_irq_lem :
    (timeout errno : ℕ) (early late after : List Interrupt)
    → quiet early ≡ true
    → count_ticks early < timeout
    → quiet late ≡ true
    → count_ticks late + 1 ≡ timeout
    → (fd_wait_irq timeout errno 0 (early ++ (floppy ∷ after))
        ≡ some (record { result = pos 0; errno = errno; irq_waiting = 0; coming = after }))
      × (fd_wait_irq timeout errno 0 (late ++ (tick ∷ after))
          ≡ some (record { result = negsuc 0; errno = etime; irq_waiting = 0; coming = after }))
unfolding fd_wait_irq
fd_wait_irq_lem timeout errno early late after q h q' h' = (
  wait_loop-arrives timeout errno 0 early after q (omega arith),
  wait_loop-times_out timeout errno 0 late after q' (omega arith),
)

-- `fd_wait_ready` after `i` sleeps: the result, `errno` and the number of sleeps of 10 ms; `none` is a
-- value that is not given.
unfoldable pub ready_loop : ℕ → ℕ → List ℕ → Option (ℤ × ℕ × ℕ)
ready_loop errno i [] = none
ready_loop errno i (status ∷ values) =
    let rest = ready_loop errno (i + 1) values in
    if status / 2 ^ 7 % 2 == 1
    then some (pos 0, errno, i)
    else if ltb 600 (i + 1)
    then some (negsuc 0, ebusy, i + 1)
    else rest

unfoldable pub fd_wait_ready : ℕ → List ℕ → Option (ℤ × ℕ × ℕ)
fd_wait_ready errno values = ready_loop errno 0 values

-- The controller is busy at every one of the values.
abbrev pub busy : List ℕ → Bool
busy [] = true
busy (status ∷ values) = status / 2 ^ 7 % 2 == 0 && busy values

ready_loop_lem :
    (errno i : ℕ) (before : List ℕ) (status : ℕ) (after : List ℕ)
    → busy before ≡ true
    → (status / 2 ^ 7 % 2 ≡ 1
        → i + length before ≤ 600
        → ready_loop errno i (before ++ (status ∷ after)) ≡ some (pos 0, errno, i + length before))
      × (status / 2 ^ 7 % 2 ≡ 0
          → i + length before ≡ 600
          → ready_loop errno i (before ++ (status ∷ after)) ≡ some (negsuc 0, ebusy, 601))
unfolding ready_loop
ready_loop_lem errno i [] status after b = (λ s h. ground arith, λ s h. ground arith)
ready_loop_lem errno i (x ∷ before) status after b =
    let (ready, late) = ready_loop_lem errno (i + 1) before status after (ground arith) in
    (
      λ s h.
          let e : i + 1 + length before ≡ i + (1 + length before) = omega arith in
          ground (arith, ready s (omega arith)),
      λ s h. ground (arith, late s (omega arith)),
    )

-- The wait for the controller succeeds if it is ready at one of the first 601 reads, and fails with
-- EBUSY, after 601 sleeps, if it is not.
pub fd_wait_ready_lem :
    (errno : ℕ) (early late : List ℕ) (ready not_ready : ℕ) (after : List ℕ)
    → busy early ≡ true
    → length early ≤ 600
    → ready / 2 ^ 7 % 2 ≡ 1
    → busy late ≡ true
    → length late ≡ 600
    → not_ready / 2 ^ 7 % 2 ≡ 0
    → (fd_wait_ready errno (early ++ (ready ∷ after)) ≡ some (pos 0, errno, length early))
      × (fd_wait_ready errno (late ++ (not_ready ∷ after)) ≡ some (negsuc 0, ebusy, 601))
unfolding fd_wait_ready
fd_wait_ready_lem errno early late ready not_ready after b l r b' l' n =
    let e : 0 + length early ≡ length early = omega arith in
    (
      (ready_loop_lem errno 0 early ready after b).0 r (omega arith)
          ∙ ap (λ k. some (pos 0, errno, k)) e,
      (ready_loop_lem errno 0 late not_ready after b').1 n (omega arith),
    )
