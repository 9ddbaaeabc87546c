-- ===== src/Keyboard/Reads.antt =====
-- The readers of bootloader/stage2/devices/keyboard/keyboard.c against the queue: `kb_getc` and
-- `kb_read`, and any interleaving of interrupts with reads.
use dalek.Base.{
  ℕ, zero, suc, ◌%◌, ◌≤◌, ◌<◌, ◌≡◌, refl, ap, Option, none, some, List, [], ◌∷◌, map, arith, length,
  take, drop,
}
use dalek.Keyboard.{
  Keyboard, KbBuffer, kb_pop, kb_handler, kb_default, kb_switch, kb_static, KbFlags, kb_getc,
  kb_read,
}
use dalek.Keyboard.Queue
use dalek.Keyboard.Queue.{Queue, typed, put}
use dalek.Keyboard.Ring.{IsRing, contents, popped, kb_pop-IsRing, kb_pop_refines}
use dalek.Keyboard.Handler.{IsKeyboard, kb_handler-IsKeyboard, kb_handler_refines}

-- What happens to the driver: the keyboard interrupts with a byte, or a reader takes a key.
pub data Event : Type 0 where
  irq : ℕ → Event
  getc : Event

-- A byte of an interrupt is a byte.
abbrev pub IsEvents : List Event → Type 0
IsEvents [] = Unit {0}
IsEvents (irq c ∷ evs) = (c < 256) × IsEvents evs
IsEvents (getc ∷ evs) = IsEvents evs

-- What the reads return, in order; `none` where a reader would wait.
pub run : Keyboard → List Event → List (Option ℕ)
run k [] = []
run k (irq c ∷ evs) = run (kb_handler k c) evs
run k (getc ∷ evs) = elim (kb_pop k.buffer) [
  | none ↦ none ∷ run k evs
  | some (key, b) ↦ some key ∷ run (record k { buffer = b }) evs
]

-- The flags after a byte: what the handler makes of them, in which the buffer has no part.
pub next_flags : KbFlags → ℕ → KbFlags
next_flags f c = (kb_handler (record kb_static { flags = f }) c).flags

-- The same events over a queue and the flags.
pub serve : KbFlags → Queue → List Event → List (Option ℕ)
serve f q [] = []
serve f q (irq c ∷ evs) = serve (next_flags f c) (put q (typed f c)) evs
serve f [] (getc ∷ evs) = none ∷ serve f [] evs
serve f (x ∷ q) (getc ∷ evs) = some x ∷ serve f q evs

kb_handler-next_flags : (k : Keyboard) (c : ℕ) → (kb_handler k c).flags ≡ next_flags k.flags c
unfolding next_flags kb_handler kb_switch kb_default
kb_handler-next_flags k c = ground arith

-- A read of the run against a read of the queue, given the rest of the two.
run-getc :
    (k : Keyboard) (evs : List Event) (o : Option (ℕ × KbBuffer)) (q : Queue)
    → kb_pop k.buffer ≡ o
    → popped o ≡ Queue.pop q
    → (run k evs ≡ serve k.flags (contents k.buffer) evs)
    → contents k.buffer ≡ q
    → ((x : ℕ) (b : KbBuffer)
        → o ≡ some (x, b)
        → run (record k { buffer = b }) evs ≡ serve k.flags (contents b) evs)
    → run k (getc ∷ evs) ≡ serve k.flags q (getc ∷ evs)
unfolding run serve Queue.pop
run-getc k evs none [] e p here c rest = rw (e, run) (ap (λ l. none ∷ l) (rw c at here))
run-getc k evs none (x ∷ q) e p here c rest = cc
run-getc k evs (some (y, b)) [] e p here c rest = cc
run-getc k evs (some (y, b)) (x ∷ q) e p here c rest = rw (e, run) (ground (arith, rest y b))

-- Whatever the order of interrupts and reads, each read gives what a bounded queue of the keys typed
-- gives: the keys in order, without those typed when the queue is full, and nothing when it is empty.
pub run_refines :
    (k : Keyboard) (evs : List Event)
    → IsKeyboard k
    → IsEvents evs
    → run k evs ≡ serve k.flags (contents k.buffer) evs
unfolding run serve
run_refines k [] v h = refl
run_refines k (irq c ∷ evs) v h = rw (
  run_refines (kb_handler k c) evs (kb_handler-IsKeyboard k c v) h.1,
  kb_handler_refines k c h.0 v,
  kb_handler-next_flags,
)
run_refines k (getc ∷ evs) v h =
    run-getc k evs (kb_pop k.buffer) (contents k.buffer) refl (kb_pop_refines v.ring)
      (run_refines k evs v h) refl
      (λ x b e.
        run_refines (record k { buffer = b }) evs
          (record { ring = kb_pop-IsRing v.ring e; bits = v.bits }) h)

pop-waiting :
    (b : KbBuffer) (o : Option (ℕ × KbBuffer)) (q : Queue)
    → IsRing b
    → kb_pop b ≡ o
    → popped o ≡ Queue.pop q
    → 0 < length q
    → (x : ℕ) × (b' : KbBuffer) × (kb_pop b ≡ some (x, b')) × (q ≡ x ∷ contents b') × IsRing b'
unfolding Queue.pop
pop-waiting b o [] v e p h = absurd (omega arith)
pop-waiting b none (y ∷ q) v e p h = cc
pop-waiting b (some (x, b')) (y ∷ q) v e p h = (x, b', e, cc, kb_pop-IsRing v e)

kb_getc-some :
    (pending : List ℕ) (k : Keyboard) (x : ℕ) (b : KbBuffer)
    → kb_pop k.buffer ≡ some (x, b)
    → kb_getc pending k ≡ some (x, record k { buffer = b }, pending)
unfolding kb_getc
kb_getc-some [] k x b e = rw (e, kb_getc)
kb_getc-some (c ∷ pending) k x b e = rw (e, kb_getc)

-- `kb_read` of `n` bytes takes the first `n` keys of the queue `q` that `k` holds, waits for none,
-- and leaves the rest.
abbrev pub Takes : ℕ → List ℕ → Keyboard → Queue → Type 0
Takes n pending k q =
    (b : KbBuffer) × (kb_read n pending k
      ≡ some (map (λ x. x % 256) (take n q), record k { buffer = b }, pending))
    × (contents b ≡ drop n q)
    × IsRing b

Takes-suc :
    (n : ℕ) (pending : List ℕ) (k : Keyboard) (x : ℕ) (b : KbBuffer) (q : Queue)
    → kb_pop k.buffer ≡ some (x, b)
    → q ≡ x ∷ contents b
    → Takes n pending (record k { buffer = b }) (contents b)
    → Takes (suc n) pending k q
unfolding kb_read
Takes-suc n pending k x b q e c (b', r, d, v) =
    (b', rw (kb_getc-some pending k x b e, r, c), rw c d, v)

-- With `n` keys waiting, `kb_read` returns the first `n` of them, each cut to a byte, does not wait
-- for an interrupt, changes nothing but the buffer, and leaves the other keys in it.
pub kb_read-waiting :
    (n : ℕ) (pending : List ℕ) (k : Keyboard)
    → IsKeyboard k
    → n ≤ length (contents k.buffer)
    → Takes n pending k (contents k.buffer)
unfolding kb_read
kb_read-waiting zero pending k v h = (k.buffer, refl, refl, v.ring)
kb_read-waiting (suc n) pending k v h =
    let (x, b, e, q, r) =
      pop-waiting k.buffer (kb_pop k.buffer) (contents k.buffer) v.ring refl (kb_pop_refines v.ring)
        (omega arith) in
    Takes-suc n pending k x b (contents k.buffer) e q (
      kb_read-waiting n pending (record k { buffer = b }) (record { ring = r; bits = v.bits })
        (omega (arith, ap length q)))
