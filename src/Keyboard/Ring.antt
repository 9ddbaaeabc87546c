-- ===== src/Keyboard/Ring.antt =====
-- The ring buffer of bootloader/stage2/devices/keyboard/keyboard.c: its invariant, and the queue
-- that it stands for.
use dalek.Base.{
  ℕ, zero, suc, ◌+◌, ◌-◌, ◌%◌, ◌<◌, ◌≡◌, refl, ap, ap₂, Bool-cases, inl, inr, ◌==◌, ◌≢◌, Option,
  none, some, List, [], ◌∷◌, ◌++◌, arith, length, get_or, set, length-set, get_or-set_self,
  get_or-set_ne,
}
use dalek.Keyboard.{KbBuffer, kb_buffer_len, kb_push, kb_pop}
use dalek.Keyboard.Queue
use dalek.Keyboard.Queue.{Queue}

-- Both indices are inside the array of 32 keys.
pub record IsRing (b : KbBuffer) : Type 0 where
  pub storage : length b.key ≡ kb_buffer_len
  pub pop_in : b.pop_index < kb_buffer_len
  pub push_in : b.push_index < kb_buffer_len

-- The keys that are waiting.
abbrev pub waiting : KbBuffer → ℕ
waiting b = (b.push_index + 32 - b.pop_index) % 32

-- The `n` keys from index `i` on, round the end of the array.
abbrev pub keys_from : List ℕ → ℕ → ℕ → Queue
keys_from key zero i = []
keys_from key (suc n) i = get_or key i 0 ∷ keys_from key n ((i + 1) % 32)

abbrev pub contents : KbBuffer → Queue
contents b = keys_from b.key (waiting b) b.pop_index

-- A pop's result with the queue in place of the buffer.
abbrev pub popped : Option (ℕ × KbBuffer) → Option (ℕ × Queue)
popped none = none
popped (some (x, b)) = some (x, contents b)

length-keys_from : (key : List ℕ) (n i : ℕ) → length (keys_from key n i) ≡ n
length-keys_from key zero i = refl
length-keys_from key (suc n) i = ap suc (length-keys_from key n ((i + 1) % 32))

pub length-contents : (b : KbBuffer) → length (contents b) ≡ waiting b
length-contents b = length-keys_from b.key (waiting b) b.pop_index

-- A write behind the last of fewer than 32 keys appends to them.
keys_from-set :
    (n : ℕ) (key : List ℕ) (i j x : ℕ)
    → length key ≡ 32
    → i < 32
    → n < 32
    → j ≡ (i + n) % 32
    → keys_from (set key j x) (suc n) i ≡ keys_from key n i ++ (x ∷ [])
keys_from-set zero key i j x len hi hn e =
    ap (λ k. k ∷ [])
      (let e' : j ≡ i = omega arith in rw (e', get_or-set_self key i x 0 (omega arith)))
keys_from-set (suc n) key i j x len hi hn e =
    ap₂ ◌∷◌ (get_or-set_ne key j i x 0 (omega arith))
      (keys_from-set n key ((i + 1) % 32) j x len (omega arith) (omega arith) (omega arith))

keys_from-suc :
    (n : ℕ) (key : List ℕ) (i : ℕ)
    → 0 < n
    → keys_from key n i ≡ get_or key i 0 ∷ keys_from key (n - 1) ((i + 1) % 32)
keys_from-suc zero key i h = elim h [ ]
keys_from-suc (suc n) key i h =
    ap (λ k. get_or key i 0 ∷ keys_from key k ((i + 1) % 32)) (omega arith)

module _ {b : KbBuffer} (v : IsRing b) where
  pub kb_push-IsRing : (x : ℕ) → IsRing (kb_push b x)
  unfolding kb_push
  kb_push-IsRing x = ground (arith, length-set b.key b.push_index x)

  -- The push keeps what is waiting, and adds the key behind it unless 31 wait.
  pub kb_push_refines : (x : ℕ) → contents (kb_push b x) ≡ Queue.push (contents b) x
  unfolding kb_push Queue.push
  kb_push_refines x = elim (Bool-cases ((b.push_index + 1) % 32 == b.pop_index)) [
    | inl full ↦ ground (arith, length-contents b)
    | inr room ↦ ground (
      arith,
      length-contents b,
      keys_from-set (waiting b) b.key b.pop_index b.push_index x,
      (let more : (b.push_index + 1) % 32 ≢ b.pop_index
              → ((b.push_index + 1) % 32 + 32 - b.pop_index) % 32 ≡ suc (waiting b) =
            omega arith in
          more),
    )
  ]

  pub kb_pop-IsRing : {x : ℕ} {b' : KbBuffer} → kb_pop b ≡ some (x, b') → IsRing b'
  unfolding kb_pop
  kb_pop-IsRing h = ground arith

  -- The pop gives the oldest key and leaves the rest, or waits if there is none.
  pub kb_pop_refines : popped (kb_pop b) ≡ Queue.pop (contents b)
  unfolding kb_pop Queue.pop
  kb_pop_refines = elim (Bool-cases (b.push_index == b.pop_index)) [
    | inl none_left ↦
        ground (arith, (let z : b.push_index ≡ b.pop_index → waiting b ≡ 0 = omega arith in z))
    | inr more ↦ ground (
      arith,
      keys_from-suc (waiting b) b.key b.pop_index,
      (let fewer : b.push_index ≢ b.pop_index
              → waiting b - 1 ≡ (b.push_index + 32 - (b.pop_index + 1) % 32) % 32 =
            omega arith in
          fewer),
      (let some_left : b.push_index ≢ b.pop_index → 0 < waiting b = omega arith in some_left),
    )
  ]
