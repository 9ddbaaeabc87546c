-- ===== src/Screen/Ansi/Text.antt =====
-- `screen_write` of bootloader/stage2/devices/screen/screen.c on plain text, and on a sequence that the
-- end of the buffer cuts.
use dalek.Base.{
  ℕ, zero, suc, ◌+◌, ◌-◌, ◌<◌, ◌≡◌, refl, ap, ◌⊎◌, inl, inr, Bool, true, false, Bool-cases, ◌||◌,
  none, some, Option-cases, List, [], ◌∷◌, ◌++◌, ltb, ◌==◌, length, get_elem?, drop, arith,
}
use dalek.Screen.{Screen, screen_putc, screen_clear}
use dalek.Screen.Ansi.{
  find_command, ansi_command, screen_handle_ansi, write_step, write_loop, screen_write,
  screen_ansi_attr,
}

-- The characters put one after the other.
abbrev pub put_all : List ℕ → Screen → Screen
put_all [] s = s
put_all (c ∷ text) s = put_all text (screen_putc s c)

abbrev pub has_escape : List ℕ → Bool
has_escape [] = false
has_escape (c ∷ text) = c == 0x1B || has_escape text

get_elem?-drop :
    (buf : List ℕ) (p c : ℕ) (rest : List ℕ)
    → drop p buf ≡ c ∷ rest
    → (get_elem? buf p ≡ some c) × (drop (p + 1) buf ≡ rest)
get_elem?-drop [] zero c rest h = ground arith
get_elem?-drop [] (suc p) c rest h = ground arith
get_elem?-drop (x ∷ buf) zero c rest h = ground arith
get_elem?-drop (x ∷ buf) (suc p) c rest h =
    let (at, next) = get_elem?-drop buf p c rest h in
    let e : suc p + 1 ≡ suc (p + 1) = omega arith in (at, rw e next)

write_loop-text :
    (fuel : ℕ) (buf : List ℕ) (end p : ℕ) (text rest : List ℕ) (s : Screen)
    → drop p buf ≡ text ++ rest
    → end ≡ p + length text
    → length text < fuel
    → has_escape text ≡ false
    → write_loop fuel buf end p s ≡ some (put_all text s)
unfolding write_loop write_step
write_loop-text zero buf end p text rest s d e l h = absurd (omega arith)
write_loop-text (suc fuel) buf end p [] rest s d e l h =
    let done : (p == end) ≡ true = ground arith in rw done refl
write_loop-text (suc fuel) buf end p (c ∷ text) rest s d e l h =
    let (at, next) = get_elem?-drop buf p c (text ++ rest) d in
    let more : (p == end) ≡ false = ground arith in
    let plain : (c == 0x1B) ≡ false = ground arith in
    let others : has_escape text ≡ false = ground arith in
    rw (more, at, plain)
      (write_loop-text fuel buf end (p + 1) text rest (screen_putc s c) next (omega arith)
        (omega arith) others)

-- Writing a text without escapes puts its characters one after the other, reads nothing behind them
-- and returns their number.
pub screen_write-text :
    (text rest : List ℕ) (s : Screen)
    → has_escape text ≡ false
    → screen_write (text ++ rest) (length text) s ≡ some (length text, put_all text s)
unfolding screen_write
screen_write-text text rest s h =
    rw
      (write_loop-text (suc (length text)) (text ++ rest) (length text) 0 text rest s refl
        (omega arith) (omega arith) h)
      refl

-- The loop does not end once it is behind the end of the buffer.
write_loop-behind :
    (fuel : ℕ) (buf : List ℕ) (end p : ℕ) (s : Screen)
    → end < p
    → write_loop fuel buf end p s ≡ none
unfolding write_loop write_step screen_handle_ansi
write_loop-behind zero buf end p s l = refl
write_loop-behind (suc fuel) buf end p s l = elim (Option-cases (get_elem? buf p)) [
  | inl outside ↦ let more : (p == end) ≡ false = ground arith in rw (more, outside) refl
  | inr (c, at) ↦
      let more : (p == end) ≡ false = ground arith in
      let over : ltb end (p + 1) ≡ true = ground arith in
      elim (Bool-cases (c == 0x1B)) [
        | inl escape ↦
            rw (more, at, escape, over) (write_loop-behind fuel buf end (p + 1) s (omega arith))
        | inr character ↦
            rw (more, at, character)
              (write_loop-behind fuel buf end (p + 1) (screen_putc s c) (omega arith))
      ]
]

-- A command behind the end of the buffer is obeyed all the same, and the place to go on from is behind
-- it.
cut_command :
    (buf : List ℕ) (p c : ℕ) (s : Screen)
    → get_elem? buf (p + 2) ≡ some c
    → 0 < c
    → (ansi_command buf (p + 2) (p + 2) s ≡ none)
      ⊎ ((t : Screen) × (ansi_command buf (p + 2) (p + 2) s ≡ some (p + 3, t)))
unfolding ansi_command
cut_command buf p c s at h =
    let live : (c == 0) ≡ false = ground arith in
    let next : p + 2 + 1 ≡ p + 3 = omega arith in
    elim (Bool-cases (c == b'J')) [
      | inl clear ↦
          inr (screen_clear s, rw (at, live, clear) (ap (λ k. some (k, screen_clear s)) next))
      | inr not_clear ↦ elim (Bool-cases (c == b'm')) [
        | inr other ↦ inr (s, rw (at, live, not_clear, other) (ap (λ k. some (k, s)) next))
        | inl attributes ↦
            elim (Option-cases (screen_ansi_attr (drop (p + 2) buf) (p + 2 - (p + 2)) s)) [
              | inl fault ↦ inl (rw (at, live, not_clear, attributes, fault) refl)
              | inr (t, e) ↦
                  inr (t, rw (at, live, not_clear, attributes, e) (ap (λ k. some (k, t)) next))
            ]
      ]
    ]

cut_step :
    (buf : List ℕ) (p c : ℕ) (s : Screen)
    → get_elem? buf p ≡ some 0x1B
    → get_elem? buf (p + 1) ≡ some b'['
    → get_elem? buf (p + 2) ≡ some c
    → 0 < c
    → write_step buf (p + 2) p s ≡ ansi_command buf (p + 2) (p + 2) s
unfolding write_step screen_handle_ansi find_command
cut_step buf p c s e b at h =
    let start : ltb (p + 2) (p + 1) ≡ false = ground arith in
    let here : ltb (p + 2) (p + 2) ≡ false = ground arith in
    let left : p + 2 - (p + 2) ≡ 0 = omega arith in rw (e, start, b, left, here) refl

-- When the buffer ends in the first two bytes of a sequence and the byte behind it is not NUL, the write
-- does not return, whatever the fuel: the byte behind is taken as the command, and the loop goes on
-- behind the end of the buffer.
pub write_loop-cut :
    (fuel : ℕ) (buf : List ℕ) (p c : ℕ) (s : Screen)
    → get_elem? buf p ≡ some 0x1B
    → get_elem? buf (p + 1) ≡ some b'['
    → get_elem? buf (p + 2) ≡ some c
    → 0 < c
    → write_loop fuel buf (p + 2) p s ≡ none
unfolding write_loop
write_loop-cut zero buf p c s e b at h = refl
write_loop-cut (suc fuel) buf p c s e b at h =
    let more : (p == p + 2) ≡ false = ground arith in
    elim (cut_command buf p c s at h) [
      | inl fault ↦ rw (more, cut_step buf p c s e b at h, fault) refl
      | inr (t, f) ↦
          rw (more, cut_step buf p c s e b at h, f)
            (write_loop-behind fuel buf (p + 2) (p + 3) t (omega arith))
    ]
