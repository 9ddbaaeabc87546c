-- ===== src/Screen/Ansi/Writes.antt =====
-- `screen_handle_ansi` and `screen_write` of bootloader/stage2/devices/screen/screen.c on a buffer that
-- is a terminated string.
use dalek.Base.{
  ℕ, zero, suc, ◌+◌, ◌-◌, ◌≤◌, ◌<◌, ◌≡◌, refl, ap, inl, inr, true, false, Bool-cases, ◌||◌, some,
  List, [], ◌∷◌, ltb, ◌==◌, get_elem?, drop, arith,
}
use dalek.Strings.Parse.Total.{has_nul}
use dalek.Screen.{Screen, screen_clear, screen_putc, screen_updatecursor}
use dalek.Screen.Cursor.{IsScreen, screen_putc-IsScreen}
use dalek.Screen.Ansi.{
  final, find_command, ansi_command, screen_handle_ansi, write_step, write_loop, screen_write,
}
use dalek.Screen.Ansi.Attributes.{screen_ansi_attr-total}

-- The byte behind the buffer is a NUL.
abbrev pub Terminated : List ℕ → ℕ → Type 0
Terminated buf end = get_elem? buf end ≡ some 0

get_elem?-before :
    (buf : List ℕ) (end i : ℕ) → Terminated buf end → i ≤ end → (c : ℕ) × (get_elem? buf i ≡ some c)
get_elem?-before [] end i h l = ground arith
get_elem?-before (c ∷ buf) end zero h l = (c, refl)
get_elem?-before (c ∷ buf) zero (suc i) h l = absurd (omega arith)
get_elem?-before (c ∷ buf) (suc end) (suc i) h l = get_elem?-before buf end i h (omega arith)

drop-has_nul :
    (buf : List ℕ) (end i : ℕ) → Terminated buf end → i ≤ end → has_nul (drop i buf) ≡ true
drop-has_nul [] end i h l = ground arith
drop-has_nul (c ∷ buf) zero zero h l = ground arith
drop-has_nul (c ∷ buf) (suc end) zero h l =
    ground (arith, drop-has_nul buf end zero h (omega arith))
drop-has_nul (c ∷ buf) zero (suc i) h l = absurd (omega arith)
drop-has_nul (c ∷ buf) (suc end) (suc i) h l = drop-has_nul buf end i h (omega arith)

find_command-before :
    (buf : List ℕ) (end p n : ℕ)
    → Terminated buf end
    → p + n ≡ end
    → (q : ℕ) × (find_command buf p n ≡ some q) × (p ≤ q) × (q ≤ end)
unfolding find_command
find_command-before buf end p zero h e = (p, refl, omega arith, omega arith)
find_command-before buf end p (suc n) h e =
    let (c, at) = get_elem?-before buf end p h (omega arith) in
    elim (Bool-cases (c == 0 || final c)) [
      | inl stop ↦ (p, rw (at, stop) refl, omega arith, omega arith)
      | inr more ↦
          let (q, f, a, b) = find_command-before buf end (p + 1) n h (omega arith) in
          (q, rw (at, more) f, omega arith, b)
    ]

not_end :
    (buf : List ℕ) (end p c : ℕ)
    → Terminated buf end
    → get_elem? buf p ≡ some c
    → (c == 0) ≡ false
    → p ≤ end
    → p + 1 ≤ end
not_end buf end p c h at live l = elim (Bool-cases (p == end)) [
  | inl same ↦ let e : p ≡ end = ground arith in ground (arith, ap (λ k. get_elem? buf k) e)
  | inr other ↦ ground arith
]

-- What is known after a step that starts at `p`: it moved on, not behind the end.
pub record IsStep (end p q : ℕ) (t : Screen) : Type 0 where
  pub forward : p < q
  pub inside : q ≤ end
  pub screen : IsScreen t

screen_clear-IsScreen : {s : Screen} → IsScreen s → IsScreen (screen_clear s)
unfolding screen_clear screen_updatecursor
screen_clear-IsScreen v = ground arith

ansi_command-IsStep :
    (buf : List ℕ) (end params p : ℕ) {s : Screen}
    → Terminated buf end
    → params ≤ p
    → p ≤ end
    → 0 < params
    → IsScreen s
    → (q : ℕ) × (t : Screen) × (ansi_command buf params p s ≡ some (q, t))
      × (p ≤ q)
      × (q ≤ end)
      × IsScreen t
unfolding ansi_command
ansi_command-IsStep buf end params p {s} h a b z v =
    let (c, at) = get_elem?-before buf end p h b in
    elim (Bool-cases (c == 0)) [
      | inl nul ↦ (p, s, rw (at, nul) refl, omega arith, b, v)
      | inr live ↦
          let next : p + 1 ≤ end = not_end buf end p c h at live b in
          elim (Bool-cases (c == b'J')) [
            | inl clear ↦ (
              p + 1,
              screen_clear s,
              rw (at, live, clear) refl,
              omega arith,
              next,
              screen_clear-IsScreen v,
            )
            | inr not_clear ↦ elim (Bool-cases (c == b'm')) [
              | inr other ↦ (p + 1, s, rw (at, live, not_clear, other) refl, omega arith, next, v)
              | inl attributes ↦
                  let (t, e, w) =
                    screen_ansi_attr-total (drop params buf) (p - params)
                      (drop-has_nul buf end params h (omega arith)) v in
                  (p + 1, t, rw (at, live, not_clear, attributes, e) refl, omega arith, next, w)
            ]
          ]
    ]

bracket_before :
    (buf : List ℕ) (end p : ℕ)
    → Terminated buf end
    → get_elem? buf (p + 1) ≡ some b'['
    → p < end
    → p + 2 ≤ end
bracket_before buf end p h at l =
    let moved : p + 1 + 1 ≤ end = not_end buf end (p + 1) b'[' h at refl (omega arith) in
    omega arith

handle_open :
    (buf : List ℕ) (end p : ℕ) {s : Screen}
    → Terminated buf end
    → p + 2 ≤ end
    → get_elem? buf (p + 1) ≡ some b'['
    → IsScreen s
    → (q : ℕ) × (t : Screen) × (screen_handle_ansi buf p end s ≡ some (q, t)) × IsStep end p q t
unfolding screen_handle_ansi
handle_open buf end p {s} h l at v =
    let (q, f, a, b) = find_command-before buf end (p + 2) (end - (p + 2)) h (omega arith) in
    let (r, t, e, x, y, w) = ansi_command-IsStep buf end (p + 2) q h a b (omega arith) v in
    let start : ltb end (p + 1) ≡ false = ground arith in
    let place : ltb end q ≡ false = ground arith in
    (r, t, rw (start, at, f, place) e, record { forward = omega arith; inside = y; screen = w })

screen_handle_ansi-IsStep :
    (buf : List ℕ) (end p : ℕ) {s : Screen}
    → Terminated buf end
    → p < end
    → IsScreen s
    → (q : ℕ) × (t : Screen) × (screen_handle_ansi buf p end s ≡ some (q, t)) × IsStep end p q t
unfolding screen_handle_ansi
screen_handle_ansi-IsStep buf end p {s} h l v =
    let (c, at) = get_elem?-before buf end (p + 1) h (omega arith) in
    let start : ltb end (p + 1) ≡ false = ground arith in
    elim (Bool-cases (c == b'[')) [
      | inr other ↦ (
        p + 1,
        s,
        rw (start, at, other) refl,
        record { forward = omega arith; inside = omega arith; screen = v },
      )
      | inl bracket_next ↦
          let same : c ≡ b'[' = ground arith in
          let bracket : get_elem? buf (p + 1) ≡ some b'[' = rw at (ap some same) in
          handle_open buf end p h (bracket_before buf end p h bracket l) bracket v
    ]

write_step-IsStep :
    (buf : List ℕ) (end p : ℕ) {s : Screen}
    → Terminated buf end
    → p < end
    → IsScreen s
    → (q : ℕ) × (t : Screen) × (write_step buf end p s ≡ some (q, t)) × IsStep end p q t
unfolding write_step
write_step-IsStep buf end p {s} h l v =
    let (c, at) = get_elem?-before buf end p h (omega arith) in
    elim (Bool-cases (c == 0x1B)) [
      | inr character ↦ (
        p + 1,
        screen_putc s c,
        rw (at, character) refl,
        record {
          forward = omega arith;
          inside = omega arith;
          screen = (screen_putc-IsScreen c v).0;
        },
      )
      | inl escape ↦
          let (q, t, e, step) = screen_handle_ansi-IsStep buf end p h l v in
          (q, t, rw (at, escape) e, step)
    ]

-- The loop ends at the end of the buffer, with a unit of fuel for every byte and one more.
write_loop-total :
    (fuel : ℕ) (buf : List ℕ) (end p : ℕ) {s : Screen}
    → Terminated buf end
    → p ≤ end
    → end - p < fuel
    → IsScreen s
    → (t : Screen) × (write_loop fuel buf end p s ≡ some t) × IsScreen t
unfolding write_loop
write_loop-total zero buf end p h l f v = ground arith
write_loop-total (suc fuel) buf end p {s} h l f v = elim (Bool-cases (p == end)) [
  | inl done ↦ (s, rw done refl, v)
  | inr more ↦
      let before : p < end = ground arith in
      let (q, r, e, step) = write_step-IsStep buf end p h before v in
      let (t, g, w) =
        write_loop-total fuel buf end q h step.inside (omega (arith, step.forward)) step.screen in
      (t, rw (more, e) g, w)
]

-- Writing a buffer with a NUL behind it, as a C string has, returns the number of its bytes, whatever
-- characters and sequences it holds, complete or not, and leaves the
-- cursor in place.
pub screen_write-total :
    (buf : List ℕ) (nbytes : ℕ) {s : Screen}
    → Terminated buf nbytes
    → IsScreen s
    → (t : Screen) × (screen_write buf nbytes s ≡ some (nbytes, t)) × IsScreen t
unfolding screen_write
screen_write-total buf nbytes {s} h v =
    let (t, e, w) = write_loop-total (suc nbytes) buf nbytes 0 h (omega arith) (omega arith) v in
    (t, rw e refl, w)
