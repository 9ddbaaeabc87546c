-- ===== src/Screen/Ansi.antt =====
-- The ANSI sequences and `screen_write` of bootloader/stage2/devices/screen/screen.c. The buffer is the
-- list of the bytes from its start to the end of its object, and `none` is a read outside that.
pub mod Attributes
pub mod Writes
pub mod Text
use dalek.Base.{
  ℕ, zero, suc, ◌+◌, ◌-◌, ◌*◌, ◌/◌, ◌%◌, Bool, true, false, ◌&&◌, ◌||◌, not, Option, none, some,
  List, [], ◌∷◌, ltb, leb, ◌==◌, if◌then◌else◌, length, get_elem?, get_or, drop,
}
use dalek.Base.Fault.{◌>>=◌}
use dalek.Strings.Parse.{strtol, atoi}
use dalek.Screen.{Screen, screen_clear, screen_putc}

abbrev pub color_table : List ℕ
color_table = 0x0 ∷ 0x4 ∷ 0x2 ∷ 0x6 ∷ 0x1 ∷ 0x5 ∷ 0x3 ∷ 0x7 ∷ []

-- One parameter: reset, bold, foreground or background.
unfoldable pub set_attr : Screen → ℕ → Screen
set_attr s attr =
    if attr == 0
    then record s { attr = s.oldattr }
    else if attr == 1
    then record s { attr = if s.attr / 8 % 2 == 0 then s.attr + 0x08 else s.attr }
    else if leb 30 attr && leb attr 37
    then record s { attr = s.attr / 16 * 16 + get_or color_table (attr - 30) 0 }
    else if leb 40 attr && leb attr 47
    then record s { attr = s.attr % 16 + get_or color_table (attr - 40) 0 * 16 }
    else s

-- The loop of `screen_ansi_attr`; each turn moves `p` on, so that the length of the parameters is fuel
-- enough.
unfoldable pub attr_loop : ℕ → List ℕ → ℕ → List ℕ → Screen → Option Screen
attr_loop zero params len p s = none
attr_loop (suc fuel) params len p s = do
  (attr, stop) ← strtol p 10
  elim stop [
    | none ↦ some (set_attr s attr)
    | some q ↦
        if ltb (length params - length (drop 1 q)) len
        then attr_loop fuel params len (drop 1 q) (set_attr s attr)
        else some (set_attr s attr)
  ]

-- The first value of `attr` is read and not used.
unfoldable pub screen_ansi_attr : List ℕ → ℕ → Screen → Option Screen
screen_ansi_attr params len s = do
  first ← if ltb 0 len then atoi params else some 0
  t ← attr_loop (suc (length params)) params len params s
  some (record t { oldattr = s.attr })

-- The characters that end a sequence.
abbrev pub final : ℕ → Bool
final c = ltb b'@' c && ltb c b'~'

-- The search for the end of a sequence, with `n` bytes to the end of the buffer.
unfoldable pub find_command : List ℕ → ℕ → ℕ → Option ℕ
find_command buf p zero = some p
find_command buf p (suc n) = do
  c ← get_elem? buf p
  if c == 0 || final c then some p else find_command buf (p + 1) n

-- The command at `p`.
unfoldable pub ansi_command : List ℕ → ℕ → ℕ → Screen → Option (ℕ × Screen)
ansi_command buf params p s = do
  c ← get_elem? buf p
  if c == 0
      then some (p, s)
      else if c == b'J'
      then some (p + 1, screen_clear s)
      else if c == b'm'
      then (do t ← screen_ansi_attr (drop params buf) (p - params) s; some (p + 1, t))
      else some (p + 1, s)

-- `p` is the place of the escape; the result is the place to go on from.
unfoldable pub screen_handle_ansi : List ℕ → ℕ → ℕ → Screen → Option (ℕ × Screen)
screen_handle_ansi buf p end s = if ltb end (p + 1) then some (p + 1, s) else (do
  c ← get_elem? buf (p + 1)
  if not (c == b'[') then some (p + 1, s) else (do
    q ← find_command buf (p + 2) (end - (p + 2))
    if ltb end q then some (q, s) else ansi_command buf (p + 2) q s))

-- One turn of the loop of `screen_write`: the place to go on from.
unfoldable pub write_step : List ℕ → ℕ → ℕ → Screen → Option (ℕ × Screen)
write_step buf end p s = do
  c ← get_elem? buf p
  if c == 0x1B then screen_handle_ansi buf p end s else some (p + 1, screen_putc s c)

-- The loop of `screen_write`, on fuel: it ends only at the end of the buffer exactly.
unfoldable pub write_loop : ℕ → List ℕ → ℕ → ℕ → Screen → Option Screen
write_loop zero buf end p s = none
write_loop (suc fuel) buf end p s =
    if p == end then some s else (do (q, t) ← write_step buf end p s; write_loop fuel buf end q t)

unfoldable pub screen_write : List ℕ → ℕ → Screen → Option (ℕ × Screen)
screen_write buf nbytes s = do t ← write_loop (suc nbytes) buf nbytes 0 s; some (nbytes, t)
