-- ===== src/Screen/Cursor.antt =====
-- `screen_putc` of bootloader/stage2/devices/screen/screen.c: where the cursor goes and what is written.
use dalek.Base.{
  ℕ, ◌+◌, ◌-◌, ◌*◌, ◌/◌, ◌%◌, ◌^◌, ◌≤◌, ◌<◌, ◌≡◌, ◌⊎◌, refl, [], ◌∷◌, take, Bool, true, ◌&&◌, not,
  ltb, leb, ◌==◌, if◌then◌else◌, arith,
}
use dalek.Memory.{poke}
use dalek.Screen.{
  Screen, cell_address, newline, put_char, tab, backspace, screen_putc, screen_scroll,
  screen_updatecursor, scroll_by, position,
}
use dalek.Screen.Cells.{page_size, blank, scroll_by_lem}

-- Column 80, behind the last one, is a place of the cursor. The attribute is a byte.
pub record IsScreen (s : Screen) : Type 0 where
  pub column : s.posx ≤ 80
  pub row : s.posy < 25
  pub byte_attr : s.attr < 256
  pub byte_oldattr : s.oldattr < 256

-- The characters that are put, not obeyed.
abbrev pub printable : ℕ → Bool
printable c = not (c == b'\n') && not (c == b'\r') && not (c == 8) && not (c == b'\t')

newline-posx : (s : Screen) → (newline s).posx ≡ 0
unfolding newline screen_scroll scroll_by screen_updatecursor
newline-posx s = ground arith

newline-posy :
    (s : Screen) → s.posy < 25 → (newline s).posy ≡ (if s.posy == 24 then 24 else s.posy + 1)
unfolding newline screen_scroll scroll_by screen_updatecursor
newline-posy s h = ground arith

newline-attr :
    (s : Screen)
    → ((newline s).attr ≡ s.attr)
      × ((newline s).oldattr ≡ s.oldattr)
      × ((newline s).video ≡ s.video)
unfolding newline screen_scroll scroll_by screen_updatecursor
newline-attr s = ground arith

newline-memory :
    (s : Screen) (a : ℕ)
    → s.posy < 25
    → (newline s).memory a ≡ (
        if s.posy == 24 && leb s.video a && ltb a (s.video + page_size)
        then (if ltb (a - s.video) (page_size - 160)
            then s.memory (a + 160)
            else blank s.attr (a - s.video))
        else s.memory a)
unfolding newline screen_scroll
newline-memory s a h =
    ground (arith, scroll_by_lem (record s { posx = 0; posy = (s.posy + 1) % 2 ^ 16 }) 1 a)

pub put_char-IsScreen : {s : Screen} (c : ℕ) → IsScreen s → IsScreen (put_char s c)
unfolding put_char newline screen_scroll scroll_by screen_updatecursor
put_char-IsScreen c v = ground arith

-- Every character leaves the cursor on the page or in column 80 of a line of it, and keeps the attribute
-- and the place of the page.
pub screen_putc-IsScreen :
    {s : Screen} (c : ℕ)
    → IsScreen s
    → IsScreen (screen_putc s c)
      × ((screen_putc s c).attr ≡ s.attr)
      × ((screen_putc s c).video ≡ s.video)
unfolding screen_putc screen_updatecursor backspace tab put_char newline screen_scroll scroll_by
screen_putc-IsScreen c v = ground arith

-- A character that is put stands at the cursor afterwards, with the attribute behind it, and no other
-- byte changes, unless the cursor is in column 80 of the last line, where the page scrolls.
pub put_char-memory :
    (s : Screen) (c a : ℕ)
    → IsScreen s
    → c < 256
    → not (s.posx == 80 && s.posy == 24) ≡ true
    → (put_char s c).memory a ≡ (
        if a == s.video + (s.posx + s.posy * 80) * 2
        then c
        else if a == s.video + (s.posx + s.posy * 80) * 2 + 1
        then s.attr
        else s.memory a)
unfolding put_char
put_char-memory s c a v b h =
    let put = record s {
      memory = poke (poke s.memory (cell_address s) (c % 2 ^ 8)) (cell_address s + 1) s.attr;
      posx = (s.posx + 1) % 2 ^ 16;
    } in
    ground (arith, newline-memory put a)

-- A character never writes outside the page, unless the cursor is in column 80 of the last line: then
-- its two bytes are written behind the page.
pub put_char-outside :
    (s : Screen) (c a : ℕ)
    → IsScreen s
    → c < 256
    → (a < s.video) ⊎ (s.video + page_size ≤ a)
    → (put_char s c).memory a ≡ (
        if s.posx == 80 && s.posy == 24 && a == s.video + page_size
        then c
        else if s.posx == 80 && s.posy == 24 && a == s.video + page_size + 1
        then s.attr
        else s.memory a)
unfolding put_char
put_char-outside s c a v b h =
    let put = record s {
      memory = poke (poke s.memory (cell_address s) (c % 2 ^ 8)) (cell_address s + 1) s.attr;
      posx = (s.posx + 1) % 2 ^ 16;
    } in
    ground (arith, newline-memory put a)

-- The character that is put in column 80 of a line other than the last is lost: the next one is put
-- over it, and leaves the memory as if the first had not been written.
pub put_char-lost :
    (s : Screen) (c d a : ℕ)
    → IsScreen s
    → s.posx ≡ 80
    → s.posy < 24
    → (put_char (put_char s c) d).memory a ≡ (put_char (newline s) d).memory a
unfolding put_char newline
put_char-lost s c d a v x y = ground arith

-- A character that is put before column 79 and taken back leaves the cursor where it was and a NUL
-- under it.
pub screen_putc-backspace :
    (s : Screen) (c a : ℕ)
    → IsScreen s
    → printable c ≡ true
    → s.posx < 79
    → let t = screen_putc (screen_putc s c) 8 in
      (t.posx ≡ s.posx)
      × (t.posy ≡ s.posy)
      × (t.memory a ≡ (
          if a == s.video + (s.posx + s.posy * 80) * 2
          then 0
          else if a == s.video + (s.posx + s.posy * 80) * 2 + 1
          then s.attr
          else s.memory a))
unfolding screen_putc screen_updatecursor backspace put_char
screen_putc-backspace s c a v p h = ground arith

-- The line feed goes to the start of the next line, which is the last one still if the page is full.
pub screen_putc-line_feed :
    (s : Screen)
    → IsScreen s
    → ((screen_putc s b'\n').posx ≡ 0)
      × ((screen_putc s b'\n').posy ≡ (if s.posy == 24 then 24 else s.posy + 1))
unfolding screen_putc screen_updatecursor
screen_putc-line_feed s v = ground (arith, newline-posx s, newline-posy s)

-- The last four bytes that go to the ports tell the display the place of the cursor, low byte first.
pub screen_putc-cursor :
    (s : Screen) (c : ℕ)
    → let t = screen_putc s c in
      take 4 t.ports
      ≡ (0x03D5, position t / 2 ^ 8)
        ∷ (0x03D4, 0x0E)
        ∷ (0x03D5, position t % 2 ^ 8)
        ∷ (0x03D4, 0x0F)
        ∷ []
unfolding screen_putc screen_updatecursor
screen_putc-cursor s c = refl
