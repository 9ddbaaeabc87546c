-- ===== src/Screen.antt =====
-- bootloader/stage2/devices/screen/screen.c and screen.h: the text screen. This module has its state,
-- the cursor, clearing, scrolling and single characters.
pub mod Cells
pub mod Cursor
pub mod Ansi
mod Tests
use Prim.Native.Nat.{}
use dalek.Base.{
  ℕ, zero, suc, ◌+◌, ◌-◌, ◌*◌, ◌/◌, ◌%◌, ◌^◌, List, [], ◌∷◌, ltb, leb, ◌==◌, if◌then◌else◌,
}
use dalek.Memory.{Memory, poke}
use dalek.Memory.Blocks.{memcpy}

abbrev pub t_video : ℕ
t_video = 0xB8000

abbrev pub t_columns : ℕ
t_columns = 80

abbrev pub t_rows : ℕ
t_rows = 25

abbrev pub tab_width : ℕ
tab_width = 4

abbrev pub white : ℕ
white = 0xF

abbrev pub blue : ℕ
blue = 0x1

abbrev pub t_attr : ℕ
t_attr = white + blue * 2 ^ 4

-- `screen_info`, main memory, which holds the page, and the writes to the ports, last first.
pub record Screen : Type 0 where
  pub memory : Memory
  pub video : ℕ
  pub attr : ℕ
  pub oldattr : ℕ
  pub posx : ℕ
  pub posy : ℕ
  pub ports : List (ℕ × ℕ)

-- The initialiser of `screen_info`.
abbrev pub screen_info : Memory → Screen
screen_info m = record {
  memory = m;
  video = t_video;
  attr = t_attr;
  oldattr = t_attr;
  posx = 0;
  posy = 0;
  ports = [];
}

-- `position`, a `uint16_t`.
abbrev pub position : Screen → ℕ
position s = (s.posx + s.posy * t_columns) % 2 ^ 16

unfoldable pub screen_updatecursor : Screen → Screen
screen_updatecursor s = record s {
  ports =
      (0x03D5, position s / 2 ^ 8)
      ∷ (0x03D4, 0x0E)
      ∷ (0x03D5, position s % 2 ^ 8)
      ∷ (0x03D4, 0x0F)
      ∷ s.ports;
}

-- The loop that clears the `n` cells from cell `i` on.
unfoldable pub clear_cells : Memory → ℕ → ℕ → ℕ → ℕ → Memory
clear_cells m video attr i zero = m
clear_cells m video attr i (suc n) =
    clear_cells (poke (poke m (video + i * 2) 0x00) (video + i * 2 + 1) attr) video attr (i + 1) n

unfoldable pub screen_clear : Screen → Screen
screen_clear s = screen_updatecursor (record s {
  memory = clear_cells s.memory s.video s.attr 0 (t_columns * t_rows);
  posx = 0;
  posy = 0;
})

-- `screen_scroll` behind its guards.
unfoldable pub scroll_by : Screen → ℕ → Screen
scroll_by s n =
    let moved =
      memcpy s.memory s.video (s.video + t_columns * n * 2) ((t_rows - n) * t_columns * 2) in
    let start = (t_rows - n) * t_columns in
    screen_updatecursor (record s {
      memory = clear_cells moved s.video s.attr start (t_rows * t_columns - start);
      posx = 0;
      posy = t_rows - n;
    })

-- `n` is a `uint8_t`.
unfoldable pub screen_scroll : Screen → ℕ → Screen
screen_scroll s n =
    let rows = if ltb t_rows n then t_rows else n in if rows == 0 then s else scroll_by s rows

-- The start of the next line.
unfoldable pub newline : Screen → Screen
newline s =
    let next = record s { posx = 0; posy = (s.posy + 1) % 2 ^ 16 } in
    if leb t_rows next.posy then screen_scroll next 1 else next

-- The address of the cell at the cursor.
abbrev pub cell_address : Screen → ℕ
cell_address s = s.video + (s.posx + s.posy * t_columns) * 2

-- `default`: the character is put at the cursor, which moves on.
unfoldable pub put_char : Screen → ℕ → Screen
put_char s c =
    let put = record s {
      memory = poke (poke s.memory (cell_address s) (c % 2 ^ 8)) (cell_address s + 1) s.attr;
      posx = (s.posx + 1) % 2 ^ 16;
    } in
    if ltb t_columns put.posx then newline put else put

-- `case '\b'`
unfoldable pub backspace : Screen → Screen
backspace s =
    if ltb 0 s.posx
    then (let blanked = screen_updatecursor (put_char (record s { posx = s.posx - 1 }) b'\0') in
        record blanked { posx = (blanked.posx + (2 ^ 16 - 1)) % 2 ^ 16 })
    else s

-- `case '\t'`
unfoldable pub tab : Screen → Screen
tab s =
    let stop = record s { posx = (s.posx / tab_width + 1) * tab_width % 2 ^ 16 } in
    if ltb t_columns stop.posx then newline stop else stop

-- The character is a byte; the value returned is the argument.
unfoldable pub screen_putc : Screen → ℕ → Screen
screen_putc s c = screen_updatecursor (
    if c == b'\n'
    then newline s
    else if c == b'\r'
    then record s { posx = 0 }
    else if c == 8
    then backspace s
    else if c == b'\t'
    then tab s
    else put_char s c)
