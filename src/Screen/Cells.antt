-- ===== src/Screen/Cells.antt =====
-- The page of bootloader/stage2/devices/screen/screen.c: what clearing and scrolling leave in it.
use dalek.Base.{
  ℕ, zero, suc, ◌+◌, ◌-◌, ◌*◌, ◌%◌, ◌≤◌, ◌≡◌, inl, ◌&&◌, ltb, leb, ◌==◌, if◌then◌else◌, arith, min,
}
use dalek.Memory.{Memory, poke}
use dalek.Memory.Blocks.{memcpy, memcpy-copied}
use dalek.Screen.{
  Screen, t_columns, t_rows, clear_cells, screen_clear, screen_scroll, scroll_by,
  screen_updatecursor,
}

-- The bytes of the page.
abbrev pub page_size : ℕ
page_size = 4000

-- A blank byte of the page: a NUL character, then the attribute.
abbrev pub blank : ℕ → ℕ → ℕ
blank attr x = if x % 2 == 0 then 0x00 else attr

pub clear_cells_lem :
    (m : Memory) (video attr i n a : ℕ)
    → clear_cells m video attr i n a ≡ (
        if leb (video + i * 2) a && ltb a (video + (i + n) * 2)
        then blank attr (a - video)
        else m a)
unfolding clear_cells
clear_cells_lem m video attr i zero a = ground arith
clear_cells_lem m video attr i (suc n) a = ground (
  arith,
  clear_cells_lem (poke (poke m (video + i * 2) 0x00) (video + i * 2 + 1) attr) video attr (i + 1) n
      a,
)

-- Clearing blanks every byte of the page, touches no other, and puts the cursor in the corner.
pub screen_clear_lem :
    (s : Screen) (a : ℕ)
    → ((screen_clear s).memory a ≡ (
        if leb s.video a && ltb a (s.video + page_size)
        then blank s.attr (a - s.video)
        else s.memory a))
      × ((screen_clear s).posx ≡ 0)
      × ((screen_clear s).posy ≡ 0)
unfolding screen_clear screen_updatecursor
screen_clear_lem s a = ground (arith, clear_cells_lem s.memory s.video s.attr 0 2000 a)

pub scroll_by_lem :
    (s : Screen) (n a : ℕ)
    → 1 ≤ n
    → n ≤ 25
    → (scroll_by s n).memory a ≡ (
        if leb s.video a && ltb a (s.video + page_size)
        then (if ltb (a - s.video) (page_size - 160 * n)
            then s.memory (a + 160 * n)
            else blank s.attr (a - s.video))
        else s.memory a)
unfolding scroll_by screen_updatecursor
scroll_by_lem s n a h l =
    let moved =
      memcpy s.memory s.video (s.video + t_columns * n * 2) ((t_rows - n) * t_columns * 2) in
    ground (
      arith,
      clear_cells_lem moved s.video s.attr ((25 - n) * 80) (2000 - (25 - n) * 80) a,
      memcpy-copied s.memory s.video (s.video + t_columns * n * 2) ((t_rows - n) * t_columns * 2) a
          (inl (omega arith)),
    )

-- Scrolling by `n` lines, or by the whole page if it has no `n` lines, moves every byte up by 160
-- bytes a line, blanks the lines that come in, touches no byte outside the page, and puts the cursor
-- at the start of the first line that came in.
pub screen_scroll_lem :
    (s : Screen) (n a : ℕ)
    → 1 ≤ n
    → ((screen_scroll s n).memory a ≡ (
        if leb s.video a && ltb a (s.video + page_size)
        then (if ltb (a - s.video) (page_size - 160 * min n 25)
            then s.memory (a + 160 * min n 25)
            else blank s.attr (a - s.video))
        else s.memory a))
      × ((screen_scroll s n).posx ≡ 0)
      × ((screen_scroll s n).posy ≡ 25 - min n 25)
unfolding screen_scroll scroll_by screen_updatecursor
screen_scroll_lem s n a h = ground (arith, scroll_by_lem s (min n 25) a (omega arith) (omega arith))
