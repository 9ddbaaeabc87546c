-- ===== src/Keyboard.antt =====
-- The keyboard driver, bootloader/stage2/devices/keyboard/keyboard.c: the modifier flags, the ring
-- buffer of keys that the interrupt handler fills, and the reads that drain it. The keyboard's
-- data port is an argument, the byte that `inportb(0x60)` returns. A `log` is an entry of a trace.
pub mod Queue
pub mod Ring
pub mod Handler
pub mod Modifiers
pub mod Reads
mod Tests
use Prim.Native.Nat.{bit_xor}
use dalek.Base.{
  ℕ, zero, suc, ◌+◌, ◌-◌, ◌/◌, ◌%◌, Bool, ◌&&◌, ◌||◌, Option, none, some, List, [], ◌∷◌, ◌++◌, ltb,
  leb, ◌==◌, if◌then◌else◌, get_or, set, replicate,
}
use dalek.Base.Fault.{◌>>=◌}
use dalek.Keymap.{
  kb_keymap, kb_shift_keymap, kb_altgr_keymap, kb_escaped_keymap, key_lshift, key_rshift,
  key_lcontrol, key_rcontrol, key_lalt, key_ralt, key_caps,
}

-- `kb_flags`; each is 0 or 1.
pub record KbFlags : Type 0 where
  pub shift : ℕ
  pub caps : ℕ
  pub numlock : ℕ
  pub lcontrol : ℕ
  pub lalt : ℕ
  pub rcontrol : ℕ
  pub ralt : ℕ
  pub escaped : ℕ

-- `KB_BUFFER_LEN`
abbrev pub kb_buffer_len : ℕ
kb_buffer_len = 32

-- `kb_buffer`
pub record KbBuffer : Type 0 where
  pub key : List ℕ
  pub pop_index : ℕ
  pub push_index : ℕ

-- The driver's state. `unknown` is the trace of the warnings: the code and the escape flag of each.
pub record Keyboard : Type 0 where
  pub flags : KbFlags
  pub buffer : KbBuffer
  pub unknown : List (ℕ × ℕ)

-- A C condition on a number.
abbrev pub truth : ℕ → Bool
truth n = ltb 0 n

-- The table that the handler reads.
pub kb_select : KbFlags → List ℕ
kb_select f =
    if truth f.escaped
    then kb_escaped_keymap
    else if truth f.shift
    then kb_shift_keymap
    else if truth f.ralt
    then kb_altgr_keymap
    else kb_keymap

-- Caps lock swaps the case of the 26 letters.
pub kb_caps : ℕ → ℕ → ℕ
kb_caps caps key =
    if truth caps
    then (if leb b'a' key && leb key b'z'
        then key - b'a' + b'A'
        else if leb b'A' key && leb key b'Z'
        then key - b'A' + b'a'
        else key)
    else key

-- The push of the handler: a key that does not fit is dropped.
pub kb_push : KbBuffer → ℕ → KbBuffer
kb_push b key = if (b.push_index + 1) % kb_buffer_len == b.pop_index then b else record b {
  key = set b.key b.push_index key;
  push_index = (b.push_index + 1) % kb_buffer_len;
}

-- The default case of the switch: a key that is no modifier.
pub kb_default : Keyboard → ℕ → ℕ → ℕ → Keyboard
kb_default k key c key_down =
    if truth key_down
    then (if truth key
        then record k { buffer = kb_push k.buffer (kb_caps k.flags.caps key) }
        else record k { unknown = k.unknown ++ ((c, k.flags.escaped) ∷ []) })
    else k

-- The switch over the modifiers.
pub kb_switch : Keyboard → ℕ → ℕ → ℕ → Keyboard
kb_switch k key c key_down =
    if key == key_lshift || key == key_rshift
    then record k { flags = record (k.flags) { shift = key_down } }
    else if key == key_lcontrol
    then record k { flags = record (k.flags) { lcontrol = key_down } }
    else if key == key_rcontrol
    then record k { flags = record (k.flags) { rcontrol = key_down } }
    else if key == key_lalt
    then record k { flags = record (k.flags) { lalt = key_down } }
    else if key == key_ralt
    then record k { flags = record (k.flags) { ralt = key_down } }
    else if key == key_caps
    then record k { flags = record (k.flags) { caps = bit_xor key_down k.flags.caps } }
    else kb_default k key c key_down

-- Bit 7 of a scan code tells a break code from a make code.
pub key_down : ℕ → ℕ
key_down c = if c / 128 % 2 == 0 then 1 else 0

-- `kb_handler`, given the byte that the port returns.
pub kb_handler : Keyboard → ℕ → Keyboard
kb_handler k c =
    if c == 0xe0
    then record k { flags = record (k.flags) { escaped = 1 } }
    else let k' = kb_switch k (get_or (kb_select k.flags) (c % 128) 0) (c % 128) (key_down c) in
      record k' { flags = record (k'.flags) { escaped = 0 } }

-- `kb_getc` once something is there. `none` is the wait.
pub kb_pop : KbBuffer → Option (ℕ × KbBuffer)
kb_pop b =
    if b.push_index == b.pop_index
    then none
    else some
        (get_or b.key b.pop_index 0, record b { pop_index = (b.pop_index + 1) % kb_buffer_len })

-- `kb_getc` with the bytes that interrupts will deliver: each `hlt` of its wait ends with the next
-- one. `none` is a wait that does not end.
pub kb_getc : List ℕ → Keyboard → Option (ℕ × Keyboard × List ℕ)
kb_getc [] k = elim (kb_pop k.buffer) [
  | some (key, b) ↦ some (key, record k { buffer = b }, [])
  | none ↦ none
]
kb_getc (c ∷ pending) k = elim (kb_pop k.buffer) [
  | some (key, b) ↦ some (key, record k { buffer = b }, c ∷ pending)
  | none ↦ kb_getc pending (kb_handler k c)
]

-- `kb_read`: each key is cut to a `char`.
pub kb_read : ℕ → List ℕ → Keyboard → Option (List ℕ × Keyboard × List ℕ)
kb_read zero pending k = some ([], k, pending)
kb_read (suc n) pending k = do
  (key, k', pending') ← kb_getc pending k
  (bytes, k'', pending'') ← kb_read n pending' k'
  some (key % 256 ∷ bytes, k'', pending'')

-- What `kb_init` leaves of the buffer, and the flags that the program starts with.
abbrev pub no_flags : KbFlags
no_flags = record {
  shift = 0;
  caps = 0;
  numlock = 0;
  lcontrol = 0;
  lalt = 0;
  rcontrol = 0;
  ralt = 0;
  escaped = 0;
}

pub kb_init : Keyboard → Keyboard
kb_init k = record k { buffer = record (k.buffer) { pop_index = 0; push_index = 0 } }

-- The driver before `kb_init`: static storage is zero.
abbrev pub kb_static : Keyboard
kb_static = record {
  flags = no_flags;
  buffer = record { key = replicate kb_buffer_len 0; pop_index = 0; push_index = 0 };
  unknown = [];
}
