-- ===== src/Keyboard/Tests.antt =====
-- The keyboard driver at concrete scan codes, and the theorems at them.
use dalek.Base.{ℕ, ◌%◌, ◌≡◌, refl, ◌∷◌, [], List, some, arith, set}
use mathlib.Core.Option
use dalek.Keymap.{key_f1, kb_keymap, kb_shift_keymap, kb_escaped_keymap}
use dalek.Keyboard.{
  Keyboard, kb_static, no_flags, kb_select, kb_caps, kb_push, kb_default, kb_switch, key_down,
  kb_handler, kb_pop, kb_getc, kb_read, kb_init,
}
use dalek.Keyboard.Queue
use dalek.Keyboard.Queue.{typed, put, swap_case}
use dalek.Keyboard.Ring.{contents, popped, kb_push_refines, kb_pop_refines}
use dalek.Keyboard.Handler.{IsKeyboard, kb_handler-IsKeyboard, kb_handler_refines}
use dalek.Keyboard.Modifiers.{
  flags_after, kb_handler-modifiers, kb_handler-escaped_modifiers, kb_handler-caps, typed-special,
}
use dalek.Keyboard.Reads.{irq, getc, run, serve, run_refines, Takes, kb_read-waiting}

-- What a run of bytes leaves.
abbrev after : Keyboard → List ℕ → Keyboard
after k [] = k
after k (c ∷ cs) = after (kb_handler k c) cs

-- Shift down, q, shift up, w: `Qw`.
abbrev typing : List ℕ
typing = 0x2a ∷ 0x10 ∷ 0x90 ∷ 0xaa ∷ 0x11 ∷ 0x91 ∷ []

shifted : contents (after kb_static typing).buffer ≡ b'Q' ∷ b'w' ∷ []
unfolding kb_handler kb_switch kb_default kb_push kb_select key_down kb_caps kb_keymap
    kb_shift_keymap
shifted = refl

-- A wait: the read of two bytes needs four interrupts of its six.
waits : Option.map (λ r. r.0) (kb_read 2 typing kb_static) ≡ some (b'Q' ∷ b'w' ∷ [])
unfolding kb_read kb_getc kb_pop kb_handler kb_switch kb_default kb_push kb_select key_down kb_caps
    kb_keymap kb_shift_keymap
waits = refl

-- Caps lock, then a.
capital : contents (after kb_static (0x3a ∷ 0xba ∷ 0x1e ∷ [])).buffer ≡ b'A' ∷ []
unfolding kb_handler kb_switch kb_default kb_push kb_select key_down kb_caps kb_keymap
capital = refl

-- The up arrow, behind the escape code, is read as the byte 0.
arrow : Option.map (λ r. r.0) (kb_read 1 (0xe0 ∷ 0x48 ∷ []) kb_static) ≡ some (0 ∷ [])
unfolding kb_read kb_getc kb_pop kb_handler kb_switch kb_default kb_push kb_select key_down kb_caps
    kb_escaped_keymap
arrow = refl

-- A keyboard with two keys, the second round the end of the array.
abbrev wrapped : Keyboard
wrapped = record kb_static {
  buffer = record {
    key = set (set (kb_static.buffer.key) 31 b'x') 0 key_f1;
    pop_index = 31;
    push_index = 1;
  };
}

wrapped-IsKeyboard : IsKeyboard wrapped
wrapped-IsKeyboard = omega arith

kb_push_refines_instance :
    contents (kb_push wrapped.buffer b'y') ≡ Queue.push (b'x' ∷ key_f1 ∷ []) b'y'
kb_push_refines_instance = kb_push_refines (wrapped-IsKeyboard.ring) b'y'

kb_pop_refines_instance : popped (kb_pop wrapped.buffer) ≡ Queue.pop (b'x' ∷ key_f1 ∷ [])
kb_pop_refines_instance = kb_pop_refines (wrapped-IsKeyboard.ring)

kb_handler-IsKeyboard_example : IsKeyboard (kb_handler wrapped 0x3a)
kb_handler-IsKeyboard_example = kb_handler-IsKeyboard wrapped 0x3a wrapped-IsKeyboard

kb_handler_refines_instance :
    contents (kb_handler wrapped 0x10).buffer ≡ put (b'x' ∷ key_f1 ∷ []) (typed no_flags 0x10)
kb_handler_refines_instance = kb_handler_refines wrapped 0x10 (omega arith) wrapped-IsKeyboard

run_refines_example :
    run wrapped (getc ∷ irq 0x10 ∷ getc ∷ getc ∷ getc ∷ [])
    ≡ serve no_flags (b'x' ∷ key_f1 ∷ []) (getc ∷ irq 0x10 ∷ getc ∷ getc ∷ getc ∷ [])
run_refines_example =
    run_refines wrapped (getc ∷ irq 0x10 ∷ getc ∷ getc ∷ getc ∷ []) wrapped-IsKeyboard (omega arith)

kb_read-waiting_instance : Takes 2 [] wrapped (b'x' ∷ key_f1 ∷ [])
kb_read-waiting_instance = kb_read-waiting 2 [] wrapped wrapped-IsKeyboard (omega arith)

kb_handler-modifiers_example : flags_after wrapped 0x2a ≡ record no_flags { shift = 1 }
kb_handler-modifiers_example = (kb_handler-modifiers wrapped refl).0

kb_handler-caps_instance :
    (flags_after wrapped 0x3a ≡ record no_flags { caps = 1 })
    × (flags_after wrapped 0xba ≡ no_flags)
kb_handler-caps_instance = kb_handler-caps wrapped refl (omega arith)

typed-special_instance : key_f1 % 256 ≡ 0
unfolding typed kb_select kb_keymap
typed-special_instance = typed-special no_flags 0x3b key_f1 refl (omega arith)

kb_handler-escaped_modifiers_instance :
    flags_after (kb_handler wrapped 0xe0) 0x1d ≡ record no_flags { rcontrol = 1; escaped = 0 }
kb_handler-escaped_modifiers_instance = (kb_handler-escaped_modifiers wrapped).0

starts_empty :
    kb_init wrapped
    ≡ record wrapped { buffer = record (wrapped.buffer) { pop_index = 0; push_index = 0 } }
unfolding kb_init
starts_empty = refl
