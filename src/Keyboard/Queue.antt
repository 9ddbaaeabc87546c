-- ===== src/Keyboard/Queue.antt =====
-- What a reader may rely on of the keyboard buffer: a queue of at most 31 keys, oldest first, that
-- drops a key when it is full. And what a scan code means, said without the buffer: the key that it
-- types, and the modifiers after it.
use dalek.Base.{
  ℕ, ◌-◌, ◌+◌, Bool, ◌&&◌, ◌||◌, not, Option, none, some, List, [], ◌∷◌, ◌++◌, ltb, leb, ◌==◌,
  if◌then◌else◌, get_or, length,
}
use dalek.Keymap.{key_lshift, key_rshift, key_lcontrol, key_rcontrol, key_lalt, key_ralt, key_caps}
use dalek.Keyboard.{KbFlags, kb_select, truth}

abbrev pub Queue : Type 0
Queue = List ℕ

unfoldable pub push : Queue → ℕ → Queue
push q x = if ltb (length q) 31 then q ++ (x ∷ []) else q

unfoldable pub pop : Queue → Option (ℕ × Queue)
pop [] = none
pop (x ∷ q) = some (x, q)

-- The keys that change a modifier and type nothing.
abbrev pub is_modifier : ℕ → Bool
is_modifier key =
    key == key_lshift
    || key == key_rshift
    || key == key_lcontrol
    || key == key_rcontrol
    || key == key_lalt
    || key == key_ralt
    || key == key_caps

abbrev pub is_lower : ℕ → Bool
is_lower key = leb b'a' key && leb key b'z'

abbrev pub is_upper : ℕ → Bool
is_upper key = leb b'A' key && leb key b'Z'

-- The other case of a letter.
unfoldable pub swap_case : ℕ → ℕ
swap_case key = if is_lower key then key - 32 else if is_upper key then key + 32 else key

-- A code below 128 is a make code, and only those type. The table says which key, if there is one.
unfoldable pub typed : KbFlags → ℕ → Option ℕ
typed f c =
    let key = get_or (kb_select f) c 0 in
    if ltb c 128 && ltb 0 key && not (is_modifier key)
    then some (if truth f.caps then swap_case key else key)
    else none

unfoldable pub put : Queue → Option ℕ → Queue
put q none = q
put q (some x) = push q x
