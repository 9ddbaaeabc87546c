-- ===== src/Keyboard/Handler.antt =====
-- The interrupt handler of bootloader/stage2/devices/keyboard/keyboard.c: what each scan code does to
-- the buffer and to the modifiers.
use Prim.Native.Nat.{bit_xor}
use dalek.Base.{
  ℕ, zero, suc, ◌%◌, ◌≤◌, ◌<◌, ◌≡◌, refl, Bool-cases, inl, inr, ◌==◌, ◌&&◌, not, ltb, lt→ltb,
  ltb→lt, Bool, true, false, if◌then◌else◌, Option, none, some, arith, get_or,
}
use dalek.Keyboard.{
  KbFlags, KbBuffer, Keyboard, truth, kb_select, kb_caps, kb_push, kb_default, kb_switch, key_down,
  kb_handler,
}
use dalek.Keyboard.Queue.{is_modifier, swap_case, typed, put}
use dalek.Keyboard.Ring.{IsRing, contents, kb_push-IsRing, kb_push_refines}

-- Every flag is a bit.
pub record IsBits (f : KbFlags) : Type 0 where
  pub shift_bit : f.shift ≤ 1
  pub caps_bit : f.caps ≤ 1
  pub lcontrol_bit : f.lcontrol ≤ 1
  pub lalt_bit : f.lalt ≤ 1
  pub rcontrol_bit : f.rcontrol ≤ 1
  pub ralt_bit : f.ralt ≤ 1
  pub escaped_bit : f.escaped ≤ 1

pub record IsKeyboard (k : Keyboard) : Type 0 where
  pub ring : IsRing k.buffer
  pub bits : IsBits k.flags

bit_xor_bits : (a b : ℕ) → a ≤ 1 → b ≤ 1 → bit_xor a b ≤ 1
bit_xor_bits zero zero h g = omega arith
bit_xor_bits zero (suc zero) h g = omega arith
bit_xor_bits zero (suc (suc b)) h g = absurd (omega arith)
bit_xor_bits (suc zero) zero h g = omega arith
bit_xor_bits (suc zero) (suc zero) h g = omega arith
bit_xor_bits (suc zero) (suc (suc b)) h g = absurd (omega arith)
bit_xor_bits (suc (suc a)) b h g = absurd (omega arith)

kb_caps_lem : (caps key : ℕ) → kb_caps caps key ≡ (if truth caps then swap_case key else key)
unfolding kb_caps swap_case
kb_caps_lem caps key = ground arith

kb_default-buffer :
    (k : Keyboard) (key c d : ℕ)
    → (kb_default k key c d).buffer
      ≡ (if ltb 0 d && ltb 0 key then kb_push k.buffer (kb_caps k.flags.caps key) else k.buffer)
unfolding kb_default
kb_default-buffer k key c d = ground arith

kb_default-flags : (k : Keyboard) (key c d : ℕ) → (kb_default k key c d).flags ≡ k.flags
unfolding kb_default
kb_default-flags k key c d = ground arith

kb_switch-buffer :
    (k : Keyboard) (key c d : ℕ)
    → (kb_switch k key c d).buffer ≡ (
        if ltb 0 d && ltb 0 key && not (is_modifier key)
        then kb_push k.buffer (kb_caps k.flags.caps key)
        else k.buffer)
unfolding kb_switch
kb_switch-buffer k key c d = ground (arith, kb_default-buffer k key c d)

kb_switch-IsBits :
    (k : Keyboard) (key c d : ℕ) → d ≤ 1 → IsBits k.flags → IsBits (kb_switch k key c d).flags
unfolding kb_switch
kb_switch-IsBits k key c d h v =
    ground (arith, kb_default-flags k key c d, bit_xor_bits d k.flags.caps)

key_down_bit : (c : ℕ) → key_down c ≤ 1
unfolding key_down
key_down_bit c = ground arith

key_down_make : (c : ℕ) → c < 128 → key_down c ≡ 1
unfolding key_down
key_down_make c h = ground arith

key_down_break : (c : ℕ) → c < 256 → 128 ≤ c → key_down c ≡ 0
unfolding key_down
key_down_break c h g = ground arith

-- The buffer after a push that may not take place.
abbrev kb_put : KbBuffer → Option ℕ → KbBuffer
kb_put b none = b
kb_put b (some x) = kb_push b x

choose :
    (b : KbBuffer) (p q : Bool) (x : ℕ)
    → (if true && p && q then kb_push b x else b)
      ≡ kb_put b (if true && p && q then some x else none)
choose b true true x = refl
choose b true false x = refl
choose b false q x = refl

kb_switch-typed :
    (k : Keyboard) (c : ℕ)
    → c < 128
    → (kb_switch k (get_or (kb_select k.flags) c 0) c 1).buffer ≡ kb_put k.buffer (typed k.flags c)
unfolding typed
kb_switch-typed k c h =
    rw (kb_switch-buffer k (get_or (kb_select k.flags) c 0) c 1, kb_caps_lem, lt→ltb c 128 h)
      (choose k.buffer (ltb 0 (get_or (kb_select k.flags) c 0))
        (not (is_modifier (get_or (kb_select k.flags) c 0))) _)

typed_break : (f : KbFlags) (c : ℕ) → 128 ≤ c → typed f c ≡ none
unfolding typed
typed_break f c h = let e : ltb c 128 ≡ false = ground arith in rw e

module _ (k : Keyboard) (c : ℕ) where
  -- The buffer after an interrupt.
  kb_handler-buffer : c < 256 → (kb_handler k c).buffer ≡ kb_put k.buffer (typed k.flags c)
  unfolding kb_handler
  kb_handler-buffer h = elim (Bool-cases (c == 0xe0)) [
    | inl e ↦ ground (arith, typed_break k.flags c)
    | inr ne ↦ rw ne (elim (Bool-cases (ltb c 128)) [
      | inl make ↦
          (let e : c % 128 ≡ c = ground arith in
            rw (e, key_down_make c (ltb→lt c 128 make)) (kb_switch-typed k c (ltb→lt c 128 make)))
      | inr brk ↦
          (let e : 128 ≤ c = ground arith in
            rw (key_down_break c h e, typed_break k.flags c e)
              (ground
                (arith, kb_switch-buffer k (get_or (kb_select k.flags) (c % 128) 0) (c % 128) 0)))
    ])
  ]

  -- An interrupt keeps the indices in the array and each flag a bit.
  pub kb_handler-IsKeyboard : IsKeyboard k → IsKeyboard (kb_handler k c)
  unfolding kb_handler
  kb_handler-IsKeyboard v = ground (
    arith,
    kb_switch-IsBits k (get_or (kb_select k.flags) (c % 128) 0) (c % 128) (key_down c),
    key_down_bit c,
    kb_switch-buffer k (get_or (kb_select k.flags) (c % 128) 0) (c % 128) (key_down c),
    kb_push-IsRing v.ring (kb_caps k.flags.caps (get_or (kb_select k.flags) (c % 128) 0)),
  )

  -- An interrupt appends to the queue the key that the code types, if it types one, and drops it if
  -- 31 keys wait.
  pub kb_handler_refines :
      c < 256
      → IsKeyboard k
      → contents (kb_handler k c).buffer ≡ put (contents k.buffer) (typed k.flags c)
  unfolding put
  kb_handler_refines h v = rw (kb_handler-buffer h) (go (typed k.flags c))
    where
      go : (o : Option ℕ) → contents (kb_put k.buffer o) ≡ put (contents k.buffer) o
      go none = refl
      go (some x) = kb_push_refines v.ring x
