-- ===== src/Io/Register.antt =====
-- Registration and lookup of devices in bootloader/stage2/io.c.
use dalek.Base.{
  ℕ, ◌<◌, ◌≡◌, ◌≢◌, ◌⊎◌, refl, ap, ◌∙◌, true, false, Bool-cases, inl, inr, some, List, ◌∷◌,
  if◌then◌else◌, length, replicate, arith,
}
use dalek.Base.Int.{ℤ, pos, negsuc}
use dalek.Strings.Text.{IsText, held}
use dalek.Strings.Compare.{strcmp, strcmp_equal}
use dalek.Strings.Copy.{strlcpy-fits}
use dalek.Io.{is_zero, IoDevice, zeroed, io_register_device, find_by_name}

pub is_zero-true : (r : ℤ) → is_zero r ≡ true → r ≡ pos 0
is_zero-true (pos n) h = ground arith
is_zero-true (negsuc n) h = ground arith

pub is_zero-false : (r : ℤ) → is_zero r ≡ false → r ≢ pos 0
is_zero-false (pos n) h = ground arith
is_zero-false (negsuc n) h = ground arith

module _ {State : Type 0} where
  find_by_name-cons :
      (dev : IoDevice State) (devices : List (IoDevice State)) (name : List ℕ) (r : ℤ)
      → strcmp dev.name name ≡ some r
      → find_by_name (dev ∷ devices) name
        ≡ (if is_zero r then some (some dev) else find_by_name devices name)
  unfolding find_by_name
  find_by_name-cons dev devices name r e = rw e refl

  -- What a lookup of `v` gives behind a device with the name `t`.
  abbrev pub Lookup : IoDevice State → List (IoDevice State) → List ℕ → List ℕ → List ℕ → Type 0
  Lookup dev devices t v rest =
      ((v ≡ t) × (find_by_name (dev ∷ devices) (held v rest) ≡ some (some dev)))
      ⊎ ((v ≢ t)
          × (find_by_name (dev ∷ devices) (held v rest) ≡ find_by_name devices (held v rest)))

  find_by_name-first :
      (dev : IoDevice State) (devices : List (IoDevice State)) (t v rest rest' : List ℕ)
      → IsText t
      → IsText v
      → dev.name ≡ held t rest
      → Lookup dev devices t v rest'
  find_by_name-first dev devices t v rest rest' h g name =
      let (r, e, iff) = strcmp_equal t v rest rest' h g in
      let found =
        find_by_name-cons dev devices (held v rest') r
          (ap (λ k. strcmp k (held v rest')) name ∙ e) in
      elim (Bool-cases (is_zero r)) [
        | inl zero_order ↦ inl (iff.0 (is_zero-true r zero_order), found ∙ rw zero_order refl)
        | inr nonzero ↦ inr (λ same. is_zero-false r nonzero (iff.1 same), found ∙ rw nonzero refl)
      ]

  -- A device whose name and description fit their arrays is registered, with its data. A lookup of its
  -- name finds it from then on, also when an older device has the name; a lookup of any other name finds
  -- what it found before.
  pub io_register_device-Lookup :
      (devices : List (IoDevice State)) (t rest u rest' v behind : List ℕ) (owner : ℕ)
      → IsText t
      → IsText u
      → IsText v
      → length t < 16
      → length u < 32
      → (dev : IoDevice State) × (io_register_device devices (held t rest) (held u rest') owner
          ≡ some (dev ∷ devices))
        × (dev.private_data ≡ owner)
        × Lookup dev devices t v behind
  unfolding io_register_device
  io_register_device-Lookup devices t rest u rest' v behind owner ht hu hv lt lu =
      let (r, e, fits) =
        strlcpy-fits (replicate 16 0) t rest 16 ht lt (omega arith) (omega arith) in
      let (q, f, fits') =
        strlcpy-fits (replicate 32 0) u rest' 32 hu lu (omega arith) (omega arith) in
      let dev : IoDevice State = record (zeroed owner) {
        name = held t r;
        description = held u q;
      } in
      (dev, rw (e, f) refl, refl, find_by_name-first dev devices t v r behind ht hv refl)
