-- ===== src/Stdio/Edits.antt =====
-- The line that keys edit, said without the loop of `gets` in bootloader/stage2/stdio.c.
use dalek.Base.{
  ℕ, ◌+◌, ◌-◌, ◌≤◌, ◌<◌, ◌≡◌, ◌≢◌, refl, sym, ap, ◌∙◌, true, ◌&&◌, some, List, [], ◌∷◌, ◌++◌, ◌==◌,
  length, arith, if◌then◌else◌, length-append, append_assoc,
}
use dalek.Strings.Buffer.{store, store-append}

-- The text without its last character.
unfoldable pub but_last : List ℕ → List ℕ
but_last [] = []
but_last (x ∷ []) = []
but_last (x ∷ y ∷ t) = x ∷ but_last (y ∷ t)

-- The line after a key: 8 deletes, any other key is put behind it. And what is shown of the key: a
-- deletion on an empty line is not.
unfoldable pub pressed : List ℕ → ℕ → List ℕ
pressed t k = if k == 8 then but_last t else t ++ (k ∷ [])

unfoldable pub echo : List ℕ → ℕ → List ℕ
echo t k = if k == 8 && length t == 0 then [] else k ∷ []

-- The line after the keys, and what is shown of them.
unfoldable pub edited : List ℕ → List ℕ → List ℕ
edited t [] = t
edited t (k ∷ ks) = edited (pressed t k) ks

unfoldable pub echoes : List ℕ → List ℕ → List ℕ
echoes t [] = []
echoes t (k ∷ ks) = echo t k ++ echoes (pressed t k) ks

-- Keys inside a line: bytes below 128 that do not end it.
abbrev pub AreKeys : List ℕ → Type 0
AreKeys [] = Unit {0}
AreKeys (k ∷ ks) = (k < 128) × (k ≢ b'\n') × AreKeys ks

but_last-snoc : (t : List ℕ) → 0 < length t → (y : ℕ) × (t ≡ but_last t ++ (y ∷ []))
unfolding but_last
but_last-snoc [] h = absurd (omega arith)
but_last-snoc (x ∷ []) h = (x, refl)
but_last-snoc (x ∷ y ∷ t) h =
    let (z, e) = but_last-snoc (y ∷ t) (omega arith) in (z, ap (λ l. x ∷ l) e)

pub length-but_last : (t : List ℕ) → length (but_last t) ≡ length t - 1
unfolding but_last
length-but_last [] = omega arith
length-but_last (x ∷ []) = omega arith
length-but_last (x ∷ y ∷ t) = omega (arith, length-but_last (y ∷ t))

pub but_last-empty : (t : List ℕ) → (length t == 0) ≡ true → but_last t ≡ t
but_last-empty [] e = unfold but_last in refl
but_last-empty (x ∷ t) e = absurd (ground arith)

pub store-but_last :
    (t b : List ℕ) → 0 < length t → store (t ++ b) (length t - 1) 0 ≡ some (but_last t ++ (0 ∷ b))
store-but_last t b h =
    let (y, e) = but_last-snoc t h in
    let same : t ++ b ≡ but_last t ++ (y ∷ b) =
      ap (λ l. l ++ b) e ∙ append_assoc (but_last t) (y ∷ []) b in
    rw same (store-append (but_last t) y b 0 (length t - 1) (sym (length-but_last t)))

pub length-pressed : (t : List ℕ) (k : ℕ) → length (pressed t k) ≤ length t + 1
unfolding pressed
length-pressed t k = ground (arith, length-but_last t, length-append t (k ∷ []))

pub length-edited : (t ks : List ℕ) → length (edited t ks) ≤ length t + length ks
unfolding edited
length-edited t [] = omega arith
length-edited t (k ∷ ks) = omega (arith, length-edited (pressed t k) ks, length-pressed t k)
