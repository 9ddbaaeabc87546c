-- ===== src/Strings/Copy.antt =====
-- `strlcpy` of bootloader/stage2/strings.c, into a buffer that is the list of its bytes.
use dalek.Base.{
  ℕ, zero, suc, ◌+◌, ◌-◌, ◌≤◌, ◌<◌, ◌≡◌, ◌^◌, refl, ap, ◌∙◌, ◌%◌, Option, none, some, List, [], ◌∷◌,
  ◌++◌, arith, ◌==◌, if◌then◌else◌, length, length-append, append_assoc, length-set, set, take,
  take-all, drop, cons_of_pos, length-drop, take-append, drop-append, append-nil, sym,
}
use dalek.Base.Fault.{◌>>=◌}
use dalek.Strings.Buffer.{store, store-append, store-append_right, store-outside}
use dalek.Strings.Text.{IsText, held}

-- The loop from index `i`: the buffer and the index that it leaves.
strlcpy_from : List ℕ → List ℕ → ℕ → ℕ → Option (List ℕ × ℕ)
strlcpy_from dest [] i n = none
strlcpy_from dest (c ∷ s) i zero = some (dest, i)
strlcpy_from dest (c ∷ s) i (suc n) =
    if c == 0 then some (dest, i) else (store dest i c >>= λ dest'. strlcpy_from dest' s (i + 1) n)

-- `strlcpy`. With `len == 0` the index `len - 1` is the largest `size_t`.
unfoldable pub strlcpy : List ℕ → List ℕ → ℕ → Option (List ℕ)
unfolding strlcpy_from store
strlcpy dest orig len = do
  (dest', i) ← strlcpy_from dest orig 0 len
  dest'' ← store dest' ((len + 2 ^ 32 - 1) % 2 ^ 32) 0
  store dest'' i 0

-- The loop copies the first `n` characters, or all of a shorter text.
strlcpy_from-copies :
    (t rest w b : List ℕ) (i n : ℕ)
    → IsText t
    → i ≡ length w
    → length (take n t) ≤ length b
    → strlcpy_from (w ++ b) (held t rest) i n
      ≡ some (w ++ (take n t ++ drop (length (take n t)) b), i + length (take n t))
unfolding strlcpy_from
strlcpy_from-copies [] rest w b i zero h e l = ground arith
strlcpy_from-copies [] rest w b i (suc n) h e l = ground arith
strlcpy_from-copies (c ∷ t) rest w b i zero h e l = ground arith
strlcpy_from-copies (c ∷ t) rest w [] i (suc n) h e l = absurd (omega arith)
strlcpy_from-copies (c ∷ t) rest w (x ∷ b) i (suc n) h e l = ground (
  arith,
  strlcpy_from-copies t rest (w ++ (c ∷ [])) b (i + 1) n h.2,
  store-append w x b c i e,
  append_assoc w (c ∷ []) b,
  append_assoc w (c ∷ []) (take n t ++ drop (length (take n t)) b),
  length-append w (c ∷ []),
)

-- What the two stores at the end make of a buffer with a text in front.
strlcpy-ends :
    (dest orig w b : List ℕ) (len : ℕ)
    → 0 < len
    → len < 2 ^ 32
    → strlcpy_from dest orig 0 len ≡ some (w ++ b, length w)
    → strlcpy dest orig len ≡ (store (w ++ b) (len - 1) 0 >>= λ d. store d (length w) 0)
unfolding strlcpy
strlcpy-ends dest orig w b len p h e =
    let wrap : (len + 2 ^ 32 - 1) % 2 ^ 32 ≡ len - 1 = omega arith in rw (e, wrap)

strlcpy-finish :
    (t : List ℕ) (x : ℕ) (d : List ℕ) (k : ℕ)
    → k ≤ length d
    → (r : List ℕ) × ((store (t ++ (x ∷ d)) (length t + k) 0 >>= λ b. store b (length t) 0)
        ≡ some (held t r))
      × (length r ≡ length d)
strlcpy-finish t x d zero h = (
  d,
  rw (store-append t x d 0 (length t + 0) (omega arith)) (store-append t 0 d 0 (length t) refl),
  refl,
)
strlcpy-finish t x d (suc k) h = (
  set d k 0,
  rw (store-append_right t (x ∷ d) (suc k) 0 (length t + suc k) refl (omega arith))
      (store-append t x (set d k 0) 0 (length t) refl),
  length-set d k 0,
)

-- A text shorter than `len` is copied whole and terminated, inside a buffer of at least `len` bytes,
-- whose size does not change.
pub strlcpy-fits :
    (dest t rest : List ℕ) (len : ℕ)
    → IsText t
    → length t < len
    → len ≤ length dest
    → len < 2 ^ 32
    → (r : List ℕ) × (strlcpy dest (held t rest) len ≡ some (held t r))
      × (length (held t r) ≡ length dest)
strlcpy-fits dest t rest len h lt fits small =
    let (x, d, e) =
      cons_of_pos (drop (length t) dest) (omega (arith, length-drop (length t) dest)) in
    let (r, ends, len_r) =
      strlcpy-finish t x d (len - 1 - length t)
        (omega (arith, ap length e, length-drop (length t) dest)) in
    (
      r,
      strlcpy-ends dest (held t rest) t (x ∷ d) len (omega arith) small
            (ground (arith, strlcpy_from-copies t rest [] dest 0 len h refl, take-all len t, e))
          ∙ ground (arith, ends),
      omega (arith, length-append t (0 ∷ r), length-drop (length t) dest, ap length e),
    )

-- The loop cuts a longer text.
strlcpy_from-cut :
    (b d p q rest : List ℕ) (z : ℕ)
    → IsText (p ++ (z ∷ q))
    → length b ≡ suc (length p)
    → strlcpy_from (b ++ d) (held (p ++ (z ∷ q)) rest) 0 (length b)
      ≡ some ((p ++ (z ∷ [])) ++ d, length (p ++ (z ∷ [])))
strlcpy_from-cut b d p q rest z h e =
    let cut : take (length b) (p ++ (z ∷ q)) ≡ p ++ (z ∷ []) =
      ground (
        arith,
        take-append (p ++ (z ∷ [])) q,
        append_assoc p (z ∷ []) q,
        length-append p (z ∷ []),
      ) in
    let same : length (p ++ (z ∷ [])) ≡ length b = omega (arith, length-append p (z ∷ [])) in
    strlcpy_from-copies (p ++ (z ∷ q)) rest [] (b ++ d) 0 (length b) h refl
      (rw cut (omega (arith, same, length-append b d)))
    ∙ rw (cut, same, drop-append b d) (ap (λ k. some ((p ++ (z ∷ [])) ++ d, k)) (omega arith))

-- A text of `len` characters or more is cut to `len - 1`, but the terminator is written twice: once
-- in the last byte of the buffer and once behind it, over the byte `y` or outside the object.
pub strlcpy-long :
    (b p q rest after : List ℕ) (z y : ℕ)
    → IsText (p ++ (z ∷ q))
    → length b ≡ suc (length p)
    → suc (length p) < 2 ^ 32
    → (strlcpy (b ++ (y ∷ after)) (held (p ++ (z ∷ q)) rest) (length b)
        ≡ some (p ++ (0 ∷ 0 ∷ after)))
      × (strlcpy b (held (p ++ (z ∷ q)) rest) (length b) ≡ none)
strlcpy-long b p q rest after z y h e small = (
  strlcpy-ends (b ++ (y ∷ after)) (held (p ++ (z ∷ q)) rest) (p ++ (z ∷ [])) (y ∷ after) (length b)
        (omega arith) (omega arith) (strlcpy_from-cut b (y ∷ after) p q rest z h e)
      ∙ ground (
        arith,
        append_assoc p (z ∷ []) (y ∷ after),
        length-append p (z ∷ []),
        store-append p z (y ∷ after) 0 (length b - 1),
        store-append_right p (0 ∷ y ∷ after) 1 0 (length (p ++ (z ∷ []))),
      ),
  ap (λ d. strlcpy d (held (p ++ (z ∷ q)) rest) (length b)) (sym (append-nil b))
      ∙ strlcpy-ends (b ++ []) (held (p ++ (z ∷ q)) rest) (p ++ (z ∷ [])) [] (length b)
          (omega arith) (omega arith) (strlcpy_from-cut b [] p q rest z h e)
      ∙ ground (
        arith,
        append_assoc p (z ∷ []) [],
        length-append p (z ∷ []),
        length-append p (0 ∷ []),
        store-append p z [] 0 (length b - 1),
        store-outside (p ++ (0 ∷ [])) (length (p ++ (z ∷ []))) 0,
      ),
)
