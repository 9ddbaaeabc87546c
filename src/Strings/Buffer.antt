-- ===== src/Strings/Buffer.antt =====
-- A buffer that a function of bootloader/stage2/strings.c writes, as the list of its bytes.
use dalek.Base.{
  ℕ, suc, ◌+◌, ◌≤◌, ◌<◌, ◌≡◌, refl, ap, Option, none, some, List, [], ◌∷◌, ◌++◌, arith, ltb, lt→ltb,
  if◌then◌else◌, length, length-append, get_elem?, set,
}

-- `buffer[i] = v`; `none` is a write outside the buffer.
unfoldable pub store : List ℕ → ℕ → ℕ → Option (List ℕ)
store b i v = if ltb i (length b) then some (set b i v) else none

set-append :
    (w : List ℕ) (x : ℕ) (b : List ℕ) (v : ℕ) → set (w ++ (x ∷ b)) (length w) v ≡ w ++ (v ∷ b)
set-append [] x b v = refl
set-append (y ∷ w) x b v = ap (λ l. y ∷ l) (set-append w x b v)

-- Writing behind what is written.
pub store-append :
    (w : List ℕ) (x : ℕ) (b : List ℕ) (v i : ℕ)
    → i ≡ length w
    → store (w ++ (x ∷ b)) i v ≡ some (w ++ (v ∷ b))
unfolding store
store-append w x b v i e =
    let fits : length w < length (w ++ (x ∷ b)) = omega (arith, length-append w (x ∷ b)) in
    rw (e, lt→ltb (length w) (length (w ++ (x ∷ b))) fits, set-append w x b v)

pub store-outside : (b : List ℕ) (i v : ℕ) → length b ≤ i → store b i v ≡ none
unfolding store
store-outside b i v h = ground arith

set-append_right : (w b : List ℕ) (k v : ℕ) → set (w ++ b) (length w + k) v ≡ w ++ set b k v
set-append_right [] b k v = ap (λ j. set b j v) (omega arith)
set-append_right (y ∷ w) b k v =
    let e : suc (length w) + k ≡ suc (length w + k) = omega arith in
    rw e (ap (λ l. y ∷ l) (set-append_right w b k v))

-- Writing `k` bytes behind what is written.
pub store-append_right :
    (w b : List ℕ) (k v i : ℕ)
    → i ≡ length w + k
    → k < length b
    → store (w ++ b) i v ≡ some (w ++ set b k v)
unfolding store
store-append_right w b k v i e h =
    let fits : length w + k < length (w ++ b) = omega (arith, length-append w b) in
    rw (e, lt→ltb (length w + k) (length (w ++ b)) fits, set-append_right w b k v)

-- `buffer[i]`.
unfoldable pub fetch : List ℕ → ℕ → Option ℕ
fetch b i = get_elem? b i

pub fetch-append :
    (w : List ℕ) (x : ℕ) (b : List ℕ) (i : ℕ) → i ≡ length w → fetch (w ++ (x ∷ b)) i ≡ some x
unfolding fetch
fetch-append [] x b i e = rw e
fetch-append (y ∷ w) x b i e = rw e (fetch-append w x b (length w) refl)
