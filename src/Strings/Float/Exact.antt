-- ===== src/Strings/Float/Exact.antt =====
-- What `ftoa_s` of bootloader/stage2/strings.c prints of a number that is not negative.
use mathlib.Core.List.{reverse}
use dalek.Base.{
  sym, ap₂, ℕ, zero, suc, ◌+◌, ◌*◌, ◌/◌, ◌%◌, ◌^◌, ◌≤◌, ◌<◌, ◌≡◌, refl, ap, ◌∙◌, true, Option, some,
  List, [], ◌∷◌, ◌++◌, ltb, lt→ltb, none, inl, inr, Option-cases, drop, length, length-append,
  length-drop, append_assoc, cons_of_pos, arith,
}
use dalek.Base.Int.{ℤ, pos}
use dalek.Base.Fault.{◌>>=◌}
use dalek.Strings.Text.{held}
use dalek.Strings.Buffer.{store, store-append}
use dalek.Strings.Reverse.{str_reverse, str_reverse-reverse}
use dalek.Strings.Number.{digit_char, itoa_last}
use dalek.Strings.Number.Digits.{written, itoa_last-written}
use dalek.Strings.Number.Spelled.{
  symbol, numeral, digit_char-symbol, length-reverse, reverse-written,
}
use dalek.Strings.Float.{decimal_char, to_long, decimal_loop, ftoa_s}

-- A positive number, turned round.
turn_last :
    (o : Option (List ℕ × ℕ))
    → ◌>>=◌ {B = List ℕ × ℕ} o
        (λ s. store s.0 s.1 0 >>= λ b. str_reverse b 0 s.1 >>= λ b'. some (b', s.1))
      ≡ ◌>>=◌ {B = List ℕ × ℕ}
          (◌>>=◌ {B = List ℕ × ℕ} o (λ s. store s.0 s.1 0 >>= λ b. some (b, s.1)))
          (λ s. str_reverse s.0 0 s.1 >>= λ b'. some (b', s.1))
turn_last none = refl
turn_last (some (b, p)) = elim (Option-cases (store b p 0)) [
  | inl e ↦ rw e refl
  | inr (b', e) ↦ rw e refl
]

turn_text :
    (w r : List ℕ)
    → ◌>>=◌ {B = List ℕ × ℕ} (str_reverse (held w r) 0 (length w)) (λ b. some (b, length w))
      ≡ some (held (reverse w) r, length w)
turn_text w r =
    let same : length w ≡ 0 + length w = omega arith in
    ap (λ o. ◌>>=◌ {B = List ℕ × ℕ} o (λ b. some (b, length w)))
      (ap (str_reverse (held w r) 0) same ∙ str_reverse-reverse [] w (0 ∷ r))

itoa_last-turned :
    (n : ℕ) (b : List ℕ)
    → length (written (pos n) 10) < length b
    → (r : List ℕ) × (itoa_last (pos n) 10 true b
        ≡ some (held (reverse (written (pos n) 10)) r, length (written (pos n) 10)))
      × (length b ≡ length (written (pos n) 10) + suc (length r))
unfolding itoa_last
itoa_last-turned n b h =
    let (r, e, l) = itoa_last-written (pos n) 10 b h in
    (r, turn_last _ ∙ rw e (turn_text (written (pos n) 10) r), l)

decimal_char-symbol : (n : ℕ) → decimal_char (pos n) ≡ symbol (n % 10)
unfolding decimal_char digit_char
decimal_char-symbol n =
    let same : b'0' + n % 10 ≡ digit_char (n % 10) = ground arith in
    same ∙ digit_char-symbol (n % 10) (omega arith)

to_long-pos : (n : ℕ) → n < 2 ^ 31 → to_long (pos n) ≡ some (pos n)
unfolding to_long
to_long-pos n h = ground arith

-- The first `n` digits behind the point of the fraction `a / d`.
abbrev pub decimals_of : ℕ → ℕ → ℕ → List ℕ
decimals_of zero a d = []
decimals_of (suc n) a d = symbol (10 * a / d % 10) ∷ decimals_of n (10 * a) d

length-decimals_of : (n a d : ℕ) → length (decimals_of n a d) ≡ n
length-decimals_of zero a d = refl
length-decimals_of (suc n) a d = ap suc (length-decimals_of n (10 * a) d)

module _ {Double : Type 0} (times_ten : Double → Double) (whole : Double → ℤ) where
  -- The value is the fraction `a / d` as far as its whole part shows, also behind `n` products with ten,
  -- and the whole parts are below 2 ^ 31.
  abbrev pub Exact : ℕ → Double → ℕ → ℕ → Type 0
  Exact zero value a d = (whole value ≡ pos (a / d)) × (a / d < 2 ^ 31)
  Exact (suc n) value a d =
      ((whole value ≡ pos (a / d)) × (a / d < 2 ^ 31)) × Exact n (times_ten value) (10 * a) d

  Exact-whole :
      (n : ℕ) (value : Double) (a d : ℕ)
      → Exact n value a d
      → (whole value ≡ pos (a / d)) × (a / d < 2 ^ 31)
  Exact-whole zero value a d h = h
  Exact-whole (suc n) value a d h = h.0

  decimal_loop-decimals_of :
      (n : ℕ) (value : Double) (a d : ℕ) (w b : List ℕ) (p : ℕ)
      → Exact n value a d
      → p ≡ length w
      → n ≤ length b
      → decimal_loop times_ten whole n value (w ++ b) p
        ≡ some (w ++ (decimals_of n a d ++ drop n b), p + n)
  unfolding decimal_loop
  decimal_loop-decimals_of zero value a d w b p x e h = ground arith
  decimal_loop-decimals_of (suc n) value a d w [] p x e h = absurd (omega arith)
  decimal_loop-decimals_of (suc n) value a d w (y ∷ b) p x e h =
      let (next, small) = Exact-whole n (times_ten value) (10 * a) d x.1 in
      let c = symbol (10 * a / d % 10) in
      let ih =
        decimal_loop-decimals_of n (times_ten value) (10 * a) d (w ++ (c ∷ [])) b (p + 1) x.1
          (omega (arith, length-append w (c ∷ []))) (omega arith) in
      rw
        (
          next,
          to_long-pos (10 * a / d) small,
          decimal_char-symbol (10 * a / d),
          store-append w y b c p e,
        )
        ((rw (append_assoc w (c ∷ []) b) at ih)
          ∙ ap₂ (λ l (k : ℕ). some (l, k))
              (append_assoc w (c ∷ []) (decimals_of n (10 * a) d ++ drop n b)) (omega arith))

  -- Behind the point.
  abbrev Decimals : ℕ → Double → ℕ → ℕ → List ℕ → List ℕ → Type 0
  Decimals decimals value a d w r =
      (r' : List ℕ) × (◌>>=◌ {B = List ℕ}
          (decimal_loop times_ten whole decimals value (w ++ r) (length w)) (λ s. store s.0 s.1 0)
        ≡ some (held (w ++ decimals_of decimals a d) r'))

  Decimals-drop :
      (decimals : ℕ) (value : Double) (a d : ℕ) (w r : List ℕ) (x : ℕ) (r' : List ℕ)
      → Exact decimals value a d
      → decimals < length r
      → drop decimals r ≡ x ∷ r'
      → Decimals decimals value a d w r
  Decimals-drop decimals value a d w r x r' exact h cut =
      let f = decimals_of decimals a d in
      (
        r',
        rw
            (
              decimal_loop-decimals_of decimals value a d w r (length w) exact refl (omega arith),
              cut,
              ← append_assoc w f (x ∷ r'),
              store-append (w ++ f) x r' 0 (length w + decimals)
                  (omega (arith, length-append w f, length-decimals_of decimals a d)),
            )
            refl,
      )

  decimal_loop-Decimals :
      (decimals : ℕ) (value : Double) (a d : ℕ) (w r : List ℕ)
      → Exact decimals value a d
      → decimals < length r
      → Decimals decimals value a d w r
  decimal_loop-Decimals decimals value a d w r exact h =
      let (x, r', cut) = cons_of_pos (drop decimals r) (omega (arith, length-drop decimals r)) in
      Decimals-drop decimals value a d w r x r' exact h cut

  -- The number is the fraction `a / d`, exactly behind every product with ten, and all its whole parts are
  -- below 2 ^ 31, and there is room for its digits, the point, the decimals and a terminator: `ftoa_s`
  -- leaves the numeral of its whole part, a point, and so many digits behind the point of the fraction.
  pub ftoa_s-written :
      (value : Double) (a d decimals : ℕ) (b : List ℕ)
      → Exact decimals value a d
      → length (numeral 10 (a / d)) + 1 + decimals < length b
      → (r : List ℕ) × (ftoa_s times_ten whole value decimals b (length b)
          ≡ some (held (numeral 10 (a / d) ++ (b'.' ∷ decimals_of decimals a d)) r))
  unfolding ftoa_s
  ftoa_s-written value a d decimals b exact h =
      let n = a / d in
      let (is_whole, small) = Exact-whole decimals value a d exact in
      let t = written (pos n) 10 in
      let u = reverse t in
      let f = decimals_of decimals a d in
      let spelled : u ≡ numeral 10 n = reverse-written n (omega arith) in
      let long : length t ≡ length (numeral 10 n) = sym (length-reverse t) ∙ ap length spelled in
      let (r, turned, l) = itoa_last-turned n b (omega (arith, long)) in
      let (r', behind) =
        decimal_loop-Decimals decimals value a d (u ++ (b'.' ∷ [])) r exact (omega (arith, long)) in
      let inside : ltb (length t) (length b) ≡ true =
        lt→ltb (length t) (length b) (omega (arith, long)) in
      let next : length t + 1 ≡ length (u ++ (b'.' ∷ [])) =
        omega (arith, length-append u (b'.' ∷ []), length-reverse t) in
      (
        r',
        rw
            (
              is_whole,
              to_long-pos n small,
              turned,
              inside,
              store-append u 0 r b'.' (length t) (omega (arith, length-reverse t)),
              next,
              ← append_assoc u (b'.' ∷ []) r,
            )
            (behind
              ∙ ap (λ l. some (held l r')) (append_assoc u (b'.' ∷ []) f)
              ∙ ap (λ v. some (held (v ++ (b'.' ∷ f)) r')) spelled),
      )
