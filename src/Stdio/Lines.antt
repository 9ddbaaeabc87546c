-- ===== src/Stdio/Lines.antt =====
-- `gets` of bootloader/stage2/stdio.c against the line that the keys edit.
use mathlib.Core.Path.{subst}
use dalek.Base.{
  ℕ, zero, suc, ◌+◌, ◌%◌, ◌^◌, ◌<◌, leb, ◌≡◌, ◌≢◌, refl, sym, ap, ◌∙◌, Bool-cases, inl, inr, false,
  Option, some, List, [], ◌∷◌, ◌++◌, ◌==◌, drop, length, arith, length-append, append_assoc,
  append-nil,
}
use dalek.Strings.Text.{held}
use dalek.Strings.Buffer.{store-append}
use dalek.Stdio.{Line, getc, gets_switch, gets_body, gets_loop, gets}
use dalek.Stdio.Terminal.{Terminal}
use dalek.Stdio.Edits.{
  pressed, echo, edited, echoes, AreKeys, length-but_last, but_last-empty, store-but_last,
  length-pressed,
}

module _ {State : Type 0} (terminal : Terminal State) where
  open terminal use {
    stdin, stdout, typed, shown, take_key, display, reads, writes, typed-take_key, shown-take_key,
    typed-display, shown-display,
  }

  getc-typed :
      (s : State) (c : ℕ) (t : List ℕ) (unset errno : ℕ)
      → typed s ≡ c ∷ t
      → getc (some stdin) unset (s, errno) ≡ (c, (take_key s, errno))
  unfolding getc
  getc-typed s c t unset errno e = rw (reads s c t unset errno e)

  -- The buffer holds the line `t` with `room` bytes in all, and the terminal has shown `out` more.
  record Pressed (o : Option (List ℕ × ℕ × (State × ℕ))) (t : List ℕ) (room : ℕ) (s : State)
      (errno : ℕ) (out : List ℕ) : Type 0 where
    pub behind : List ℕ
    pub state : State
    pub returned : o ≡ some (t ++ behind, length t, (state, errno))
    pub sized : length t + length behind ≡ room
    pub more_shown : shown state ≡ shown s ++ out
    pub same_typed : typed state ≡ typed s

  gets_switch-pressed :
      (k : ℕ) (t : List ℕ) (x : ℕ) (b : List ℕ) (s : State) (errno : ℕ)
      → k ≢ b'\n'
      → suc (length t) < 2 ^ 16
      → Pressed
          (gets_switch (some stdout) k (t ++ (x ∷ b)) (length t) (s, errno))
          (pressed t k)
          (length t + suc (length b))
          s
          errno
          (echo t k)
  unfolding gets_switch pressed echo
  gets_switch-pressed k t x b s errno no_end small = elim (Bool-cases (k == 8)) [
    | inr other ↦
        let end : (k == b'\n') ≡ false = ground arith in
        let wrap : (length t + 1) % 2 ^ 16 ≡ length (t ++ (k ∷ [])) =
          omega (arith, length-append t (k ∷ [])) in
        record {
          behind = b;
          state = display (k ∷ []) s;
          returned = rw (
            other,
            end,
            store-append t x b k (length t) refl,
            writes s (k ∷ []) 1 errno (omega arith),
            wrap,
            append_assoc t (k ∷ []) b,
          );
          sized = ground (arith, length-append t (k ∷ []));
          more_shown = rw other (shown-display s (k ∷ []));
          same_typed = typed-display s (k ∷ []);
        }
    | inl back ↦ elim (Bool-cases (length t == 0)) [
      | inl empty ↦ record {
        behind = x ∷ b;
        state = s;
        returned = rw (back, empty, but_last-empty t empty) refl;
        sized = ground (arith, length-but_last t);
        more_shown = rw (back, empty) (sym (append-nil (shown s)));
        same_typed = refl;
      }
      | inr full ↦ record {
        behind = 0 ∷ x ∷ b;
        state = display (k ∷ []) s;
        returned = rw (
          back,
          full,
          store-but_last t (x ∷ b) (ground arith),
          writes s (k ∷ []) 1 errno (omega arith),
          length-but_last t,
        );
        sized = ground (arith, length-but_last t);
        more_shown = rw (back, full) (shown-display s (k ∷ []));
        same_typed = typed-display s (k ∷ []);
      }
    ]
  ]

  -- What `gets` returns: the line `t` in a buffer of `room` bytes, and the terminal that has shown `out`
  -- more and waits with `rest`.
  pub record Read (o : Option (Line State)) (t rest : List ℕ) (room : ℕ) (s : State) (errno : ℕ)
      (out : List ℕ) : Type 0 where
    pub behind : List ℕ
    pub state : State
    pub returned :
        o ≡ some (record { is_null = false; dest = held t behind; state = (state, errno) })
    pub sized : length (held t behind) ≡ room
    pub more_shown : shown state ≡ shown s ++ out
    pub same_typed : typed state ≡ rest

  gets_loop-Read :
      (ks t b rest : List ℕ) (fuel unset : ℕ) (s : State) (errno : ℕ)
      → AreKeys ks
      → typed s ≡ ks ++ (b'\n' ∷ rest)
      → length ks < fuel
      → length t + length ks < length t + length b
      → length t + length ks < 2 ^ 16
      → Read
          (gets_loop fuel (some stdin) (some stdout) unset (t ++ b) (length t) (s, errno))
          (edited t ks)
          rest
          (length t + length b)
          s
          errno
          (echoes t ks ++ (b'\n' ∷ []))
  unfolding gets_loop gets_body edited echoes
  gets_loop-Read ks t b rest zero unset s errno h e enough room small = absurd (omega arith)
  gets_loop-Read ks t [] rest (suc fuel) unset s errno h e enough room small = absurd (omega arith)
  gets_loop-Read [] t (x ∷ b) rest (suc fuel) unset s errno h e enough room small =
      let key = getc-typed s b'\n' rest unset errno e in
      let at_end = store-append t x b 0 (length t) refl in
      let shows = writes (take_key s) (b'\n' ∷ []) 1 errno (omega arith) in
      record {
        behind = b;
        state = display (b'\n' ∷ []) (take_key s);
        returned = rw key (unfold gets_switch in rw (at_end, shows) refl);
        sized = omega (arith, length-append t (0 ∷ b));
        more_shown =
            shown-display (take_key s) (b'\n' ∷ [])
            ∙ ap (λ l. l ++ (b'\n' ∷ [])) (shown-take_key s);
        same_typed = typed-display (take_key s) (b'\n' ∷ []) ∙ typed-take_key s ∙ ap (drop 1) e;
      }
  gets_loop-Read (k ∷ ks) t (x ∷ b) rest (suc fuel) unset s errno h e enough room small =
      let key = getc-typed s k (ks ++ (b'\n' ∷ rest)) unset errno e in
      let positive : leb 128 k ≡ false = ground (arith, h.0) in
      let inner : (k == b'\n') ≡ false = ground (arith, h.1) in
      let p = gets_switch-pressed k t x b (take_key s) errno h.1 (omega arith) in
      let grown = length-pressed t k in
      let r =
        gets_loop-Read ks (pressed t k) p.behind rest fuel unset p.state errno h.2
          (p.same_typed ∙ typed-take_key s ∙ ap (drop 1) e) (omega arith)
          (omega (arith, p.sized, grown)) (omega (arith, grown)) in
      record {
        behind = r.behind;
        state = r.state;
        returned = rw (key, positive, p.returned, inner) r.returned;
        sized = r.sized ∙ p.sized;
        more_shown =
            r.more_shown
            ∙ ap (λ l. l ++ (echoes (pressed t k) ks ++ (b'\n' ∷ [])))
                (p.more_shown ∙ ap (λ l. l ++ echo t k) (shown-take_key s))
            ∙ append_assoc (shown s) (echo t k) (echoes (pressed t k) ks ++ (b'\n' ∷ []))
            ∙ ap (λ l. shown s ++ l)
                (sym (append_assoc (echo t k) (echoes (pressed t k) ks) (b'\n' ∷ [])));
        same_typed = r.same_typed;
      }

  -- `gets` on keys of ASCII and the end of a line, in a buffer with room for all of them: it returns the
  -- line that the keys edit, the backspaces done, and has taken the keys and the end of the line and
  -- shown what was typed.
  pub gets-Read :
      (ks rest dest : List ℕ) (fuel unset : ℕ) (s : State) (errno : ℕ)
      → AreKeys ks
      → typed s ≡ ks ++ (b'\n' ∷ rest)
      → length ks < fuel
      → length ks < length dest
      → length ks < 2 ^ 16
      → Read
          (gets fuel (some stdin) (some stdout) unset dest (s, errno))
          (edited [] ks)
          rest
          (length dest)
          s
          errno
          (echoes [] ks ++ (b'\n' ∷ []))
  unfolding gets
  gets-Read ks rest dest fuel unset s errno h e enough room small =
      subst
        (λ (n : ℕ).
          Read (gets fuel (some stdin) (some stdout) unset dest (s, errno)) (edited [] ks) rest n s
            errno (echoes [] ks ++ (b'\n' ∷ [])))
        (omega arith)
        (gets_loop-Read ks [] dest rest fuel unset s errno h e enough (omega arith) (omega arith))
