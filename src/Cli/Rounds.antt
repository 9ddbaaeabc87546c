-- ===== src/Cli/Rounds.antt =====
-- A round of `cli_start` in bootloader/stage2/cli.c, from the keys to the command.
use mathlib.Core.Path.{subst}
use dalek.Base.{
  ℕ, suc, ◌%◌, ◌^◌, ◌<◌, ◌≡◌, refl, sym, ap, ◌∙◌, Option, some, List, [], ◌∷◌, ◌++◌, length, get_or,
  append_assoc, arith,
}
use dalek.Base.Fault.{◌>>=◌}
use dalek.Strings.Text.{IsText, held, chars, c_string}
use dalek.Strings.Split.{strsplit}
use dalek.Strings.Split.Rows.{flat, starts, filled}
use dalek.Strings.Split.Lines.{line, AreWords, strsplit-line}
use dalek.Stdio.Terminal.{Terminal}
use dalek.Stdio.Edits.{edited, echoes, AreKeys, length-edited}
use dalek.Stdio.Lines.{gets-Read}
use dalek.Stdio.Logs.{printf-plain}
use dalek.Cli.{
  CliCommand, Buffers, find_command, run_command, string_array, pointers, argv_of, cli_round,
}
use dalek.Cli.Rows.{
  rows_of, rows_of-Wide, flat-rows_of, length-rows_of, starts-pointers, Holds, Fits-line,
  argv_of-Holds, first-Holds,
}

-- The characters between the words of a line.
abbrev pub blanks : List ℕ
blanks = b' ' ∷ b'\t' ∷ []

-- Fewer than 128 keys edit a line that is made of the words, with one blank between them, of which there
-- are at most 15. The buffer of `cli_start` has 128 bytes, and `gets` does not know its size.
pub record Typed (ks : List ℕ) (ws : List (List ℕ)) : Type 0 where
  pub keys : AreKeys ks
  pub short : length ks < 128
  pub spelled : edited [] ks ≡ line b' ' ws
  pub words : AreWords blanks ws
  pub plain : IsText (line b' ' ws)
  pub few : length ws < 16

-- `strsplit` on such a line: the strings of the array hold the words.
line-Holds :
    (ks : List ℕ) (ws : List (List ℕ)) (behind strings : List ℕ)
    → Typed ks ws
    → length strings ≡ 2048
    → (strings' : List ℕ) × (strsplit
          (held (edited [] ks) behind)
          string_array
          (c_string " \t")
          strings
        ≡ some (length ws, strings'))
      × Holds ws (argv_of string_array strings')
line-Holds ks ws behind strings h size =
    let rows = rows_of 16 strings in
    let wide = rows_of-Wide 16 strings (omega arith) in
    let small : length (line b' ' ws) < 128 =
      omega (arith, h.short, length-edited [] ks, ap length h.spelled) in
    let fits =
      Fits-line b' ' ws rows wide small (omega (arith, h.few, length-rows_of 16 strings)) in
    let array : starts 0 rows ≡ string_array =
      starts-pointers 0 rows wide ∙ ap (pointers 0) (length-rows_of 16 strings) in
    (
      flat (filled ws rows),
      ap (λ t. strsplit (held t behind) string_array (c_string " \t") strings) h.spelled
          ∙ ap (λ a. strsplit (held (line b' ' ws) behind) a (c_string " \t") strings) (sym array)
          ∙ ap (λ m. strsplit (held (line b' ' ws) behind) (starts 0 rows) (c_string " \t") m)
              (sym (flat-rows_of 16 strings (omega arith)))
          ∙ strsplit-line blanks [] behind b' ' ws rows (omega arith) (omega arith) refl h.words
              h.plain (omega arith) fits,
      subst (λ a. Holds ws (argv_of a (flat (filled ws rows)))) array (argv_of-Holds ws rows fits),
    )

module _ {State : Type 0} (terminal : Terminal State) where
  open terminal use {stdin, stdout, typed, shown}

  -- What a round does up to the search: the line is read into `b'`, and `argv` holds the words. Then it
  -- goes on from the state `s'`.
  pub record Searches (o : Option (Buffers × (State × ℕ))) (stack : List ℕ)
      (commands : List (CliCommand State)) (w : List ℕ) (ws : List (List ℕ)) (s : State) (errno : ℕ)
      (out rest : List ℕ) : Type 0 where
    pub state : State
    pub buffers : Buffers
    pub behind : List ℕ
    pub argv : List (List ℕ)
    pub first : get_or argv 0 [] ≡ held w behind
    pub holds : Holds (w ∷ ws) argv
    pub returned : o ≡ (
        find_command commands (held w behind) >>= λ cmd.
        run_command (some stdout) stack cmd (suc (length ws)) argv (state, errno) >>= λ s₂.
        some (buffers, s₂))
    pub more_shown : shown state ≡ shown s ++ out
    pub same_typed : typed state ≡ rest

  pub cli_round-Searches :
      (ks w rest : List ℕ) (ws : List (List ℕ)) (fuel unset : ℕ) (stack : List ℕ)
      (commands : List (CliCommand State)) (b : Buffers) (s : State) (errno : ℕ)
      → Typed ks (w ∷ ws)
      → typed s ≡ ks ++ (b'\n' ∷ rest)
      → length ks < fuel
      → length stack ≡ 64
      → length b.line ≡ 128
      → length b.strings ≡ 2048
      → Searches
          (cli_round fuel (some stdin) (some stdout) unset stack commands b (s, errno))
          stack
          commands
          w
          ws
          s
          errno
          (chars "?: " ++ (echoes [] ks ++ (b'\n' ∷ [])))
          rest
  unfolding cli_round
  cli_round-Searches ks w rest ws fuel unset stack commands b s errno h e enough stacked wide size =
      let (s₁, prompted, prompt, waits) =
        printf-plain terminal (chars "?: ") stack s errno (ground arith) stacked in
      let r =
        gets-Read terminal ks rest b.line fuel unset s₁ errno h.keys (waits ∙ e) enough
          (omega (arith, h.short)) (omega (arith, h.short)) in
      let (strings, split, holds) = line-Holds ks (w ∷ ws) r.behind b.strings h size in
      let (behind, first) = first-Holds w ws (argv_of string_array strings) holds in
      let count : suc (length ws) % 2 ^ 8 ≡ suc (length ws) = omega (arith, h.few) in
      record {
        state = r.state;
        buffers = record { line = held (edited [] ks) r.behind; strings = strings };
        behind = behind;
        argv = argv_of string_array strings;
        first = first;
        holds = holds;
        returned = rw (prompted, r.returned, split, first, count) refl;
        more_shown =
            r.more_shown
            ∙ ap (λ l. l ++ (echoes [] ks ++ (b'\n' ∷ []))) prompt
            ∙ append_assoc (shown s) (chars "?: ") (echoes [] ks ++ (b'\n' ∷ []));
        same_typed = r.same_typed;
      }
