-- ===== src/Modules/Order.antt =====
-- The order in which bootloader/stage2/modules.c calls the functions.
use mathlib.Core.List.{reverse, reverse-cons}
use dalek.Base.{
  ℕ, ◌≡◌, refl, sym, ap, ◌∙◌, Option, none, some, List, [], ◌∷◌, ◌++◌, get_elem?, get_elem?-append,
  length, length-append, append_assoc, append-nil, arith,
}
use dalek.Base.Fault.{◌>>=◌}
use dalek.Strings.Text.{c_string}
use dalek.Io.{IoDevice}
use dalek.Modules.{ModuleInit, init_loop, destroy_loop, mod_destroy_all, log_module}

module _ {A : Type 0} where
  length-reverse : (l : List A) → length (reverse l) ≡ length l
  length-reverse [] = refl
  length-reverse (x ∷ l) =
      ap length (reverse-cons x l)
      ∙ omega (arith, length-append (reverse l) (x ∷ []), length-reverse l)

  reverse-behind :
      (x : A) (l behind : List A) → reverse (x ∷ l) ++ behind ≡ reverse l ++ (x ∷ behind)
  reverse-behind x l behind =
      ap (λ r. r ++ behind) (reverse-cons x l) ∙ append_assoc (reverse l) (x ∷ []) behind

  get_elem?-reverse :
      (x : A) (l behind : List A) → get_elem? (reverse l ++ (x ∷ behind)) (length l) ≡ some x
  get_elem?-reverse x l behind =
      ap (get_elem? (reverse l ++ (x ∷ behind))) (sym (length-reverse l))
      ∙ get_elem?-append (reverse l) x behind

bind-ext :
    {A : Type 0} {B : Type 0} (o : Option A) (k k' : A → Option B)
    → ((a : A) → k a ≡ k' a)
    → (o >>= k) ≡ (o >>= k')
bind-ext none k k' same = refl
bind-ext (some a) k k' same = same a

module _ {State : Type 0} (stdout : State → Option (IoDevice State)) (stack : List ℕ) where
  -- The functions of the front are called from the last one to the first.
  destroy_loop-front :
      (front behind : List (ModuleInit State)) (s : State × ℕ)
      → destroy_loop stdout stack (length front) (reverse front ++ behind) s
        ≡ some (init_loop stdout stack front s)
  unfolding destroy_loop init_loop
  destroy_loop-front [] behind s = refl
  destroy_loop-front (f ∷ front) behind s =
      rw (reverse-behind f front behind, get_elem?-reverse f front behind)
        (destroy_loop-front front (f ∷ behind) (f s).1)

  destroy_loop-reverse :
      (modules : List (ModuleInit State)) (s : State × ℕ)
      → destroy_loop stdout stack (length (reverse modules)) (reverse modules) s
        ≡ some (init_loop stdout stack modules s)
  destroy_loop-reverse modules s =
      let same : length (reverse modules) ≡ length modules = length-reverse modules in
      rw same (
        ap (λ l. destroy_loop stdout stack (length modules) l s)
          (sym (append-nil (reverse modules)))
        ∙ destroy_loop-front modules [] s)

  -- The end of the modules calls the functions of its array from the last one to the first, between its
  -- two messages: what it does with an array turned round is what the loop of `mod_init_all` does with
  -- the array.
  pub mod_destroy_all-reverse :
      (modules : List (ModuleInit State)) (s : State × ℕ)
      → mod_destroy_all stdout stack (reverse modules) s ≡ (
          log_module stdout stack (c_string "mod_destroy_all") (c_string "Destroying modules") s
          >>= λ s₁.
              log_module stdout stack
                (c_string "mod_destroy_all")
                (c_string "Modules destroyed")
                (init_loop stdout stack modules s₁))
  unfolding mod_destroy_all
  mod_destroy_all-reverse modules s =
      bind-ext
        (log_module stdout stack (c_string "mod_destroy_all") (c_string "Destroying modules") s) _ _
        λ s₁. rw (destroy_loop-reverse modules s₁) refl
