-- ===== src/Screen/Ansi/Attributes.antt =====
-- `screen_ansi_attr` of bootloader/stage2/devices/screen/screen.c.
use dalek.Base.{
  ℕ, zero, suc, ◌-◌, ◌≤◌, ◌<◌, ◌≡◌, refl, inl, inr, true, Bool-cases, some, List, [], ◌∷◌, ltb,
  length, get_or, drop, arith,
}
use dalek.Strings.Parse.Total.{has_nul, strtol-total, atoi-total}
use dalek.Screen.{Screen}
use dalek.Screen.Cursor.{IsScreen}
use dalek.Screen.Ansi.{color_table, set_attr, attr_loop, screen_ansi_attr}

color_table-below : (k : ℕ) → get_or color_table k 0 < 8
color_table-below zero = omega arith
color_table-below (suc zero) = omega arith
color_table-below (suc (suc zero)) = omega arith
color_table-below (suc (suc (suc zero))) = omega arith
color_table-below (suc (suc (suc (suc zero)))) = omega arith
color_table-below (suc (suc (suc (suc (suc zero))))) = omega arith
color_table-below (suc (suc (suc (suc (suc (suc zero)))))) = omega arith
color_table-below (suc (suc (suc (suc (suc (suc (suc zero))))))) = omega arith
color_table-below (suc (suc (suc (suc (suc (suc (suc (suc k)))))))) = omega arith

set_attr-IsScreen : {s : Screen} (attr : ℕ) → IsScreen s → IsScreen (set_attr s attr)
unfolding set_attr
set_attr-IsScreen attr v =
    ground (arith, color_table-below (attr - 30), color_table-below (attr - 40))

drop_shorter : (q : List ℕ) {n : ℕ} → 0 < length q → length q ≤ n → length (drop 1 q) < n
drop_shorter [] h l = ground arith
drop_shorter (c ∷ q) h l = omega arith

-- The loop returns on a terminated string, with as much fuel as there are bytes.
attr_loop-total :
    (fuel : ℕ) (params : List ℕ) (len : ℕ) (p : List ℕ) {s : Screen}
    → length p < fuel
    → has_nul p ≡ true
    → IsScreen s
    → (t : Screen) × (attr_loop fuel params len p s ≡ some t) × IsScreen t
unfolding attr_loop
attr_loop-total zero params len p l h v = ground arith
attr_loop-total (suc fuel) params len p {s} l h v =
    let (attr, stop, e, ends) = strtol-total p 10 h in
    let w = set_attr-IsScreen attr v in
    elim ends [
      | inl null ↦ (set_attr s attr, rw (e, null) refl, w)
      | inr (q, at, place) ↦ elim (Bool-cases (ltb (length params - length (drop 1 q)) len)) [
        | inr over ↦ (set_attr s attr, rw (e, at, over) refl, w)
        | inl more ↦
            let (t, f, x) =
              attr_loop-total fuel params len (drop 1 q)
                (drop_shorter q place.some_character (omega (arith, place.shorter)))
                place.next_terminated w in
            (t, rw (e, at, more) f, x)
      ]
    ]

-- On every terminated string `screen_ansi_attr` returns, having read no further than the terminator,
-- and leaves the cursor in place and the attributes bytes.
pub screen_ansi_attr-total :
    (params : List ℕ) (len : ℕ) {s : Screen}
    → has_nul params ≡ true
    → IsScreen s
    → (t : Screen) × (screen_ansi_attr params len s ≡ some t) × IsScreen t
unfolding screen_ansi_attr
screen_ansi_attr-total params len {s} h v =
    let (t, e, w) = attr_loop-total (suc (length params)) params len params (omega arith) h v in
    let (a, f) = atoi-total params h in
    (
      record t { oldattr = s.attr },
      elim (Bool-cases (ltb 0 len)) [
        | inl some_params ↦ rw (some_params, f, e) refl
        | inr no_params ↦ rw (no_params, e) refl
      ],
      record {
        column = w.column;
        row = w.row;
        byte_attr = w.byte_attr;
        byte_oldattr = v.byte_attr;
      },
    )
