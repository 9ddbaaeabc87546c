-- ===== src/Strings/Tests.antt =====
-- The string functions at concrete strings, and the theorems at them.
use Prim.Native.Char.{code}
use Prim.Native.String.{String}
use mathlib.Core.List.{reverse}
use dalek.Base.{
  false, ℕ, ◌≡◌, ◌↔◌, inl, inr, refl, true, none, some, List, [], ◌∷◌, ◌++◌, length, replicate,
  arith,
}
use dalek.Base.Int.{pos, negsuc}
use dalek.Strings.Text.{held, isdigit, strlen, digit_value, Below, strlen-held, isdigit_iff}
use dalek.Strings.Compare.{strcmp, strncmp, Compared, strcmp_equal, strncmp_equal, strcmp_prefix}
use dalek.Strings.Search.{strcontains, strcontains-found, strcontains-Absent}
use dalek.Strings.Buffer.{store, fetch}
use dalek.Strings.Copy.{strlcpy, strlcpy-fits, strlcpy-long}
use dalek.Strings.Reverse.{str_reverse, str_reverse-reverse}
use dalek.Strings.Number.{digit_char, magnitude, itoa_digits, itoa_last, pad_loop, itoa_s}
use dalek.Strings.Number.Numeral.{digits_of}
use dalek.Strings.Number.Digits.{chars_of}
use dalek.Strings.Number.Print.{itoa_s-printed}
use dalek.Strings.Parse.{strtol, atoi}
use dalek.Strings.Parse.Digits.{isdigit-NoDigit, strtol-number}
use dalek.Strings.RoundTrip.{strtol-itoa_s, itoa_s-negative}

abbrev text : String → List ℕ
text String.[] = []
text (String.◌∷◌ c s) = code c ∷ text s

abbrev buffer : List ℕ
buffer = replicate 12 255

minus_twelve : itoa_s (negsuc 11) 10 b' ' 0 buffer ≡ some (text "12-" ++ (0 ∷ replicate 8 255))
unfolding itoa_s itoa_last itoa_digits pad_loop store fetch str_reverse digit_char magnitude
minus_twelve = refl

hexadecimal : itoa_s (pos 0xbeef) 16 b'0' 8 buffer ≡ some (text "0000beef" ++ (0 ∷ replicate 3 255))
unfolding itoa_s itoa_last itoa_digits pad_loop store fetch str_reverse digit_char magnitude
hexadecimal = refl

prefixes :
    (atoi (held (text "0x1F") []) ≡ some 31)
    × (atoi (held (text "0b101") []) ≡ some 5)
    × (atoi (held (text "017") []) ≡ some 15)
    × (atoi (held (text "65537") []) ≡ some 1)
unfolding atoi isdigit
prefixes = (refl, refl, refl, refl)

strlen-held_instance : strlen (some (held (text "dalek") [])) ≡ some 5
strlen-held_instance = strlen-held (text "dalek") [] (omega arith)

isdigit_iff_instance : (isdigit b'f' 16 ≡ true) ↔ Below (digit_value b'f') 16
isdigit_iff_instance = isdigit_iff b'f' 16 (inr (inr (inr refl)))

strcmp_equal_instance :
    Compared (strcmp (held (text "fd0") []) (held (text "fd1") [])) (text "fd1" ≡ text "fd0")
strcmp_equal_instance = strcmp_equal (text "fd0") (text "fd1") [] [] (omega arith) (omega arith)

strncmp_equal_instance :
    Compared
      (strncmp (held (text "forced") []) (held (text "force") []) 5)
      (text "force" ≡ text "force")
strncmp_equal_instance =
    strncmp_equal (text "forced") (text "force") [] [] 5 (omega arith) (omega arith)

strcmp_prefix_instance :
    (strcmp (held (text "fd") []) (held (text "fd0") []) ≡ some (pos 1))
    × (strcmp (held (text "fd0") []) (held (text "fd") []) ≡ some (pos 1))
strcmp_prefix_instance = strcmp_prefix (text "fd") [] [] b'0' [] (omega arith) (omega arith)

strcontains-found_instance : strcontains (held (text "a b") []) b' ' ≡ some (pos 1)
strcontains-found_instance =
    strcontains-found b' ' (text "a") (text "b") [] (omega arith) (omega arith) (omega arith)

strcontains-Absent_instance : strcontains (held (text "ab") []) b' ' ≡ some (negsuc 0)
strcontains-Absent_instance =
    strcontains-Absent b' ' (text "ab") [] (omega arith) (omega arith) (omega arith)

strlcpy-fits_instance :
    (r : List ℕ) × (strlcpy buffer (held (text "fd0") []) 12 ≡ some (held (text "fd0") r))
    × (length (held (text "fd0") r) ≡ 12)
strlcpy-fits_instance =
    strlcpy-fits buffer (text "fd0") [] 12 (omega arith) (omega arith) (omega arith) (omega arith)

-- A name of four characters into a field of four bytes that another field follows.
strlcpy-long_example :
    (strlcpy (replicate 4 255 ++ (b'F' ∷ text "loppy")) (held (text "disk") []) 4
      ≡ some (text "dis" ++ (0 ∷ 0 ∷ text "loppy")))
    × (strlcpy (replicate 4 255) (held (text "disk") []) 4 ≡ none)
strlcpy-long_example =
    strlcpy-long (replicate 4 255) (text "dis") [] [] (text "loppy") b'k' b'F' (omega arith) refl
      (omega arith)

str_reverse-reverse_instance : str_reverse (text "(abc)") 1 4 ≡ some (text "(cba)")
str_reverse-reverse_instance = str_reverse-reverse (text "(") (text "abc") (text ")")

itoa_s-printed_instance :
    (r : List ℕ) × (itoa_s (pos 42) 10 b' ' 5 buffer ≡ some (held (text "   42") r))
    × (length (held (text "   42") r) ≡ 12)
unfolding magnitude digits_of digit_char
itoa_s-printed_instance = itoa_s-printed (pos 42) 10 b' ' 5 buffer (omega arith) (omega arith)

nul_no_hex : isdigit 0 16 ≡ false
unfolding isdigit
nul_no_hex = refl

strtol-number_example : strtol (held (text "bEE7") []) 16 ≡ some (0xbee7, none)
strtol-number_example =
    strtol-number 16 (text "bEE7") (11 ∷ 14 ∷ 14 ∷ 7 ∷ []) 0 [] (inr (inr (inr refl)))
      (
        (omega arith, inl refl),
        ((omega arith, inr refl), ((omega arith, inr refl), ((omega arith, inl refl), tt))),
      )
      (isdigit-NoDigit 16 0 (inr (inr (inr refl))) nul_no_hex)

strtol-itoa_s_example :
    (b : List ℕ) × (itoa_s (pos 1234) 16 b'0' 8 buffer ≡ some b) × (strtol b 16 ≡ some (1234, none))
unfolding digits_of
strtol-itoa_s_example =
    strtol-itoa_s 1234 16 8 buffer (inr refl) (omega arith) (omega arith) (omega arith)

itoa_s-negative_example :
    (r : List ℕ) × (itoa_s (negsuc 6) 10 b' ' 0 buffer
      ≡ some (held (reverse (chars_of 10 7) ++ (b'-' ∷ [])) r))
unfolding digits_of
itoa_s-negative_example = itoa_s-negative 6 b' ' buffer (omega arith) (omega arith)
