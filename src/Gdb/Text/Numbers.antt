-- ===== src/Gdb/Text/Numbers.antt =====
-- gdb_protocol.c: a word that write_uint32 prints is read back by read_uint32.
use arm_sim.Base.{
  ℕ, ◌+◌, ◌*◌, ◌/◌, ◌%◌, ◌^◌, ◌<◌, ◌≡◌, arith, refl, some, List, [], ◌∷◌, ◌++◌, false,
}
use arm_sim.Gdb.Text.{
  hex_digit, hex_digits, write_uint32, digit_value, scan_digits, scan_number, is_space, skip_spaces,
  skip_sign, skip_prefix, scan_hex, read_uint32,
}

pub digit_value-hex_digit : (d : ℕ) → d < 16 → digit_value (hex_digit d) ≡ some d
unfolding digit_value hex_digit
digit_value-hex_digit d h = ground arith

-- The value of digits, on from a value.
abbrev value_of : ℕ → List ℕ → ℕ
value_of value [] = value
value_of value (d ∷ ds) = value_of (value * 16 + d) ds

abbrev AllDigits : List ℕ → Type 0
AllDigits [] = Unit
AllDigits (d ∷ ds) = (d < 16) × AllDigits ds

abbrev printed : List ℕ → List ℕ
printed [] = []
printed (d ∷ ds) = hex_digit d ∷ printed ds

scan_digits-printed :
    (ds : List ℕ) (value : ℕ)
    → AllDigits ds
    → scan_digits value (printed ds) ≡ (value_of value ds, [])
unfolding scan_digits
scan_digits-printed [] value h = refl
scan_digits-printed (d ∷ ds) value (h, hs) =
    ground (arith, digit_value-hex_digit d h, scan_digits-printed ds (value * 16 + d) hs)

scan_number-printed :
    (d : ℕ) (ds : List ℕ)
    → AllDigits (d ∷ ds)
    → scan_number (printed (d ∷ ds)) ≡ some (value_of 0 (d ∷ ds), [])
unfolding scan_number
scan_number-printed d ds (h, hs) =
    ground (arith, digit_value-hex_digit d h, scan_digits-printed ds d hs)

-- Printed digits look like neither white space nor a sign, and no `x` follows a first digit.
module _ (d : ℕ) (h : d < 16) where
  pub is_space-hex_digit : is_space (hex_digit d) ≡ false
  unfolding is_space hex_digit
  is_space-hex_digit = ground arith

  skip_spaces-hex_digit : (cs : List ℕ) → skip_spaces (hex_digit d ∷ cs) ≡ hex_digit d ∷ cs
  unfolding skip_spaces
  skip_spaces-hex_digit cs = ground (arith, is_space-hex_digit)

  skip_sign-hex_digit : (cs : List ℕ) → skip_sign (hex_digit d ∷ cs) ≡ (false, hex_digit d ∷ cs)
  unfolding skip_sign hex_digit
  skip_sign-hex_digit cs = ground arith

  skip_prefix-hex_digit :
      (e : ℕ) (cs : List ℕ)
      → e < 16
      → skip_prefix (hex_digit d ∷ hex_digit e ∷ cs) ≡ hex_digit d ∷ hex_digit e ∷ cs
  unfolding skip_prefix hex_digit
  skip_prefix-hex_digit e cs he = ground arith

-- A field of two digits or more reads as the number that they print.
pub scan_hex-printed :
    (w d e : ℕ) (ds : List ℕ)
    → AllDigits (d ∷ e ∷ ds)
    → value_of 0 (d ∷ e ∷ ds) < 2 ^ w
    → scan_hex w (printed (d ∷ e ∷ ds)) ≡ some (value_of 0 (d ∷ e ∷ ds), [])
unfolding scan_hex
scan_hex-printed w d e ds (hd, (he, hs)) h = ground (
  arith,
  skip_spaces-hex_digit d hd (hex_digit e ∷ printed ds),
  skip_sign-hex_digit d hd (hex_digit e ∷ printed ds),
  skip_prefix-hex_digit d hd e (printed ds) he,
  scan_number-printed d (e ∷ ds) (hd, (he, hs)),
)

-- A word that is printed is read back, whatever comes after it.
pub read_uint32-write_uint32 :
    (v : ℕ) (rest : List ℕ) → v < 2 ^ 32 → read_uint32 (write_uint32 v ++ rest) ≡ some v
unfolding read_uint32 write_uint32 hex_digits
read_uint32-write_uint32 v rest h =
    let d : ℕ → ℕ = λ i. v / 16 ^ i % 16 in
    let low = d 5 ∷ d 4 ∷ d 3 ∷ d 2 ∷ d 1 ∷ d 0 ∷ [] in
    let value : value_of 0 (d 7 ∷ d 6 ∷ low) ≡ v = omega arith in
    let small : AllDigits (d 7 ∷ d 6 ∷ low) = ground arith in
    let scanned = scan_hex-printed 32 (d 7) (d 6) low small (omega arith) in
    ground (arith, skip_spaces-hex_digit (d 7) (omega arith) (printed (d 6 ∷ low) ++ rest), scanned)
