-- ===== src/Gdb/Text.antt =====
-- gdb_protocol.c: the texts of the packets, as lists of byte values. The functions of C that the
-- file calls on them are here as it uses them: strcmp, index, atoi, and sscanf and snprintf with
-- hexadecimal fields. A field that is missing leaves the variable of the caller unset, a field
-- that does not fit is undefined, and both give `none`.
pub mod Numbers
pub mod Words
use Prim.Native.Char.{code}
use Prim.Native.String.{String}
use arm_sim.Base.{
  ℕ, zero, suc, ◌+◌, ◌-◌, ◌*◌, ◌/◌, ◌%◌, ◌^◌, ltb, leb, ◌==◌, if◌then◌else◌, ◌&&◌, ◌||◌, Bool, true,
  false, Option, none, some, List, [], ◌∷◌,
}
use arm_sim.Base.Optional.{◌>>=◌}

abbrev pub codes : String → List ℕ
codes String.[] = []
codes (String.◌∷◌ c s) = code c ∷ codes s

abbrev pub count : List ℕ → ℕ
count [] = 0
count (c ∷ cs) = suc (count cs)

abbrev pub drop : ℕ → List ℕ → List ℕ
drop zero cs = cs
drop (suc n) [] = []
drop (suc n) (c ∷ cs) = drop n cs

abbrev pub take : ℕ → List ℕ → List ℕ
take zero cs = []
take (suc n) [] = []
take (suc n) (c ∷ cs) = c ∷ take n cs

-- The text up to its terminator.
unfoldable pub until_nul : List ℕ → List ℕ
until_nul [] = []
until_nul (c ∷ cs) = if c == 0 then [] else c ∷ until_nul cs

-- `strcmp(s, t) == 0`, for terminated texts.
unfoldable pub same_text : List ℕ → List ℕ → Bool
same_text [] [] = true
same_text [] (d ∷ ds) = false
same_text (c ∷ cs) [] = false
same_text (c ∷ cs) (d ∷ ds) = c == d && same_text cs ds

-- `index(s, mark) + 1`.
unfoldable pub after : ℕ → List ℕ → Option (List ℕ)
after mark [] = none
after mark (c ∷ cs) = if c == mark then some cs else if c == 0 then none else after mark cs

-- A character of the format that stands for itself.
unfoldable pub expect : ℕ → List ℕ → Option (List ℕ)
expect mark [] = none
expect mark (c ∷ cs) = if c == mark then some cs else none

-- The digits that `%x` prints.
unfoldable pub hex_digit : ℕ → ℕ
hex_digit d = if ltb d 10 then b'0' + d else b'a' + (d - 10)

-- `n` digits of `v`, the most significant first.
unfoldable pub hex_digits : ℕ → ℕ → List ℕ
hex_digits zero v = []
hex_digits (suc n) v = hex_digit (v / 16 ^ n % 16) ∷ hex_digits n v

-- The text of `%08x`.
unfoldable pub write_uint32 : ℕ → List ℕ
write_uint32 v = hex_digits 8 v

unfoldable pub digit_value : ℕ → Option ℕ
digit_value c =
    if leb b'0' c && leb c b'9'
    then some (c - b'0')
    else if leb b'a' c && leb c b'f'
    then some (c - b'a' + 10)
    else if leb b'A' c && leb c b'F'
    then some (c - b'A' + 10)
    else none

unfoldable pub scan_digits : ℕ → List ℕ → ℕ × List ℕ
scan_digits value [] = (value, [])
scan_digits value (c ∷ cs) = elim (digit_value c) [
  | none ↦ (value, c ∷ cs)
  | some d ↦ scan_digits (value * 16 + d) cs
]

-- One digit at least.
unfoldable pub scan_number : List ℕ → Option (ℕ × List ℕ)
scan_number [] = none
scan_number (c ∷ cs) = do d ← digit_value c; some (scan_digits d cs)

unfoldable pub is_space : ℕ → Bool
is_space c = c == 32 || (leb 9 c && leb c 13)

unfoldable pub skip_spaces : List ℕ → List ℕ
skip_spaces [] = []
skip_spaces (c ∷ cs) = if is_space c then skip_spaces cs else c ∷ cs

-- Whether there is a minus, and what comes after the sign.
unfoldable pub skip_sign : List ℕ → Bool × List ℕ
skip_sign [] = (false, [])
skip_sign (c ∷ cs) =
    if c == b'-' then (true, cs) else if c == b'+' then (false, cs) else (false, c ∷ cs)

unfoldable pub skip_prefix : List ℕ → List ℕ
skip_prefix [] = []
skip_prefix (c ∷ []) = c ∷ []
skip_prefix (c ∷ x ∷ cs) = if c == b'0' && (x == b'x' || x == b'X') then cs else c ∷ x ∷ cs

-- A field `%x` for a variable of `w` bits: its value, with the text after it.
unfoldable pub scan_hex : ℕ → List ℕ → Option (ℕ × List ℕ)
scan_hex w cs = do
  let (negative, text) = skip_sign (skip_spaces cs)
  (value, rest) ← scan_number (skip_prefix text)
  if ltb value (if negative then 1 else 2 ^ w) then some (value, rest) else none

-- `%08x`: at most eight characters are read after the white space.
unfoldable pub read_uint32 : List ℕ → Option ℕ
read_uint32 cs = do (value, rest) ← scan_hex 32 (take 8 (skip_spaces cs)); some value

unfoldable pub scan_decimal : ℕ → List ℕ → ℕ
scan_decimal value [] = value
scan_decimal value (c ∷ cs) =
    if leb b'0' c && leb c b'9' then scan_decimal (value * 10 + (c - b'0')) cs else value

-- `atoi`: whether there is a minus, and the magnitude.
unfoldable pub atoi : List ℕ → Option (Bool × ℕ)
atoi cs = do
  let (negative, text) = skip_sign (skip_spaces cs)
  let value = scan_decimal 0 text
  if ltb value (if negative then 2 ^ 31 + 1 else 2 ^ 31) then some (negative, value) else none
