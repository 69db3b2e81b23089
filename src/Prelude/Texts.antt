-- ===== src/Prelude/Texts.antt =====
-- Text that the program scans, as code points, with the parts of its `re` and `str` use that the
-- models share. The traces are ASCII, so `\d` and `\s` are the ASCII classes.
use Prim.Native.Nat.{ℕ, zero, ◌+◌, ◌-◌, ◌*◌}
use Prim.Native.Char.{code}
use Prim.Native.String.{String}
use mathlib.Core.Bool.{Bool, true, false, ◌&&◌, ◌||◌}
use mathlib.Core.List.{List, [], ◌∷◌}
use mathlib.Core.Option.{Option, none, some}
use causpan.Prelude.Tests.{leb, nat_beq, if◌then◌else◌}

abbrev pub Text : Type 0
Text = List ℕ

abbrev pub codes : String → Text
codes String.[] = []
codes (String.◌∷◌ c s) = code c ∷ codes s

-- `text.startswith(prefix)`, prefix first
unfoldable pub starts_with : Text → Text → Bool
starts_with [] t = true
starts_with (c ∷ p) [] = false
starts_with (c ∷ p) (d ∷ t) = nat_beq c d && starts_with p t

-- `pattern in text`
unfoldable pub contains : Text → Text → Bool
unfolding starts_with
contains p [] = starts_with p []
contains p (c ∷ t) = starts_with p (c ∷ t) || contains p t

unfoldable pub is_space : ℕ → Bool
is_space c = nat_beq c 32 || (leb 9 c && leb c 13)

unfoldable pub is_digit : ℕ → Bool
is_digit c = leb b'0' c && leb c b'9'

-- the digit that a character stands for in `[0-9a-fA-F]`
unfoldable pub hex_digit : ℕ → Option ℕ
unfolding is_digit
hex_digit c =
    if is_digit c
    then some (c - b'0')
    else if leb b'a' c && leb c b'f'
    then some (c - b'a' + 10)
    else if leb b'A' c && leb c b'F'
    then some (c - b'A' + 10)
    else none

-- `\s*`
unfoldable pub skip_spaces : Text → Text
unfolding is_space
skip_spaces [] = []
skip_spaces (c ∷ t) = if is_space c then skip_spaces t else c ∷ t

-- the digits of `\d*` after the number read so far, with what follows
unfoldable pub digits_from : ℕ → Text → ℕ × Text
unfolding is_digit
digits_from n [] = (n, [])
digits_from n (c ∷ t) =
    let rest = digits_from (n * 10 + (c - b'0')) t in if is_digit c then rest else (n, c ∷ t)

-- `(\d+)` at the start of a text: the number, and what follows
unfoldable pub number : Text → Option (ℕ × Text)
unfolding digits_from
number [] = none
number (c ∷ t) = if is_digit c then some (digits_from 0 (c ∷ t)) else none

unfoldable pub hex_from : ℕ → Text → ℕ × Text
unfolding hex_digit
hex_from n [] = (n, [])
hex_from n (c ∷ t) = elim (hex_digit c) [ none ↦ (n, c ∷ t) | some d ↦ hex_from (n * 16 + d) t ]

-- a text of one hexadecimal digit or more
unfoldable pub hex_number : Text → Option (ℕ × Text)
unfolding hex_from
hex_number [] = none
hex_number (c ∷ t) = elim (hex_digit c) [ none ↦ none | some _ ↦ some (hex_from 0 (c ∷ t)) ]

-- `(0x[0-9a-fA-F]+|\d+)`: after `0x` with no digit the second alternative reads the 0
unfoldable pub int_literal : Text → Option (ℕ × Text)
unfolding hex_number number
int_literal (zero ∷ t) = none
int_literal (c ∷ d ∷ t) =
    let plain = number (c ∷ d ∷ t) in
    if nat_beq c b'0' && nat_beq d b'x'
    then elim (hex_number t) [ none ↦ plain | some r ↦ some r ]
    else plain
int_literal t = number t

-- `\s*,\s*`
unfoldable pub comma : Text → Option Text
unfolding skip_spaces
comma t = elim (skip_spaces t) [
  | [] ↦ none
  | c ∷ r ↦ if nat_beq c b',' then some (skip_spaces r) else none
]
