-- ===== src/Attribution/Args.antt =====
-- What the attribution reads in the argument text of a system call: `fd_number` and
-- `close_range_has_flag` of attribute.py, `clone_has_flag` of analyze.py. `int(_, 0)` is read on the
-- literals that strace prints, hexadecimal or decimal without leading zeros.
use causpan.Prelude.{
  ℕ, ◌/◌, ◌%◌, Option, none, some, [], ◌∷◌, Bool, false, ◌&&◌, ◌||◌, not, Text, String, codes,
  starts_with, contains, is_digit, skip_spaces, number, int_literal, comma, nat_beq, leb,
  if◌then◌else◌,
}
use mathlib.Core.List.{reverse}

-- `re.match(r'\s*(\d+)(?:<[^>]*>)?', args)`, the number
unfoldable pub fd_number : Text → Option ℕ
unfolding skip_spaces number
fd_number args = elim (number (skip_spaces args)) [ none ↦ none | some (n, _) ↦ some n ]

-- `re.match(r'\s*(\d+)\s*,\s*(\d+)', args)`: both numbers, and what follows
unfoldable pub number_pair : Text → Option (ℕ × ℕ × Text)
unfolding skip_spaces number comma
number_pair args = elim (number (skip_spaces args)) [
  | none ↦ none
  | some (first, rest) ↦ elim (comma rest) [
    | none ↦ none
    | some after ↦ elim (number after) [
      | none ↦ none
      | some (last, end_) ↦ some (first, last, end_)
    ]
  ]
]

-- `value & bit`, for a bit that is a power of two
unfoldable pub has_bit : ℕ → ℕ → Bool
has_bit value bit = not (nat_beq (value / bit % 2) 0)

pub data RangeFlag : Type 0 where
  cloexec unshare : RangeFlag

abbrev pub range_flag_name : RangeFlag → String
range_flag_name RangeFlag.cloexec = "CLOSE_RANGE_CLOEXEC"
range_flag_name RangeFlag.unshare = "CLOSE_RANGE_UNSHARE"

abbrev pub range_flag_bit : RangeFlag → ℕ
range_flag_bit RangeFlag.cloexec = 4
range_flag_bit RangeFlag.unshare = 2

-- the third argument, if it is a literal
unfoldable pub third_literal : Text → Option ℕ
unfolding number_pair comma int_literal
third_literal args = elim (number_pair args) [
  | none ↦ none
  | some (_, _, rest) ↦ elim (comma rest) [
    | none ↦ none
    | some after ↦ elim (int_literal after) [ none ↦ none | some (n, _) ↦ some n ]
  ]
]

unfoldable pub close_range_has_flag : Text → RangeFlag → Bool
unfolding contains third_literal has_bit
close_range_has_flag args flag =
    contains (codes (range_flag_name flag)) args
    || elim (third_literal args) [ none ↦ false | some n ↦ has_bit n (range_flag_bit flag) ]

-- `\w`
unfoldable pub is_word : ℕ → Bool
unfolding is_digit
is_word c = is_digit c || (leb b'a' c && leb c b'z') || (leb b'A' c && leb c b'Z') || nat_beq c b'_'

unfoldable pub drop_text : Text → Text → Text
drop_text [] t = t
drop_text (_ ∷ p) [] = []
drop_text (_ ∷ p) (_ ∷ t) = drop_text p t

-- `re.search(r'\bflags=(0x[0-9a-fA-F]+|[0-9]+)', args)`, the literal; the first argument tells
-- whether the character before is a `\w`
unfoldable pub flags_literal : Bool → Text → Option ℕ
unfolding starts_with int_literal drop_text is_word
flags_literal after_word [] = none
flags_literal after_word (c ∷ t) =
    let later = flags_literal (is_word c) t in
    if not after_word && starts_with (codes "flags=") (c ∷ t)
    then elim (int_literal (drop_text (codes "flags=") (c ∷ t))) [
      | none ↦ later
      | some (n, _) ↦ some n
    ]
    else later

pub data CloneFlag : Type 0 where
  files thread : CloneFlag

abbrev pub clone_flag_name : CloneFlag → String
clone_flag_name CloneFlag.files = "CLONE_FILES"
clone_flag_name CloneFlag.thread = "CLONE_THREAD"

-- CLONE_FLAG_BITS
abbrev pub clone_flag_bit : CloneFlag → ℕ
clone_flag_bit CloneFlag.files = 0x400
clone_flag_bit CloneFlag.thread = 0x10000

unfoldable pub clone_has_flag : Text → CloneFlag → Bool
unfolding contains flags_literal has_bit
clone_has_flag args flag =
    contains (codes (clone_flag_name flag)) args
    || elim (flags_literal false args) [ none ↦ false | some n ↦ has_bit n (clone_flag_bit flag) ]

-- `text.strip()`
unfoldable pub strip : Text → Text
unfolding skip_spaces
strip t = reverse (skip_spaces (reverse (skip_spaces t)))

-- `re.fullmatch(r'0x[0-9a-fA-F]+|\d+', text)`, the number
unfoldable pub whole_literal : Text → Option ℕ
unfolding int_literal
whole_literal t = elim (int_literal t) [
  | none ↦ none
  | some (n, rest) ↦ elim rest [ [] ↦ some n | _ ∷ _ ↦ none ]
]

-- the test of an `unshare` call for CLONE_FILES
unfoldable pub unshares_files : Text → Bool
unfolding strip whole_literal contains has_bit
unshares_files args =
    let flags = strip args in
    contains (codes "CLONE_FILES") flags
    || elim (whole_literal flags) [ none ↦ false | some n ↦ has_bit n 0x400 ]
