-- ===== src/Canvas/Server/Strings.antt =====
-- The parts of Python's str and int that canvas/canvas.py uses, on texts as lists of code points.
use whitefield.Base.{
  ℕ, ◌+◌, ◌-◌, ◌*◌, Bool, true, false, ◌&&◌, ◌||◌, Option, none, some, List, [], ◌∷◌, ◌++◌, Bytes,
  leb, ◌==◌, if◌then◌else◌,
}
use whitefield.Base.Int.{ℤ, pos, negsuc, neg}
use whitefield.Base.Text.{is_digit, before, behind, decimal}

-- `str.isspace`.
abbrev pub is_white : ℕ → Bool
is_white c =
    c == 32
    || ((leb 9 c && leb c 13)
        || ((leb 28 c && leb c 31)
            || (c == 0x85
                || (c == 0xa0
                    || (c == 0x1680
                        || ((leb 0x2000 c && leb c 0x200a)
                            || (c == 0x2028
                                || (c == 0x2029
                                    || (c == 0x202f || (c == 0x205f || c == 0x3000))))))))))

abbrev pub skip_front : (ℕ → Bool) → Bytes → Bytes
skip_front test [] = []
skip_front test (c ∷ s) = if test c then skip_front test s else c ∷ s

abbrev pub with_front : (ℕ → Bool) → ℕ → Bytes → Bytes
with_front test c [] = if test c then [] else c ∷ []
with_front test c (d ∷ s) = c ∷ d ∷ s

abbrev pub skip_back : (ℕ → Bool) → Bytes → Bytes
skip_back test [] = []
skip_back test (c ∷ s) = with_front test c (skip_back test s)

-- `s.strip(chars)` and `s.strip()`.
abbrev pub strip_by : (ℕ → Bool) → Bytes → Bytes
strip_by test s = skip_back test (skip_front test s)

abbrev pub strip : Bytes → Bytes
strip s = strip_by is_white s

-- A word so far in front of the words behind it.
abbrev pub with_word : Bytes → List Bytes → List Bytes
with_word [] words = words
with_word (c ∷ word) words = (c ∷ word) ∷ words

-- `s.split()`, behind a word so far.
unfoldable pub split_words : Bytes → Bytes → List Bytes
split_words word [] = with_word word []
split_words word (c ∷ s) = elim (is_white c) [
  | true ↦ with_word word (split_words [] s)
  | false ↦ split_words (word ++ c ∷ []) s
]

-- Universal newlines: '\r\n' and '\r' are read as '\n'.
abbrev pub newlines : Bool → Bytes → Bytes
newlines after_cr [] = []
newlines after_cr (c ∷ s) = elim (c == 13) [
  | true ↦ 10 ∷ newlines true s
  | false ↦ elim (after_cr && c == 10) [ true ↦ newlines false s | false ↦ c ∷ newlines false s ]
]

-- The lines of a text, behind a line so far; the '\n' that ends a line is left out, as the uses
-- below skip it as white space.
unfoldable pub lines_behind : Bytes → Bytes → List Bytes
lines_behind line [] = with_word line []
lines_behind line (c ∷ s) = elim (c == 10) [
  | true ↦ line ∷ lines_behind [] s
  | false ↦ lines_behind (line ++ c ∷ []) s
]

-- What `for line in file` gives.
unfoldable pub file_lines : Bytes → List Bytes
unfolding lines_behind
file_lines s = lines_behind [] (newlines false s)

-- `s.partition(c)[::2]`.
abbrev pub partition : ℕ → Bytes → Bytes × Bytes
partition c s = (before c s, elim (behind c s) [ none ↦ [] | some rest ↦ rest ])

-- `s.split(c)[-1]`.
abbrev pub behind_last : ℕ → Bytes → Option Bytes
behind_last c [] = none
behind_last c (x ∷ s) = elim (behind_last c s) [
  | some rest ↦ some rest
  | none ↦ if x == c then some s else none
]

abbrev pub last_field : ℕ → Bytes → Bytes
last_field c s = elim (behind_last c s) [ none ↦ s | some rest ↦ rest ]

-- The value of a digit in a base of up to 16.
abbrev pub digit_below : ℕ → ℕ → Option ℕ
digit_below base d = if leb base d then none else some d

abbrev pub digit : ℕ → ℕ → Option ℕ
digit base c =
    if is_digit c
    then digit_below base (c - b'0')
    else if leb b'a' c && leb c b'f'
    then digit_below base (c - b'a' + 10)
    else if leb b'A' c && leb c b'F'
    then digit_below base (c - b'A' + 10)
    else none

-- The digits behind the number `n`; `ended` when a digit stands in front, which a '_' needs and the
-- end too.
unfoldable pub digits_from : ℕ → ℕ → Bool → Bytes → Option ℕ
digits_from base n ended [] = if ended then some n else none
digits_from base n ended (c ∷ s) = elim (digit base c) [
  | some d ↦ digits_from base (n * base + d) true s
  | none ↦ elim (c == b'_' && ended) [ true ↦ digits_from base n false s | false ↦ none ]
]

abbrev pub skip_underscore : Bytes → Bytes
skip_underscore [] = []
skip_underscore (c ∷ s) = if c == b'_' then s else c ∷ s

-- "0x", which `int(s, 16)` skips with a '_' behind it.
abbrev pub skip_prefix : ℕ → Bytes → Bytes
skip_prefix base [] = []
skip_prefix base (c ∷ []) = c ∷ []
skip_prefix base (c ∷ d ∷ s) =
    if base == 16 && (c == b'0' && (d == b'x' || d == b'X')) then skip_underscore s else c ∷ d ∷ s

abbrev pub signed : Bool → Option ℕ → Option ℤ
signed minus none = none
signed minus (some n) = some (if minus then neg n else pos n)

abbrev pub int_of : ℕ → Bytes → Option ℤ
int_of base [] = none
int_of base (c ∷ s) =
    if c == b'-'
    then signed true (digits_from base 0 false (skip_prefix base s))
    else if c == b'+'
    then signed false (digits_from base 0 false (skip_prefix base s))
    else signed false (digits_from base 0 false (skip_prefix base (c ∷ s)))

-- `int(s, base)` for base 10 and 16 and a text of ASCII; `none` is the ValueError.
unfoldable pub int : ℕ → Bytes → Option ℤ
unfolding digits_from
int base s = int_of base (strip s)

-- `str(n)`.
abbrev pub str : ℤ → Bytes
str (pos n) = decimal n
str (negsuc n) = b'-' ∷ decimal (n + 1)
