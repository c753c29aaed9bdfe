-- ===== src/Canvas/Server/Configured.antt =====
-- canvas/canvas.py: `get_config` on a file of settings, and the start of the server with it.
use whitefield.Base.{
  ℕ, ◌+◌, ◌-◌, ◌*◌, ◌<◌, ◌≡◌, ◌≢◌, refl, sym, ap, subst, ◌∙◌, true, false, some, List, [], ◌∷◌,
  ◌++◌, Bytes, codes, All, All-append, All-map, ◌==◌, arith, Bool-cases, inl, inr,
}
use whitefield.Base.Int.{pos}
use whitefield.Base.Text.{is_digit, value, IsDigits, Lacks, before, decimal, text_eq, starts_with}
use whitefield.Base.Decimal.{decimal-IsDigits, decimal-cons, value-decimal}
use whitefield.Canvas.Server.Strings.{
  is_white, strip, partition, lines_behind, file_lines, digit, digits_from, skip_prefix, int_of,
  int,
}
use whitefield.Canvas.Server.Words.{newlines-Lacks, lines_behind-line, strip-black}
use whitefield.Canvas.Server.Starting.{
  Cfginc, with_setting, read_settings, lookup, port, checked_port, port_of, get_config,
}

-- A file of lines.
abbrev pub config_text : List Bytes → Bytes
config_text [] = []
config_text (line ∷ lines) = line ++ 10 ∷ config_text lines

-- The contents of one line.
abbrev pub IsLine : Bytes → Type 0
IsLine line = All (λ c. (c ≢ 10) × (c ≢ 13)) line

lines_behind-config_text :
    (lines : List Bytes) → All IsLine lines → lines_behind [] (config_text lines) ≡ lines
unfolding lines_behind
lines_behind-config_text [] h = refl
lines_behind-config_text (line ∷ lines) (hl, h) =
    lines_behind-line [] line (config_text lines)
      (All-map (λ c. (c ≢ 10) × (c ≢ 13)) (λ c. c ≢ 10) (λ c hc. hc.0) line hl)
    ∙ ap (λ r. line ∷ r) (lines_behind-config_text lines h)

config_text-Lacks : (lines : List Bytes) → All IsLine lines → Lacks 13 (config_text lines)
config_text-Lacks [] h = tt
config_text-Lacks (line ∷ lines) (hl, h) =
    All-append (λ c. c ≢ 13) line (10 ∷ config_text lines)
      (All-map (λ c. (c ≢ 10) × (c ≢ 13)) (λ c. c ≢ 13) (λ c hc. hc.1) line hl)
      ((λ e. absurd (omega arith)), config_text-Lacks lines h)

file_lines-config_text :
    (lines : List Bytes) → All IsLine lines → file_lines (config_text lines) ≡ lines
unfolding file_lines
file_lines-config_text lines h =
    ap (lines_behind []) (newlines-Lacks (config_text lines) (config_text-Lacks lines h))
    ∙ lines_behind-config_text lines h

read_settings-append :
    (cfg : Cfginc) (l1 l2 : List Bytes)
    → read_settings cfg (l1 ++ l2) ≡ read_settings (read_settings cfg l1) l2
unfolding read_settings
read_settings-append cfg [] l2 = refl
read_settings-append cfg (line ∷ l1) l2 =
    read_settings-append (with_setting cfg (partition b'=' line)) l1 l2

-- The name that a line sets.
abbrev pub IsOther : Bytes → Type 0
IsOther line = text_eq (strip (before b'=' line)) (codes "MONITOR_PORT") ≡ false

lookup-with_setting :
    (cfg : Cfginc) (line : Bytes)
    → IsOther line
    → lookup (codes "MONITOR_PORT") (with_setting cfg (partition b'=' line))
      ≡ lookup (codes "MONITOR_PORT") cfg
lookup-with_setting cfg line h = elim (Bool-cases (starts_with (codes "#") (before b'=' line))) [
  | inl comment ↦ rw (comment, with_setting) refl
  | inr setting ↦ rw (setting, with_setting, h, lookup) refl
]

lookup-read_settings :
    (cfg : Cfginc) (lines : List Bytes)
    → All IsOther lines
    → lookup (codes "MONITOR_PORT") (read_settings cfg lines) ≡ lookup (codes "MONITOR_PORT") cfg
unfolding read_settings
lookup-read_settings cfg [] h = refl
lookup-read_settings cfg (line ∷ lines) (hl, h) =
    lookup-read_settings (with_setting cfg (partition b'=' line)) lines h
    ∙ lookup-with_setting cfg line hl

digit-IsDigits : (c : ℕ) → is_digit c ≡ true → digit 10 c ≡ some (c - b'0')
digit-IsDigits c h = ground arith

digits_from-IsDigits : (n : ℕ) (s : Bytes) → IsDigits s → digits_from 10 n true s ≡ some (value n s)
unfolding digits_from
digits_from-IsDigits n [] h = refl
digits_from-IsDigits n (c ∷ s) (hc, h) =
    rw (digit-IsDigits c hc, digits_from) (digits_from-IsDigits (n * 10 + (c - b'0')) s h)

skip_prefix-ten : (s : Bytes) → skip_prefix 10 s ≡ s
skip_prefix-ten [] = refl
skip_prefix-ten (c ∷ []) = refl
skip_prefix-ten (c ∷ d ∷ s) = refl

digits-black : (s : Bytes) → IsDigits s → All (λ c. is_white c ≡ false) s
digits-black s h =
    All-map (λ c. is_digit c ≡ true) (λ c. is_white c ≡ false) (λ c hc. ground arith) s h

int-IsDigits :
    (c : ℕ) (s : Bytes) → IsDigits (c ∷ s) → int 10 (c ∷ s) ≡ some (pos (value 0 (c ∷ s)))
unfolding int digits_from
int-IsDigits c s (hc, h) =
    let minus : (c == b'-') ≡ false = ground arith in
    let no_plus : (c == b'+') ≡ false = ground arith in
    rw
      (
        strip-black (c ∷ s) (digits-black (c ∷ s) (hc, h)),
        int_of,
        minus,
        no_plus,
        skip_prefix-ten (c ∷ s),
        digits_from,
        digit-IsDigits c hc,
        digits_from-IsDigits (0 * 10 + (c - b'0')) s h,
      )
      refl

pub int-decimal : (n : ℕ) → int 10 (decimal n) ≡ some (pos n)
int-decimal n =
    let (d, ds, e) = decimal-cons n in
    ap (int 10) e
    ∙ int-IsDigits d ds (subst IsDigits e (decimal-IsDigits n))
    ∙ ap (λ v. some (pos v)) (ap (value 0) (sym e) ∙ value-decimal n)

abbrev pub port_line : ℕ → Bytes
port_line n = codes "MONITOR_PORT=" ++ decimal n

port_line-IsLine : (n : ℕ) → IsLine (port_line n)
port_line-IsLine n =
    All-append (λ c. (c ≢ 10) × (c ≢ 13)) (codes "MONITOR_PORT=") (decimal n) (grind arith)
      (All-map (λ c. is_digit c ≡ true) (λ c. (c ≢ 10) × (c ≢ 13)) (λ c hc. ground arith)
        (decimal n) (decimal-IsDigits n))

lookup-port_line :
    (cfg : Cfginc) (n : ℕ)
    → lookup (codes "MONITOR_PORT") (with_setting cfg (partition b'=' (port_line n)))
      ≡ some (decimal n)
lookup-port_line cfg n =
    ap some (strip-black (decimal n) (digits-black (decimal n) (decimal-IsDigits n)))

-- The server reads the port that the setup writes: the last line that sets MONITOR_PORT counts,
-- whatever the lines in front are.
pub get_config-port_line :
    (front back : List Bytes) (n : ℕ)
    → All IsLine front
    → All IsLine back
    → All IsOther back
    → 0 < n
    → get_config (some (config_text (front ++ port_line n ∷ back))) ≡ port n
unfolding get_config read_settings
get_config-port_line front back n hf hb others some_port =
    let lines = front ++ port_line n ∷ back in
    let positive : (n == 0) ≡ false = ground arith in
    let after = with_setting (read_settings [] front) (partition b'=' (port_line n)) in
    ap (λ l. port_of (lookup (codes "MONITOR_PORT") (read_settings [] l)))
      (file_lines-config_text lines
        (All-append IsLine front (port_line n ∷ back) hf (port_line-IsLine n, hb)))
    ∙ ap (λ cfg. port_of (lookup (codes "MONITOR_PORT") cfg))
        (read_settings-append [] front (port_line n ∷ back))
    ∙ ap port_of
        (lookup-read_settings after back others ∙ lookup-port_line (read_settings [] front) n)
    ∙ ap checked_port (int-decimal n)
    ∙ rw positive refl
