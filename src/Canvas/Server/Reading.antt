-- ===== src/Canvas/Server/Reading.antt =====
-- canvas/canvas.py: `query_nodes` on the file that Airline writes.
use whitefield.Base.{
  ℕ, ◌+◌, ◌<◌, ◌≡◌, ◌≢◌, refl, sym, ap, subst, ◌∙◌, some, List, [], ◌∷◌, ◌++◌, Bytes, codes, length,
  All, All-append, All-map, append_assoc, arith,
}
use whitefield.Base.Text.{decimal, Lacks}
use whitefield.Base.Decimal.{decimal-IsDigits, decimal-cons}
use whitefield.Airline.Manager.Positions.{file_line, file_positions}
use whitefield.Canvas.Server.Strings.{split_words, lines_behind, file_lines}
use whitefield.Canvas.Server.Words.{
  IsShown, digits-AreShown, newlines-Lacks, lines_behind-line, split_words-first, split_words-only,
}
use whitefield.Canvas.Server.{Node, Python, node_of, with_node, read_nodes}

pub decimal-IsWord : (n : ℕ) → All IsShown (decimal n) × (0 < length (decimal n))
decimal-IsWord n =
    let (d, ds, e) = decimal-cons n in
    (
      digits-AreShown (decimal n) (decimal-IsDigits n),
      subst (λ s. 0 < length s) (sym e) (omega arith),
    )

-- What `<<` and `float` do with a double: its text is a word, which is read as a number near it.
pub record Printing {Real : Type 0} (py : Python Real) (show_real : Real → Bytes)
    (near : Real → Real) : Type 0 where
  pub are_shown : (r : Real) → All IsShown (show_real r)
  pub has_bytes : (r : Real) → 0 < length (show_real r)
  pub is_read : (r : Real) → py.to_float (show_real r) ≡ some (near r)

-- A byte of a line.
abbrev IsInLine : ℕ → Type 0
IsInLine c = (31 < c) × (c < 127)

shown-AreInLine : (s : Bytes) → All IsShown s → All IsInLine s
shown-AreInLine s h = All-map IsShown IsInLine (λ c hc. omega arith) s h

in_line-Lacks : (b : ℕ) (s : Bytes) → b < 32 → All IsInLine s → Lacks b s
in_line-Lacks b s low h = All-map IsInLine (λ c. c ≢ b) (λ c hc e. absurd (omega arith)) s h

-- A byte of a file.
abbrev pub IsInFile : ℕ → Type 0
IsInFile c = (c < 127) × (c ≢ 13)

in_line-AreInFile : (s : Bytes) → All IsInLine s → All IsInFile s
in_line-AreInFile s h = All-map IsInLine IsInFile (λ c hc. (hc.1, (λ e. absurd (omega arith)))) s h

module _ {Real : Type 0} (near : Real → Real) where
  -- The node of a place, and the nodes from number `i`.
  abbrev pub node_near : ℕ → Real × Real × Real → Node Real
  node_near i (x, y, z) = record { id = decimal i; x = near x; y = near y }

  abbrev pub nodes_near : ℕ → List (Real × Real × Real) → List (Node Real)
  nodes_near i [] = []
  nodes_near i (place ∷ places) = node_near i place ∷ nodes_near (i + 1) places

module _ {Real : Type 0} (py : Python Real) (show_real : Real → Bytes) (near : Real → Real)
    (prints : Printing py show_real near) where
  -- A line without its '\n'.
  abbrev line_text : ℕ → Real × Real × Real → Bytes
  line_text i (x, y, z) =
      codes "Node "
      ++ (decimal i
          ++ (codes " Location= " ++ (show_real x ++ b' ' ∷ (show_real y ++ b' ' ∷ show_real z))))

  file_line_lem :
      (i : ℕ) (place : Real × Real × Real)
      → file_line show_real i place ≡ line_text i place ++ 10 ∷ []
  file_line_lem i (x, y, z) = simp append_assoc

  line_text-AreInLine : (i : ℕ) (place : Real × Real × Real) → All IsInLine (line_text i place)
  line_text-AreInLine i (x, y, z) =
      let real : (r : Real) → All IsInLine (show_real r) =
        λ r. shown-AreInLine (show_real r) (prints.are_shown r) in
      All-append IsInLine (codes "Node ") _ (omega arith) (
        All-append IsInLine (decimal i) _ (shown-AreInLine (decimal i) (decimal-IsWord i).0) (
          All-append IsInLine (codes " Location= ") _ (omega arith) (
            All-append IsInLine (show_real x) _ (real x)
              (omega arith, All-append IsInLine (show_real y) _ (real y) (omega arith, real z)))))

  line_words :
      (i : ℕ) (x y z : Real)
      → split_words [] (line_text i (x, y, z))
        ≡ codes "Node"
          ∷ decimal i
          ∷ codes "Location="
          ∷ show_real x
          ∷ show_real y
          ∷ show_real z
          ∷ []
  unfolding split_words
  line_words i x y z =
      let (digits, some_digits) = decimal-IsWord i in
      ap (λ w. codes "Node" ∷ w)
        (split_words-first (decimal i) _ 32 digits some_digits refl
          ∙ ap (λ w. decimal i ∷ codes "Location=" ∷ w)
              (split_words-first (show_real x) _ 32 (prints.are_shown x) (prints.has_bytes x) refl
                ∙ ap (λ w. show_real x ∷ w)
                    (split_words-first (show_real y) _ 32 (prints.are_shown y) (prints.has_bytes y)
                        refl
                      ∙ ap (λ w. show_real y ∷ w)
                          (split_words-only (show_real z) (prints.are_shown z)
                            (prints.has_bytes z)))))

  abbrev texts : ℕ → List (Real × Real × Real) → List Bytes
  texts i [] = []
  texts i (place ∷ places) = line_text i place ∷ texts (i + 1) places

  pub file_positions-AreInFile :
      (i : ℕ) (places : List (Real × Real × Real))
      → All IsInFile (file_positions show_real 0xffff i places)
  unfolding file_positions
  file_positions-AreInFile i [] = tt
  file_positions-AreInFile i (place ∷ places) =
      subst (λ s. All IsInFile (s ++ file_positions show_real 0xffff (i + 1) places))
        (sym (file_line_lem i place))
        (All-append IsInFile (line_text i place ++ 10 ∷ []) _
          (All-append IsInFile (line_text i place) (10 ∷ [])
            (in_line-AreInFile (line_text i place) (line_text-AreInLine i place))
            ((omega arith, (λ e. absurd (omega arith))), tt))
          (file_positions-AreInFile (i + 1) places))

  lines_behind-file :
      (i : ℕ) (places : List (Real × Real × Real))
      → lines_behind [] (file_positions show_real 0xffff i places) ≡ texts i places
  unfolding file_positions lines_behind
  lines_behind-file i [] = refl
  lines_behind-file i (place ∷ places) =
      ap (λ s. lines_behind [] (s ++ file_positions show_real 0xffff (i + 1) places))
        (file_line_lem i place)
      ∙ ap (lines_behind []) (append_assoc (line_text i place) (10 ∷ []) _)
      ∙ lines_behind-line [] (line_text i place) _
          (in_line-Lacks 10 (line_text i place) (omega arith) (line_text-AreInLine i place))
      ∙ ap (λ r. line_text i place ∷ r) (lines_behind-file (i + 1) places)

  file_lines-file :
      (places : List (Real × Real × Real))
      → file_lines (file_positions show_real 0xffff 0 places) ≡ texts 0 places
  unfolding file_lines
  file_lines-file places =
      ap (lines_behind []) (
        newlines-Lacks (file_positions show_real 0xffff 0 places) (
          All-map IsInFile (λ c. c ≢ 13) (λ c hc. hc.1) (file_positions show_real 0xffff 0 places)
            (file_positions-AreInFile 0 places)))
      ∙ lines_behind-file 0 places

  read_nodes-texts :
      (i : ℕ) (places : List (Real × Real × Real))
      → read_nodes py (texts i places) ≡ some (nodes_near near i places)
  unfolding read_nodes
  read_nodes-texts i [] = refl
  read_nodes-texts i ((x, y, z) ∷ places) =
      ap (λ w. with_node py (node_of py w) (read_nodes py (texts (i + 1) places)))
        (line_words i x y z)
      ∙ rw (prints.is_read x, prints.is_read y, read_nodes-texts (i + 1) places) refl

  -- The server reads back the nodes that Airline writes: of each node its number in decimal digits
  -- and the numbers next to its first two coordinates, in order.
  pub read_nodes-file_positions :
      (places : List (Real × Real × Real))
      → read_nodes py (file_lines (file_positions show_real 0xffff 0 places))
        ≡ some (nodes_near near 0 places)
  read_nodes-file_positions places =
      ap (read_nodes py) (file_lines-file places) ∙ read_nodes-texts 0 places
