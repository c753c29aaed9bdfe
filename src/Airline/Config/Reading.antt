-- ===== src/Airline/Config/Reading.antt =====
-- src/airline/Config.cc: what reading a configuration file guarantees.
use whitefield.Base.{
  ℕ, zero, suc, ◌+◌, ◌-◌, ◌^◌, ◌≤◌, ◌<◌, ◌≡◌, refl, inl, inr, true, false, Option, none, some, List,
  [], ◌∷◌, ◌++◌, Bytes, All, All-map, All-intro, codes, arith, ltb, leb, ◌==◌,
}
use whitefield.Base.Int.{pos, negsuc}
use whitefield.Base.Text
use whitefield.Base.Text.{IsDigits, Lacks}
use whitefield.Airline.Config.Keys.{get_key_range_invalid}
use whitefield.Airline.Nodeinfo.{Nodeinfo, set_node_executable, setkv}
use whitefield.Airline.Config.{Config, Outcome, success, fault, split, get_key_range}
use whitefield.Airline.Config.Range.{Wrote, write_range_total, write_range_fault, write_range_empty}
use whitefield.Airline.Config.Safety.{IsWellFormed, Sound, FromZero}
use whitefield.Airline.Config.Starts.{line_start, included, Allowed, LineIsSafe, TextIsSafe}
use whitefield.Airline.Config.Includes.{FileIsSafe, file-Sound}
use whitefield.Airline.Config.Lines.{
  set_node_set_exec, set_node_kv, set_line, set_configuration_from_file,
}

Allowed-intro :
    (Inner : Bytes → Type 0) (f : (v : Bytes) → Inner v) (o : Option Bytes) → Allowed Inner o
Allowed-intro Inner f none = tt
Allowed-intro Inner f (some v) = f v

-- Where a fault is allowed and the fuel may run out, every text will do.
any-TextIsSafe :
    (Inner : Bytes → Type 0) (f : (v : Bytes) → Inner v) (t : Option Bytes)
    → TextIsSafe Unit Inner t
any-TextIsSafe Inner f none = tt
any-TextIsSafe Inner f (some t) =
    All-intro (LineIsSafe Unit Inner) (λ l. (inr tt, Allowed-intro Inner f (included l)))
      (split t 10)

any-FileIsSafe :
    (files : Bytes → Option Bytes) (fuel : ℕ) (fname : Bytes)
    → FileIsSafe Unit Unit files fuel fname
any-FileIsSafe files zero fname = tt
any-FileIsSafe files (suc fuel) fname =
    any-TextIsSafe (λ v. FileIsSafe Unit Unit files fuel v) (λ v. any-FileIsSafe files fuel v)
      (files fname)

-- Whatever the files hold, reading a configuration keeps `numOfNodes` the size of `nodeArray`, when
-- it succeeds and when it fails.
pub read-IsWellFormed :
    {Real : Type 0} (stod : Bytes → Option Real) (files : Bytes → Option Bytes) (fuel : ℕ)
    (fname : Bytes) (c : Config Real)
    → IsWellFormed c
    → Sound Unit Unit (set_configuration_from_file stod files fuel fname c)
read-IsWellFormed stod files fuel fname c wf =
    file-Sound Unit Unit stod files fuel fname c wf (any-FileIsSafe files fuel fname)

-- Every line of every file starts its range at an index that is not negative, and includes files
-- of a smaller rank only: then includes do not go round in a circle.
abbrev pub LineIsRanked : (Bytes → ℕ) → ℕ → Bytes → Type 0
LineIsRanked rank bound line =
    FromZero (line_start line) × Allowed (λ v. rank v < bound) (included line)

abbrev pub IsRanked : (Bytes → Option Bytes) → (Bytes → ℕ) → Type 0
IsRanked files rank =
    (fname : Bytes) (text : Bytes)
    → files fname ≡ some text
    → All (LineIsRanked rank (rank fname)) (split text 10)

module _ (files : Bytes → Option Bytes) (rank : Bytes → ℕ) (ranked : IsRanked files rank) where
  Allowed-map :
      (P Q : Bytes → Type 0) (f : (v : Bytes) → P v → Q v) (o : Option Bytes)
      → Allowed P o
      → Allowed Q o
  Allowed-map P Q f none h = tt
  Allowed-map P Q f (some v) h = f v h

  ranked-TextIsSafe :
      (Inner : Bytes → Type 0) (fname : Bytes)
      → ((v : Bytes) → rank v < rank fname → Inner v)
      → (t : Option Bytes) → files fname ≡ t
      → TextIsSafe ⊥ Inner t
  ranked-TextIsSafe Inner fname f none e = tt
  ranked-TextIsSafe Inner fname f (some t) e =
      All-map (LineIsRanked rank (rank fname)) (LineIsSafe ⊥ Inner)
        (λ l h. (inl h.0, Allowed-map (λ v. rank v < rank fname) Inner f (included l) h.1))
        (split t 10) (ranked fname t e)

  ranked-FileIsSafe :
      (fuel : ℕ) (fname : Bytes) → rank fname < fuel → FileIsSafe ⊥ ⊥ files fuel fname
  ranked-FileIsSafe zero fname h = elim h [ ]
  ranked-FileIsSafe (suc fuel) fname h =
      ranked-TextIsSafe (λ v. FileIsSafe ⊥ ⊥ files fuel v) fname
        (λ v lt. ranked-FileIsSafe fuel v (omega arith)) (files fname) refl

  -- Where no range starts below 0, when its number is read as an int, and includes do not go round in a circle, the reading ends, by
  -- success or by failure and in a well-formed state, and never leaves the array of nodes.
  pub read_total :
      {Real : Type 0} (stod : Bytes → Option Real) (fuel : ℕ) (fname : Bytes) (c : Config Real)
      → IsWellFormed c
      → rank fname < fuel
      → Sound ⊥ ⊥ (set_configuration_from_file stod files fuel fname c)
  read_total stod fuel fname c wf h =
      file-Sound ⊥ ⊥ stod files fuel fname c wf (ranked-FileIsSafe fuel fname h)

module _ {Real : Type 0} (stod : Bytes → Option Real)
    (include : Bytes → Config Real → Outcome Real) where
  -- `nodeExec` for a range inside the array sets the executable of the nodes of the range, and of
  -- no other, and changes nothing else.
  pub set_line_exec :
      (value : Bytes) (beg end : ℕ) (c : Config Real)
      → IsWellFormed c
      → beg ≤ end
      → end < c.num_of_nodes
      → (nodes : List (Nodeinfo Real)) × (set_line stod include
            (record {
              key = codes "nodeExec";
              beg_range = pos beg;
              end_range = pos end;
              explicit_range = true;
            })
            value
            c
          ≡ success (record c { node_array = nodes }))
        × Wrote (set_node_executable value) beg (end + 1 - beg) c.node_array nodes
  unfolding set_line set_node_set_exec
  set_line_exec value beg end c wf p q =
      let (nodes, e, w) =
        write_range_total (set_node_executable value) beg end c.node_array p (omega arith) in
      let some_nodes : (c.num_of_nodes == 0) ≡ false = ground arith in
      let inside : leb c.num_of_nodes end ≡ false = ground arith in
      (nodes, rw (some_nodes, inside, e) refl, w)

  -- A range that starts below 0 passes the checks and writes in front of the array.
  pub negative_start-fault :
      (value : Bytes) (b end : ℕ) (c : Config Real)
      → end < c.num_of_nodes
      → set_line stod include
          (record {
            key = codes "nodeExec";
            beg_range = negsuc b;
            end_range = pos end;
            explicit_range = true;
          })
          value
          c
        ≡ fault
  unfolding set_line set_node_set_exec
  negative_start-fault value b end c q =
      let some_nodes : (c.num_of_nodes == 0) ≡ false = ground arith in
      let inside : leb c.num_of_nodes end ≡ false = ground arith in
      rw
        (
          some_nodes,
          inside,
          write_range_fault (set_node_executable value) b (pos end) c.node_array refl,
        )
        refl

  -- A line whose key is a range `name[a-b]` with b < a is reported as invalid, and the reading goes
  -- on as if the line were not there.
  pub invalid_range_ignored :
      (name value : Bytes) (d e : ℕ) (ds es : Bytes) (c : Config Real)
      → Lacks b'[' name
      → IsDigits (d ∷ ds)
      → IsDigits (e ∷ es)
      → Text.value 0 (e ∷ es) < Text.value 0 (d ∷ ds)
      → Text.value 0 (e ∷ es) < c.num_of_nodes
      → Text.value 0 (d ∷ ds) < 2 ^ 31
      → set_line stod include
          (get_key_range
            (name ++ b'[' ∷ ((d ∷ ds) ++ b'-' ∷ ((e ∷ es) ++ b']' ∷ [])))
            c.num_of_nodes)
          value
          c
        ≡ success c
  unfolding set_line set_node_kv
  invalid_range_ignored name value d e ds es c hn hd he lt inside small =
      let a : ℕ = Text.value 0 (d ∷ ds) in
      let b : ℕ = Text.value 0 (e ∷ es) in
      let some_nodes : (c.num_of_nodes == 0) ≡ false = ground arith in
      let end_inside : leb c.num_of_nodes b ≡ false = ground arith in
      let backwards : ltb b a ≡ true = ground arith in
      rw
        (
          get_key_range_invalid name d e ds es c.num_of_nodes hn hd he (omega arith) small,
          some_nodes,
          end_inside,
          write_range_empty (setkv [] value) (pos a) (pos b) c.node_array backwards,
        )
        refl
