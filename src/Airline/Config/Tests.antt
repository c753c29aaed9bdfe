-- ===== src/Airline/Config/Tests.antt =====
-- Small configuration files, and the theorems about configurations at concrete lines and files.
use whitefield.Base.{
  ℕ, ◌≡◌, refl, true, Option, none, some, List, [], ◌∷◌, Bytes, All, inl, inr, Bool-cases, codes,
  arith, if◌then◌else◌, ◌+◌, ◌-◌,
}
use whitefield.Airline.Dictionary.{put}
use whitefield.Base.Int.{pos, negsuc, to_int}
use whitefield.Base.Text.{stoi, text_eq}
use whitefield.Airline.Nodeinfo.{Nodeinfo, new_nodeinfo, set_node_executable}
use whitefield.Airline.Config.{
  Config, Outcome, success, failure, fault, new_config, get_key_range, write_range,
  set_number_of_nodes, trim, split, set,
}
use whitefield.Airline.Config.Keys.{get_key_range_interval}
use whitefield.Airline.Config.Range.{Wrote}
use whitefield.Airline.Config.Safety.{Sound}
use whitefield.Airline.Config.Lines.{
  set_node_set_exec, set_line, read_line, read_lines, set_configuration_from_file,
}
use whitefield.Airline.Config.Reading.{
  IsRanked, LineIsRanked, read-IsWellFormed, read_total, set_line_exec, negative_start-fault,
}

-- Coordinates that are whole numbers.
abbrev stod : Bytes → Option ℕ
stod s = elim (stoi s) [ none ↦ none | some (pos n) ↦ some n | some (negsuc n) ↦ none ]

abbrev main_cfg : Bytes
main_cfg = codes "#nodes\nnumOfNodes=3\nnodeExec[1-9]=/bin/b #x\ninclude=extra\n"

abbrev extra_cfg : Bytes
extra_cfg = codes "panID = 0xface\n"

abbrev files : Bytes → Option Bytes
files fname =
    if text_eq fname (codes "main")
    then some main_cfg
    else if text_eq fname (codes "extra")
    then some extra_cfg
    else none

abbrev node_b : Nodeinfo ℕ
node_b = record new_nodeinfo { node_exec = codes "/bin/b" }

main_is_read :
    set_configuration_from_file stod files 2 (codes "main") new_config
    ≡ success (record {
      node_array = new_nodeinfo ∷ node_b ∷ node_b ∷ [];
      num_of_nodes = 3;
      keyval = (codes "numOfNodes", codes "3") ∷ (codes "panID", codes "0xface") ∷ [];
    })
unfolding set_configuration_from_file read_lines read_line set_line set_node_set_exec get_key_range
    write_range set_number_of_nodes trim split set set_node_executable put to_int
main_is_read = refl

-- How deep the includes of the two files go.
abbrev rank : Bytes → ℕ
rank fname = if text_eq fname (codes "main") then 1 else 0

main_cfg-LineIsRanked : All (LineIsRanked rank 1) (split main_cfg 10)
unfolding split trim get_key_range to_int
main_cfg-LineIsRanked = ((tt, tt), ((tt, tt), ((tt, tt), ((tt, omega arith), tt))))

extra_cfg-LineIsRanked : (n : ℕ) → All (LineIsRanked rank n) (split extra_cfg 10)
unfolding split trim get_key_range
extra_cfg-LineIsRanked n = ((tt, tt), tt)

files-IsRanked : IsRanked files rank
files-IsRanked fname text e = elim (Bool-cases (text_eq fname (codes "main"))) [
  | inl main ↦
      let same : main_cfg ≡ text = let found : some main_cfg ≡ some text = rw main at e in cc in
      rw (main, ← same) main_cfg-LineIsRanked
  | inr other ↦ elim (Bool-cases (text_eq fname (codes "extra"))) [
    | inl extra ↦
        let same : extra_cfg ≡ text =
          let found : some extra_cfg ≡ some text = rw (other, extra) at e in cc in
        rw (← same) (extra_cfg-LineIsRanked (rank fname))
    | inr unknown ↦ let absent : none ≡ some text = rw (other, unknown) at e in cc
  ]
]

read-IsWellFormed_example :
    Sound Unit Unit (set_configuration_from_file stod files 2 (codes "main") new_config)
read-IsWellFormed_example = read-IsWellFormed stod files 2 (codes "main") new_config refl

read_total_example : Sound ⊥ ⊥ (set_configuration_from_file stod files 2 (codes "main") new_config)
read_total_example =
    read_total files rank files-IsRanked stod 2 (codes "main") new_config refl (omega arith)

get_key_range_interval_example :
    get_key_range (codes "nodeExec[1-9]") 3
    ≡ record { key = codes "nodeExec"; beg_range = pos 1; end_range = pos 2; explicit_range = true }
get_key_range_interval_example =
    get_key_range_interval (codes "nodeExec") b'1' b'9' [] [] 3 (omega arith) (refl, tt) (refl, tt)
      (omega arith) (omega arith)

abbrev no_include : Bytes → Config ℕ → Outcome ℕ
no_include fname c = failure c

abbrev three_nodes : Config ℕ
three_nodes = record {
  node_array = new_nodeinfo ∷ new_nodeinfo ∷ new_nodeinfo ∷ [];
  num_of_nodes = 3;
  keyval = [];
}

set_line_exec_example :
    (nodes : List (Nodeinfo ℕ)) × (set_line stod no_include
        (record {
          key = codes "nodeExec";
          beg_range = pos 1;
          end_range = pos 2;
          explicit_range = true;
        })
        (codes "/bin/b")
        three_nodes
      ≡ success (record three_nodes { node_array = nodes }))
    × Wrote (set_node_executable (codes "/bin/b")) 1 (2 + 1 - 1) three_nodes.node_array nodes
set_line_exec_example =
    set_line_exec stod no_include (codes "/bin/b") 1 2 three_nodes refl (omega arith) (omega arith)

negative_start-fault_example :
    set_line stod no_include
      (record {
        key = codes "nodeExec";
        beg_range = negsuc 1;
        end_range = pos 2;
        explicit_range = true;
      })
      (codes "/bin/b")
      three_nodes
    ≡ fault
negative_start-fault_example =
    negative_start-fault stod no_include (codes "/bin/b") 1 2 three_nodes (omega arith)

-- The text of such a line.
negative_start_is_read :
    read_line stod no_include (codes "nodeExec[-2-2]=/bin/b") three_nodes ≡ fault
unfolding read_line set_line set_node_set_exec get_key_range write_range trim to_int
negative_start_is_read = refl

-- A start that does not fit an int is read as the int with its last 32 bits.
large_start_is_read :
    read_line stod no_include (codes "nodeExec[4294967294]=/bin/b") three_nodes ≡ fault
unfolding read_line set_line set_node_set_exec get_key_range write_range trim to_int
large_start_is_read = refl

-- A number of nodes that does not fit an int ends the reading by an exception.
large_count_is_read :
    read_line stod no_include (codes "numOfNodes=4294967297") three_nodes ≡ failure three_nodes
unfolding read_line set_line get_key_range trim
large_count_is_read = refl
