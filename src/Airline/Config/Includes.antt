-- ===== src/Airline/Config/Includes.antt =====
-- src/airline/Config.cc: whole configuration files and the files that they include.
use whitefield.Base.{ℕ, zero, suc, Option, none, some, Bytes}
use whitefield.Airline.Config.{Config, Outcome, failure, split}
use whitefield.Airline.Config.Safety.{IsWellFormed, Sound}
use whitefield.Airline.Config.Lines.{read_lines, set_configuration_from_file}
use whitefield.Airline.Config.Starts.{TextIsSafe}
use whitefield.Airline.Config.Files.{read_lines-Sound}

-- Every line of a file, and of every file that it includes as deep as the fuel goes, starts no
-- range below 0; `OnFuel` is asked of a file that is reached without fuel.
abbrev pub FileIsSafe : (OnFault OnFuel : Type 0) → (Bytes → Option Bytes) → ℕ → Bytes → Type 0
FileIsSafe OnFault OnFuel files zero fname = OnFuel
FileIsSafe OnFault OnFuel files (suc fuel) fname =
    TextIsSafe OnFault (λ inner. FileIsSafe OnFault OnFuel files fuel inner) (files fname)

module _ (OnFault OnFuel : Type 0) {Real : Type 0} (stod : Bytes → Option Real)
    (files : Bytes → Option Bytes) where
  text-Sound :
      (Inner : Bytes → Type 0) (include : Bytes → Config Real → Outcome Real)
      (inner : (f : Bytes) (c : Config Real)
        → IsWellFormed c
        → Inner f
        → Sound OnFault OnFuel (include f c))
      (text : Option Bytes) (c : Config Real)
      → IsWellFormed c
      → TextIsSafe OnFault Inner text
      → Sound OnFault OnFuel
          (elim text [ none ↦ failure c | some t ↦ read_lines stod include (split t 10) c ])
  text-Sound Inner include inner none c wf safe = wf
  text-Sound Inner include inner (some t) c wf safe =
      read_lines-Sound OnFault OnFuel Inner stod include inner (split t 10) c wf safe

  pub file-Sound :
      (fuel : ℕ) (fname : Bytes) (c : Config Real)
      → IsWellFormed c
      → FileIsSafe OnFault OnFuel files fuel fname
      → Sound OnFault OnFuel (set_configuration_from_file stod files fuel fname c)
  unfolding set_configuration_from_file
  file-Sound zero fname c wf safe = safe
  file-Sound (suc fuel) fname c wf safe =
      text-Sound (λ inner. FileIsSafe OnFault OnFuel files fuel inner)
        (λ inner c'. set_configuration_from_file stod files fuel inner c')
        (λ inner c' wf' safe'. file-Sound fuel inner c' wf' safe') (files fname) c wf safe
