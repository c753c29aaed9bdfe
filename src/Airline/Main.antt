-- ===== src/Airline/Main.antt =====
-- src/airline/main.cc and Manager.cc: how Airline starts and ends.
--
-- Parameters: what `socket` and `bind` answer, the files, the FORKER variable, and the simulator. The
-- forker's process and the handlers of signals are left out.
pub mod Starting
mod Tests
use whitefield.Base.{ℕ, Bool, false, Option, none, some, List, [], ◌∷◌, Bytes}
use whitefield.Base.Int.{ℤ}
use whitefield.Commline.Message.{mtype, airline, cl_mgr_id}
use whitefield.Commline.Usock.{Usock, Status, ok, failed, new_usock, cl_init, cl_cleanup}
use whitefield.Airline.Config.{Config, Outcome, success, failure, fault, out_of_fuel, new_config}
use whitefield.Airline.Config.Lines.{set_configuration_from_file}
use whitefield.Airline.Iface.Setup.{IfaceList}
use whitefield.Airline.Manager.{Airline}
use whitefield.Airline.Startup.{
  Outside, Started, running, failure, threw, endless_loop, null_call, start_network,
}

-- What the system answers. `fuel` bounds the levels of included files.
pub record System (Real : Type 0) : Type 0 where
  pub sock : ℤ
  pub bound : Bool
  pub files : Bytes → Option Bytes
  pub fuel : ℕ
  pub forker : Option Bytes
  pub outside : Outside Real

-- How `main` goes: it ends with a status and the descriptors that it has closed, the simulator runs,
-- an array is left, a null pointer is called, or it does not end.
pub data Course (Real : Type 0) : Type 0 where
  exited : ℕ → List ℤ → Course Real
  simulating : IfaceList Real → Airline Real → Course Real
  array_fault : Course Real
  null_pointer_call : Course Real
  endless : Course Real

abbrev pub new_airline : {Real : Type 0} → Config Real → Airline Real
new_airline c = record {
  config = c;
  is_inited = false;
  tv = 0;
  ctx = record { devices = []; requests = [] };
  positions = [];
}

module _ {Real : Type 0} where
  -- `sig_handler` as `main` calls it.
  abbrev pub sig_handler : ℕ → Usock → Course Real
  sig_handler signum u = exited signum (cl_cleanup u).0

  -- What `startManager` returns is ignored, and 0 is what `main` ends with.
  abbrev pub manager : Usock → Started Real → Course Real
  manager u (running g a) = simulating g a
  manager u Started.failure = sig_handler 0 u
  manager u threw = sig_handler 0 u
  manager u null_call = null_pointer_call
  manager u endless_loop = endless

  abbrev pub exec_forker : System Real → Usock → Config Real → Option Bytes → Course Real
  exec_forker sys u c none = sig_handler 1 u
  exec_forker sys u c (some cmdname) = manager u (start_network sys.outside (new_airline c))

  abbrev pub with_config : System Real → Usock → Outcome Real → Course Real
  with_config sys u (success c) = exec_forker sys u c sys.forker
  with_config sys u (Outcome.failure c) = sig_handler 1 u
  with_config sys u fault = array_fault
  with_config sys u out_of_fuel = endless

  abbrev pub with_commline : System Real → Bytes → Usock × Status → Course Real
  with_commline sys fname (u, ok) =
      with_config sys u
        (set_configuration_from_file sys.outside.world.stod sys.files sys.fuel fname new_config)
  with_commline sys fname (u, failed) = sig_handler 1 u

  unfoldable pub main : System Real → List Bytes → Course Real
  unfolding cl_init cl_cleanup set_configuration_from_file start_network mtype
  main sys (name ∷ fname ∷ rest) =
      with_commline sys fname (cl_init (mtype airline cl_mgr_id) sys.sock sys.bound new_usock)
  main sys _ = exited 0 []
