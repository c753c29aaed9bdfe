-- ===== src/Airline/Startup/Tests.antt =====
-- A small network at its start.
use whitefield.Base.{ℕ, ◌≡◌, refl, some, none, [], ◌∷◌, codes}
use whitefield.Base.Int.{pos}
use whitefield.Airline.Nodeinfo.{new_nodeinfo}
use whitefield.Airline.Config.{Config}
use whitefield.Airline.Config.Lookup.{get, get_or, cfg_int}
use whitefield.Airline.Propagation.{get_loss_model}
use whitefield.Airline.Iface.Lrwpan.{IfaceCtx, done}
use whitefield.Airline.Iface.Setup.{lrwpan_setup, installed}
use whitefield.Airline.Manager.Small.{world}
use whitefield.Airline.Startup.Radio.{lrwpan_setup-unknown}

-- Node 0 listens to everything, and node 1 has a place and a power of its own.
abbrev config : Config ℕ
config = record {
  node_array =
      record new_nodeinfo { promis_mode = 1 }
      ∷ record new_nodeinfo {
        position = some (7, 8, 9);
        keyval = (codes "txPower", codes "20") ∷ [];
      }
      ∷ [];
  num_of_nodes = 2;
  keyval =
      (codes "topologyType", codes "grid")
      ∷ (codes "gridWidth", codes "1")
      ∷ (codes "fieldX", codes "5")
      ∷ (codes "fieldY", codes "5")
      ∷ [];
}

abbrev no_such_model : Config ℕ
no_such_model = record config { keyval = (codes "lossModel", codes "Fris") ∷ config.keyval }

abbrev two_nodes : IfaceCtx ℕ
two_nodes = record { devices = none ∷ none ∷ []; requests = [] }

lrwpan_setup-unknown_example :
    lrwpan_setup world.stod no_such_model two_nodes ≡ (installed (pos 0xface) two_nodes, done)
unfolding get get_or cfg_int get_loss_model
lrwpan_setup-unknown_example =
    lrwpan_setup-unknown world.stod no_such_model two_nodes (pos 0xface) (pos 1) refl refl (λ e. cc)
      refl
