-- ===== src/Airline/PowerLine/Tests.antt =====
-- Two nodes on a power line.
use whitefield.Base.{ℕ, ◌≡◌, refl, none, some, [], ◌∷◌, List, codes, length, arith, if◌then◌else◌}
use whitefield.Airline.Nodeinfo.{new_nodeinfo}
use whitefield.Airline.Config.{Config}
use whitefield.Airline.Config.Lookup.{get}
use whitefield.Airline.Iface.{success, no_ack, id2addr, data_confirm}
use whitefield.Airline.PowerLine.{
  get_mac_address, get_id_from_mac_addr, plc_handle_ack, plc_handle_tx_fail,
}
use whitefield.Airline.PowerLine.Addresses.{
  is_kept, get_id_from_mac_addr-get_mac_address, plc_handle_ack-data_confirm,
}
use whitefield.Airline.PowerLine.Graph.{built, nayy50se, plc_install}
use whitefield.Airline.PowerLine.Linked.{Holds, IsConnected, plc_install-IsConnected}

get_id_from_mac_addr-get_mac_address_example :
    get_id_from_mac_addr (get_mac_address 0xff10) ≡ (if is_kept 0xff10 then 0xff10 else 0)
get_id_from_mac_addr-get_mac_address_example =
    get_id_from_mac_addr-get_mac_address 0xff10 (omega arith)

plc_handle_ack-data_confirm_example :
    (some (plc_handle_ack 3 2 (get_mac_address 7)) ≡ data_confirm 3 (id2addr 7) success 2)
    × (some (plc_handle_tx_fail 3 (get_mac_address 7)) ≡ data_confirm 3 (id2addr 7) no_ack 2)
plc_handle_ack-data_confirm_example = plc_handle_ack-data_confirm 3 7 2 (omega arith)

-- Node 0 has a link to node 1.
abbrev config : Config ℕ
config = record {
  node_array =
      record new_nodeinfo { keyval = (codes "plc_link", codes "1,NAYY50SE") ∷ [] }
      ∷ new_nodeinfo
      ∷ [];
  num_of_nodes = 2;
  keyval = (codes "numOfNodes", codes "2") ∷ [];
}

abbrev positions : List (ℕ × ℕ × ℕ)
positions = (1, 2, 3) ∷ (4, 5, 6) ∷ []

plc_install-IsConnected_example :
    Holds (IsConnected 2) (plc_install (λ s. some (length s)) (λ place. place) positions config)
unfolding get
plc_install-IsConnected_example =
    plc_install-IsConnected (λ s. some (length s)) (λ place. place) positions config 2 refl
      (omega arith)

-- The link is in the graph that is made.
linked :
    plc_install (λ s. some (length s)) (λ place. place) positions config
    ≡ built (record {
      nodes =
          record { position = (1, 2, 3); outlet_impedance = none }
          ∷ record { position = (4, 5, 6); outlet_impedance = none }
          ∷ [];
      lines = record { cable = nayy50se; first_end = 0; second_end = 1 } ∷ [];
    })
unfolding plc_install
linked = refl
