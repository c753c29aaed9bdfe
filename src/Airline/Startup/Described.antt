-- ===== src/Airline/Startup/Described.antt =====
-- src/airline/NS3/AirlineManager.cc and LrwpanIface.cc: what a configuration says of the positions and of
-- the devices of the nodes, apart from the code that sets them.
use whitefield.Base.{
  ℕ, ◌%◌, ◌/◌, ◌^◌, ◌<◌, ◌≡◌, ◌⊎◌, refl, sym, ap, ◌∙◌, Bool, true, false, not, inl, inr, Bool-cases,
  Option, none, some, [], ◌∷◌, ◌++◌, Bytes, codes, take, ◌==◌, if◌then◌else◌, arith,
}
use whitefield.Base.Int.{ℤ}
use whitefield.Base.Text.{stoi}
use whitefield.Airline.Nodeinfo.{Nodeinfo, getkv}
use whitefield.Airline.Config.{Config}
use whitefield.Airline.Config.Lookup.{get}
use whitefield.Airline.Iface.{id2addr}
use whitefield.Airline.Iface.Lrwpan.{Channel, Device}
use whitefield.Airline.Iface.Setup.{with_param, new_device}
use whitefield.Airline.Startup.{
  Allocator, grid, random_rectangle, allocator, set_position_allocator, or_else,
}
use whitefield.Airline.Startup.Devices.{promoted, powered, power_text}

-- A coordinate between 0 and a limit, in the words of the simulator.
abbrev within : Bytes → Bytes
within max = take 127 (codes "ns3::UniformRandomVariable[Min=0.0|Max=" ++ (max ++ codes "]"))

-- A node's own text, or that of all nodes.
abbrev pub own_or : Bytes → Bytes → Bytes
own_or [] general = general
own_or (c ∷ own) general = c ∷ own

-- The power that a text asks for.
abbrev pub power : {Real : Type 0} → (Bytes → Option Real) → Bytes → Option Real
power stod [] = none
power stod (c ∷ s) = stod (c ∷ s)

module _ {Real : Type 0} where
  -- The nodes stand in a grid as wide as `gridWidth`, whose steps are `fieldX` and `fieldY` divided by
  -- it, or at random in the rectangle of `fieldX` and `fieldY`.
  abbrev pub IsPlaced :
      (Bytes → Option Real) → (Real → ℤ → Real) → Config Real → Allocator Real → Type 0
  IsPlaced stod divide c alloc =
      ((get (codes "topologyType") c ≡ codes "grid")
        × (width : ℤ) × (x : Real) × (y : Real) × (stoi (get (codes "gridWidth") c) ≡ some width)
        × (stod (get (codes "fieldX") c) ≡ some x)
        × (stod (get (codes "fieldY") c) ≡ some y)
        × (alloc ≡ grid (divide x width) (divide y width) width))
      ⊎ ((get (codes "topologyType") c ≡ codes "randrect")
          × (alloc
              ≡ random_rectangle (within (get (codes "fieldX") c))
                  (within (get (codes "fieldY") c))))

  pub set_position_allocator-IsPlaced :
      (stod : Bytes → Option Real) (divide : Real → ℤ → Real) (c : Config Real)
      (alloc : Allocator Real)
      → IsPlaced stod divide c alloc
      → set_position_allocator stod divide c ≡ allocator alloc
  unfolding set_position_allocator
  set_position_allocator-IsPlaced stod divide c alloc
        (inl (topology, width, x, y, has_width, has_x, has_y, e)) =
      rw (topology, has_width, has_x, has_y) (ap allocator (sym e))
  set_position_allocator-IsPlaced stod divide c alloc (inr (topology, e)) =
      rw topology (ap allocator (sym e))

  module _ (stod : Bytes → Option Real) (pan_id retries : ℤ) (header_add : Bool)
      (channel : Option (Channel Real)) where
    -- The device of node `id`, with its mode and the text of its power.
    abbrev pub described : ℕ → ℕ → Bytes → Device Real
    described id promis_mode text = record {
      ext_addr = none;
      promiscuous = not (promis_mode == 0);
      tx_power = power stod text;
      pan_id = some pan_id;
      short_addr = some (id / 2 ^ 8, id % 2 ^ 8);
      max_frame_retries = some retries;
      callbacks = some id;
      mac_header_add = if header_add then none else some false;
      channel = channel;
    }

    with_param-described :
        (id : ℕ)
        → id < 2 ^ 16
        → with_param retries header_add channel id (new_device pan_id) ≡ described id 0 []
    unfolding id2addr
    with_param-described id small =
        let fits : id % 2 ^ 16 ≡ id = omega arith in set_with header_add channel fits
      where
        set_with :
            (b : Bool) (ch : Option (Channel Real))
            → id % 2 ^ 16 ≡ id
            → with_param retries b ch id (new_device pan_id) ≡ record (described id 0 []) {
              mac_header_add = if b then none else some false;
              channel = ch;
            }
        set_with true none fits = rw fits refl
        set_with true (some ch) fits = rw fits refl
        set_with false none fits = rw fits refl
        set_with false (some ch) fits = rw fits refl

    promoted-described :
        (id promis_mode : ℕ)
        → promoted promis_mode (described id 0 []) ≡ described id promis_mode []
    promoted-described id promis_mode = elim (Bool-cases (promis_mode == 0)) [
      | inl off ↦ rw off refl
      | inr on ↦ rw on refl
    ]

    powered-described :
        (id promis_mode : ℕ) (text : Bytes)
        → powered stod text (described id promis_mode []) ≡ described id promis_mode text
    powered-described id promis_mode [] = refl
    powered-described id promis_mode (c ∷ s) = set_to (stod (c ∷ s))
      where
        set_to :
            (o : Option Real)
            → (elim o [
              | none ↦ described id promis_mode []
              | some x ↦ record (described id promis_mode []) { tx_power = some x }
            ])
              ≡ record (described id promis_mode []) { tx_power = o }
        set_to none = refl
        set_to (some x) = refl

    own_or-or_else : (own general : Bytes) → or_else own general ≡ own_or own general
    own_or-or_else [] general = refl
    own_or-or_else (c ∷ own) general = refl

    -- A device that is set up and then adjusted is as described.
    pub adjusted-described :
        (id : ℕ) (ni : Nodeinfo Real) (general : Bytes)
        → id < 2 ^ 16
        → powered stod
            (power_text general ni)
            (promoted ni.promis_mode (with_param retries header_add channel id (new_device pan_id)))
          ≡ described id ni.promis_mode (own_or (getkv (codes "txPower") [] ni) general)
    adjusted-described id ni general small =
        ap (λ d. powered stod (power_text general ni) (promoted ni.promis_mode d))
          (with_param-described id small)
        ∙ ap (powered stod (power_text general ni)) (promoted-described id ni.promis_mode)
        ∙ powered-described id ni.promis_mode (power_text general ni)
        ∙ ap (described id ni.promis_mode) (own_or-or_else (getkv (codes "txPower") [] ni) general)
