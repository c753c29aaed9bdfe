-- ===== src/Airline/Startup/Radio.antt =====
-- What setting up the radio interface makes of the simulator's devices, with a valid configuration.
use whitefield.Base.{
  ℕ, zero, suc, ◌+◌, ◌≡◌, ◌≢◌, refl, ap, ◌∙◌, Bool, false, true, Option, none, some, List, [], ◌∷◌,
  map, Bytes, codes, get_elem?, if◌then◌else◌, arith,
}
use mathlib.Core.Option
use whitefield.Base.Int.{ℤ}
use whitefield.Airline.Config.{Config}
use whitefield.Airline.Config.Lookup.{get, get_or, cfg_int}
use whitefield.Airline.Stats.{reset}
use whitefield.Airline.Iface.Lrwpan.{Channel, Device, IfaceCtx, done, uncaught}
use whitefield.Airline.Iface.Handler.{is_plc}
use whitefield.Airline.Propagation.{unknown, get_loss_model}
use whitefield.Airline.Iface.Setup.{
  null_model, optional, Built, built, with_param, set_nodes, set_all_nodes_param, new_device,
  installed, lrwpan_setup, radio_channel, is_set, with_channel, with_nodes, ignored, iface_install,
  IfaceList, install, finished, returned,
}
use whitefield.Airline.Startup.{Allocator, Outside, iflist}
use whitefield.Airline.Startup.Described.{IsPlaced}

named_null :
    {Real Model : Type 0} (name : Bytes)
    → name ≢ []
    → (go_on : Option Model → Built Real) → optional name unknown go_on ≡ null_model
named_null [] h go_on = absurd (h refl)
named_null (c ∷ s) h go_on = refl

module _ {Real : Type 0} where
  -- A change of each device that depends on the number of its node.
  abbrev pub numbered :
      (ℕ → Device Real → Device Real)
      → ℕ
      → List (Option (Device Real))
      → List (Option (Device Real))
  numbered f lo [] = []
  numbered f lo (dev ∷ devices) = Option.map (f lo) dev ∷ numbered f (lo + 1) devices

  pub get_elem?-numbered :
      (f : ℕ → Device Real → Device Real) (lo j : ℕ) (devices : List (Option (Device Real)))
      → get_elem? (numbered f lo devices) j
        ≡ Option.map (Option.map (f (lo + j))) (get_elem? devices j)
  get_elem?-numbered f lo j [] = refl
  get_elem?-numbered f lo zero (dev ∷ devices) =
      let start : lo ≡ lo + 0 = omega arith in ap (λ i. some (Option.map (f i) dev)) start
  get_elem?-numbered f lo (suc j) (dev ∷ devices) =
      let next : lo + 1 + j ≡ lo + suc j = omega arith in
      get_elem?-numbered f (lo + 1) j devices
      ∙ ap (λ i. Option.map (Option.map (f i)) (get_elem? devices j)) next

  set_nodes-numbered :
      (c : Config Real) (mac_add : Bool) (channel : Option (Channel Real)) (retries : ℤ)
      → cfg_int (codes "macMaxRetry") (codes "3") c ≡ some retries
      → (lo : ℕ) (devices : List (Option (Device Real)))
      → set_nodes c mac_add channel lo devices
        ≡ some (numbered (with_param retries mac_add channel) lo devices)
  unfolding set_nodes
  set_nodes-numbered c mac_add channel retries e lo [] = refl
  set_nodes-numbered c mac_add channel retries e lo (none ∷ devices) =
      rw (set_nodes-numbered c mac_add channel retries e (lo + 1) devices) refl
  set_nodes-numbered c mac_add channel retries e lo (some dev ∷ devices) =
      rw (e, set_nodes-numbered c mac_add channel retries e (lo + 1) devices) refl

  -- The settings that a start needs: numbers where the code reads numbers, a topology that it knows,
  -- with the allocator for it, models that it knows, and the radio as the interface.
  pub record Settings (o : Outside Real) (c : Config Real) : Type 0 where
    pub checksum : ℤ
    pub seed : ℤ
    pub pan_id : ℤ
    pub header_add : ℤ
    pub retries : ℤ
    pub alloc : Allocator Real
    pub channel : Option (Channel Real)
    pub has_checksum : cfg_int (codes "macChecksumEnabled") (codes "1") c ≡ some checksum
    pub has_seed : cfg_int (codes "randSeed") (codes "0xbabe") c ≡ some seed
    pub has_pan_id : cfg_int (codes "panID") (codes "0xface") c ≡ some pan_id
    pub has_header_add : cfg_int (codes "macHeaderAdd") (codes "1") c ≡ some header_add
    pub has_retries : cfg_int (codes "macMaxRetry") (codes "3") c ≡ some retries
    pub is_placed : IsPlaced o.world.stod o.divide c alloc
    pub has_channel : radio_channel o.world.stod c ≡ built channel
    pub is_radio : is_plc c ≡ false

  module _ (o : Outside Real) where
    -- The configuration with its counters cleared.
    abbrev pub cleared : Config Real → Config Real
    cleared c = record c { node_array = map reset c.node_array }

    unfoldable pub cleared_settings : (c : Config Real) → Settings o c → Settings o (cleared c)
    unfolding cfg_int get_or get radio_channel
    cleared_settings c s = record {
      checksum = s.checksum;
      seed = s.seed;
      pan_id = s.pan_id;
      header_add = s.header_add;
      retries = s.retries;
      alloc = s.alloc;
      channel = s.channel;
      has_checksum = s.has_checksum;
      has_seed = s.has_seed;
      has_pan_id = s.has_pan_id;
      has_header_add = s.has_header_add;
      has_retries = s.has_retries;
      is_placed = s.is_placed;
      has_channel = s.has_channel;
      is_radio = s.is_radio;
    }

    -- A device as `lrwpanSetup` leaves it.
    abbrev pub set_up : {c : Config Real} → Settings o c → ℕ → Device Real
    set_up s id = with_param s.retries (is_set s.header_add) s.channel id (new_device s.pan_id)

    abbrev pub set_up_devices :
        {c : Config Real} → Settings o c → List (Option (Device Real)) → List (Option (Device Real))
    set_up_devices s devices =
        numbered (with_param s.retries (is_set s.header_add) s.channel) 0
          (map (λ node. some (new_device s.pan_id)) devices)

    set_all_nodes_param-numbered :
        (c : Config Real) (s : Settings o c) (ctx : IfaceCtx Real)
        → set_all_nodes_param o.world.stod c ctx ≡ (
          record ctx {
            devices = numbered (with_param s.retries (is_set s.header_add) s.channel) 0 ctx.devices;
          },
          done,
        )
    unfolding set_all_nodes_param
    set_all_nodes_param-numbered c s ctx =
        ap
          (λ add. elim add [
            | none ↦ (ctx, uncaught)
            | some add ↦ with_channel c (is_set add) ctx (radio_channel o.world.stod c)
          ])
          s.has_header_add
        ∙ ap (with_channel c (is_set s.header_add) ctx) s.has_channel
        ∙ ap (with_nodes ctx) (
            set_nodes-numbered c (is_set s.header_add) s.channel s.retries s.has_retries 0
              ctx.devices)

    lrwpan_setup-set_up :
        (c : Config Real) (s : Settings o c) (ctx : IfaceCtx Real)
        → lrwpan_setup o.world.stod c ctx
          ≡ (record ctx { devices = set_up_devices s ctx.devices }, done)
    unfolding lrwpan_setup
    lrwpan_setup-set_up c s ctx =
        ap
          (λ pan. elim pan [
            | none ↦ (ctx, uncaught)
            | some pan_id ↦ ignored (set_all_nodes_param o.world.stod c (installed pan_id ctx))
          ])
          s.has_pan_id
        ∙ ap ignored (set_all_nodes_param-numbered c s (installed s.pan_id ctx))

    -- The list of interfaces with the radio set up.
    abbrev pub radio_inited : Config Real → IfaceList Real
    radio_inited c = let g = iflist o c in record g { lrwpan = record g.lrwpan { inited = true } }

    pub iface_install-set_up :
        (c : Config Real) (s : Settings o c) (ctx : IfaceCtx Real)
        → iface_install c (iflist o c) ctx
          ≡ returned (radio_inited c) (record ctx { devices = set_up_devices s ctx.devices }) done
    unfolding iface_install
    iface_install-set_up c s ctx =
        let g = iflist o c in
        ap
          (λ b.
            if b
            then install (λ iface. record g { plc = iface }) g.plc ctx
            else install (λ iface. record g { lrwpan = iface }) g.lrwpan ctx)
          s.is_radio
        ∙ ap (finished (λ iface. record g { lrwpan = iface }) g.lrwpan)
            (lrwpan_setup-set_up c s ctx)

  null_channel :
      (stod : Bytes → Option Real) (c : Config Real)
      → get (codes "lossModel") c ≢ []
      → get_loss_model stod (get (codes "lossModel") c) (get (codes "lossModelParam") c) ≡ unknown
      → radio_channel stod c ≡ null_model
  unfolding radio_channel
  null_channel stod c named no_model = rw no_model (named_null (get (codes "lossModel") c) named _)

  -- With a loss model that does not exist, setting up the radio succeeds all the same, but no node has
  -- its callbacks, its address or its retries: the devices are as the simulator made them. The
  -- numbers `panID` and `macHeaderAdd` can be read.
  pub lrwpan_setup-unknown :
      (stod : Bytes → Option Real) (c : Config Real) (ctx : IfaceCtx Real) (pan_id header_add : ℤ)
      → cfg_int (codes "panID") (codes "0xface") c ≡ some pan_id
      → cfg_int (codes "macHeaderAdd") (codes "1") c ≡ some header_add
      → get (codes "lossModel") c ≢ []
      → get_loss_model stod (get (codes "lossModel") c) (get (codes "lossModelParam") c) ≡ unknown
      → lrwpan_setup stod c ctx ≡ (installed pan_id ctx, done)
  unfolding lrwpan_setup set_all_nodes_param
  lrwpan_setup-unknown stod c ctx pan_id header_add has_pan has_header named no_model =
      ap
        (λ pan. elim pan [
          | none ↦ (ctx, uncaught)
          | some id ↦ ignored (set_all_nodes_param stod c (installed id ctx))
        ])
        has_pan
      ∙ ap
          (λ add. ignored (elim add [
            | none ↦ (installed pan_id ctx, uncaught)
            | some add ↦ with_channel c (is_set add) (installed pan_id ctx) (radio_channel stod c)
          ]))
          has_header
      ∙ ap (λ b. ignored (with_channel c (is_set header_add) (installed pan_id ctx) b))
          (null_channel stod c named no_model)
