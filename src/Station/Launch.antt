-- ===== src/Station/Launch.antt =====
-- The settings of a station that `main` of src/main.rs has started.
use lora_mesh_rs.Prelude.{◌≡◌, refl, sym, ap, ◌∙◌, Option, some, none, subst}
use lora_mesh_rs.Prelude.Outcome.{ok, bind_inv, ok_inj}
use lora_mesh_rs.Kinds.{Enumn}
use lora_mesh_rs.Message.IpPacket.{PacketCrate}
use lora_mesh_rs.Router.Graph.{GraphCrate}
use lora_mesh_rs.Settings
use lora_mesh_rs.Settings.{Settings, Key, ConfigCrate, deserialize, conf_file, env_source}
use lora_mesh_rs.Settings.Layers.{layered, settled, new_lem}
use lora_mesh_rs.Settings.Typed.{IsTyped, new-IsTyped}
use lora_mesh_rs.Tunnel.{Platform}
use lora_mesh_rs.Radio.{Device}
use lora_mesh_rs.Station.{Station, Machine, launch}
use lora_mesh_rs.Station.Steps.{Reach}
use lora_mesh_rs.Station.Sound.{Reach-IsSound}
use lora_mesh_rs.Station.Boot.{boot-IsBooted}
use lora_mesh_rs.Station.Runs.{boot-IsSound}

module _ ⦃crate : ConfigCrate⦄ where
  -- Where settings come from, that were loaded.
  abbrev pub Loaded : Settings → Type 0
  Loaded opt =
      (conf env : Key → Option crate.Value) × (crate.collect conf_file ≡ some conf)
      × (crate.collect env_source ≡ some env)
      × (deserialize (layered env conf) ≡ some opt)

  settled-Loaded :
      (conf env : Option (Key → Option crate.Value)) (opt : Settings)
      → crate.collect conf_file ≡ conf
      → crate.collect env_source ≡ env
      → settled conf env ≡ ok (some opt)
      → Loaded opt
  settled-Loaded none env opt c e h = cc
  settled-Loaded (some conf) none opt c e h = cc
  settled-Loaded (some conf) (some env) opt c e h = (conf, env, c, e, ok_inj h)

  new-Loaded : (opt : Settings) → Settings.new ≡ ok (some opt) → Loaded opt
  new-Loaded opt h =
      settled-Loaded (crate.collect conf_file) (crate.collect env_source) opt refl refl
        (sym new_lem ∙ h)

module _ {P G : Type 0} ⦃crate : ConfigCrate⦄ ⦃e : Enumn⦄ ⦃gc : GraphCrate G⦄ ⦃pc : PacketCrate P⦄
    ⦃os : Platform⦄ ⦃dev : Device⦄ where
  -- Where `main` starts a station, and its threads run in any order on whatever comes: the file and
  -- the environment could be read, the settings of the node are made of what they hold, for each
  -- key the value of the environment before that of the file before the default, they are within
  -- their types, and the id of the node is that of the settings.
  pub launch_settings :
      (m : Machine) (st0 st : Station P G)
      → launch m ≡ ok st0
      → Reach st0 st
      → Loaded st.node.opt × IsTyped st.node.opt × (st.node.id ≡ st.node.opt.nodeid)
  unfolding launch
  launch_settings m st0 st h r =
      let (loaded, made, booted) = bind_inv Settings.new _ h in
      let b = boot-IsBooted (record m { settings = loaded }) st0 booted in
      let v = Reach-IsSound st0 r (boot-IsSound (record m { settings = loaded }) st0 booted) in
      let opt_is : st.node.opt ≡ b.opt = v.evolves.opt_is ∙ b.fresh.opt_is in
      let got : Settings.new ≡ ok (some b.opt) = made ∙ ap ok b.opt_is in
      (
        subst Loaded (sym opt_is) (new-Loaded b.opt got),
        subst IsTyped (sym opt_is) (new-IsTyped b.opt got),
        v.evolves.id_is ∙ b.fresh.id_is ∙ ap (λ (o : Settings). o.nodeid) (sym opt_is),
      )
