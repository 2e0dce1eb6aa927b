-- ===== src/Station/Runs.antt =====
-- What a station does that `main` of src/main.rs has started, whatever comes from the tunnel and
-- the device, and however its threads are interleaved.
use lora_mesh_rs.Prelude.{◌≡◌, sym, ap, ◌∙◌, List, ◌++◌, some, All, everything, subst}
use lora_mesh_rs.Prelude.Outcome.{ok, some_inj}
use lora_mesh_rs.Kinds.{Enumn}
use lora_mesh_rs.Util.{Ipv4Addr}
use lora_mesh_rs.Message.IpPacket.{PacketCrate}
use lora_mesh_rs.Router.Graph.{GraphCrate}
use lora_mesh_rs.Settings.{Settings}
use lora_mesh_rs.Tunnel.{Platform}
use lora_mesh_rs.Tunnel.Laws.{RoutesPrivate}
use lora_mesh_rs.Node.Wire.{IsWire}
use lora_mesh_rs.Node.Table.{IsTable, empty-IsTable}
use lora_mesh_rs.Node.Evolves.Base.{Evolves-refl}
use lora_mesh_rs.Radio.{Line, Device}
use lora_mesh_rs.Radio.Serves.{Sent, Held, Serves-refl}
use lora_mesh_rs.Station.{Station, Machine, boot}
use lora_mesh_rs.Station.Steps.{Reach}
use lora_mesh_rs.Station.Sound.{wires, IsSound, Reach-IsSound}
use lora_mesh_rs.Station.Boot.{boot-IsBooted}

module _ {P G : Type 0} ⦃gc : GraphCrate G⦄ ⦃os : Platform⦄ ⦃dev : Device⦄ where
  pub boot-IsSound : (m : Machine) (st : Station P G) → boot m ≡ ok st → IsSound st st
  boot-IsSound m st h =
      let b = boot-IsBooted m st h in
      let unqueued : All IsWire st.radio.radio.queue = subst (All IsWire) (sym b.unused.0) tt in
      record {
        evolves = Evolves-refl st.node;
        channel = subst (All IsWire) (sym b.fresh.unsent) tt;
        serves =
            Serves-refl wires st.radio.radio unqueued b.unused.1 (everything st.radio.radio.lines);
        held = subst (Held IsWire) (sym b.extra) tt;
      }

  -- A station that is sound is so as a beginning.
  again-IsSound : (st0 st : Station P G) → IsSound st0 st → IsSound st st
  again-IsSound st0 st v = record {
    evolves = Evolves-refl st.node;
    channel = v.channel;
    serves =
        Serves-refl wires st.radio.radio v.serves.queued v.serves.heard_have v.serves.lines_fit;
    held = v.held;
  }

module _ {P G : Type 0} ⦃e : Enumn⦄ ⦃gc : GraphCrate G⦄ ⦃pc : PacketCrate P⦄ ⦃os : Platform⦄
    ⦃dev : Device⦄ where
  -- Where `main` starts a station, and its threads run in any order on whatever comes from the
  -- tunnel and the device: the radio has written since then commands for the lights and the
  -- receiver, and lines that transmit bytes which parse as a frame, nothing else; what is still in
  -- the channel parses as well.
  pub run_transmits_frames :
      (m : Machine) (st0 st : Station P G)
      → boot m ≡ ok st0
      → Reach st0 st
      → (since : List Line) × (st.radio.radio.written ≡ st0.radio.radio.written ++ since)
        × All (Sent IsWire) since
        × All IsWire st.node.sent
  run_transmits_frames m st0 st h r =
      let v = Reach-IsSound st0 r (boot-IsSound m st0 h) in
      (v.serves.since, v.serves.written_is, v.serves.sends, v.channel)

  -- Where `main` starts a station, and its threads run in any order on whatever comes: all routes
  -- that were put into the system's table lead to private addresses.
  pub run-RoutesPrivate :
      (m : Machine) (st0 st : Station P G)
      → boot m ≡ ok st0
      → Reach st0 st
      → RoutesPrivate st.node.tunnel
  run-RoutesPrivate m st0 st h r =
      (Reach-IsSound st0 r (boot-IsSound m st0 h)).evolves.private
        (boot-IsBooted m st0 h).fresh.private

  -- Where `main` starts a station, and its threads run in any order on whatever comes: what the
  -- node keeps in its table of chunks under a key are frames of the sender and the id of that key,
  -- at least one.
  pub run-IsTable :
      (m : Machine) (st0 st : Station P G)
      → boot m ≡ ok st0
      → Reach st0 st
      → IsTable st.node.rxchunks
  run-IsTable m st0 st h r =
      (Reach-IsSound st0 r (boot-IsSound m st0 h)).evolves.table
        (subst IsTable (sym (boot-IsBooted m st0 h).fresh.unheard) empty-IsTable)

  -- Where `main` starts a station, and its threads run in any order on whatever comes: its node
  -- has the id of the settings, and an address that it had at one point it has ever after.
  pub run_keeps_address :
      (m : Machine) (st0 st1 st2 : Station P G) (opt : Settings) (addr : Ipv4Addr)
      → boot m ≡ ok st0
      → m.settings ≡ some opt
      → Reach st0 st1
      → Reach st1 st2
      → st1.node.ipaddr ≡ some addr
      → (st2.node.id ≡ opt.nodeid) × (st2.node.ipaddr ≡ some addr)
  run_keeps_address m st0 st1 st2 opt addr h s r1 r2 a =
      let b = boot-IsBooted m st0 h in
      let v1 = Reach-IsSound st0 r1 (boot-IsSound m st0 h) in
      let v2 = Reach-IsSound st1 r2 (again-IsSound st0 st1 v1) in
      let same : b.opt.nodeid ≡ opt.nodeid =
        ap (λ (o : Settings). o.nodeid) (some_inj (sym b.opt_is ∙ s)) in
      (v2.evolves.id_is ∙ v1.evolves.id_is ∙ b.fresh.id_is ∙ same, v2.evolves.ip_stays addr a)
