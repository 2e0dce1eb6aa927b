-- ===== src/Station/Sound.antt =====
-- What holds of a station, as src/main.rs starts it, however its threads are interleaved.
use lora_mesh_rs.Prelude.{ℕ, ◌≡◌, refl, List, [], ◌∷◌, map, drop, All, All-drop, subst}
use lora_mesh_rs.Prelude.Outcome.{ok, bind_inv, ok_inj}
use lora_mesh_rs.Prelude.Post.{Post-elim, Settles-elim, anything}
use lora_mesh_rs.Kinds.{Enumn}
use lora_mesh_rs.Util.{IsByte}
use lora_mesh_rs.Message.IpPacket.{PacketCrate}
use lora_mesh_rs.Router.Graph.{GraphCrate}
use lora_mesh_rs.Tunnel.{Platform, tun_read}
use lora_mesh_rs.Node.State.{MeshNode}
use lora_mesh_rs.Node.Main.{Input, round}
use lora_mesh_rs.Node.Wire.{IsWire}
use lora_mesh_rs.Node.Evolves.Base.{Evolves, Evolves-trans}
use lora_mesh_rs.Node.Evolves.Main.{GivesBytes, round-Evolves}
use lora_mesh_rs.Radio.{Device, slice_from, ignore, rxstart}
use lora_mesh_rs.Radio.Loop.{RadioInput, radio_round}
use lora_mesh_rs.Radio.Serves.{Terms, IsFair, Held, Serves, Serves-queue, Serves-heard}
use lora_mesh_rs.Radio.Serving.{started, serving}
use lora_mesh_rs.Radio.Rules.{Loops}
use lora_mesh_rs.Radio.Rounds.{radio_round-Loops}
use lora_mesh_rs.Station.{
  Station, try_first, hearing, finding, node_round, tunnel_round, begin_radio, radio_turn,
}
use lora_mesh_rs.Station.Steps.{
  Step, node_runs, tunnel_runs, radio_begins, radio_runs, Reach, here, later,
}

-- Frames that parse are transmitted, and bytes are heard; nothing is said of a panic.
abbrev pub wires : Terms
wires = record { Fails = Unit; Fit = λ _. Unit; Given = IsWire; Heard = All IsByte }

wires-IsFair : ⦃dev : Device⦄ → IsFair wires
wires-IsFair ⦃dev⦄ = record {
  decodes = dev.decode_bytes;
  slices = λ line f packet. anything (slice_from line 10);
}

-- What the node's state was and is; the frames in the channel parse; the radio has written
-- commands and frames that parse, and has heard bytes.
pub record IsSound {P G : Type 0} ⦃dev : Device⦄ (st0 st : Station P G) : Type 0 where
  pub evolves : Evolves st0.node st.node
  pub channel : All IsWire st.node.sent
  pub serves : Serves wires st0.radio.radio st.radio.radio
  pub held : Held IsWire st.radio.extratx

empties : (burst : List (List (List ℕ))) → All (All IsWire) (map (λ _. []) burst)
empties [] = tt
empties (x ∷ burst) = (tt, empties burst)

try_first-GivesBytes :
    (heard : List (List ℕ)) → All (All IsByte) heard → GivesBytes (try_first heard)
try_first-GivesBytes [] h = tt
try_first-GivesBytes (bytes ∷ heard) h = h.0

module _ {G : Type 0} where
  Evolves-channel :
      (n : MeshNode G) (frames : List (List ℕ))
      → All IsWire frames
      → Evolves n (record n { sent = frames })
  Evolves-channel n frames w = record {
    id_is = refl;
    opt_is = refl;
    nodeid_is = refl;
    ip_stays = λ x h. h;
    private = λ h. h;
    wire = λ h. w;
    table = λ h. h;
  }

module _ {P G : Type 0} ⦃e : Enumn⦄ ⦃gc : GraphCrate G⦄ ⦃pc : PacketCrate P⦄ ⦃os : Platform⦄
    ⦃dev : Device⦄ (st0 : Station P G) where
  node_round-IsSound :
      (i : Input P) (st st' : Station P G)
      → node_round i st ≡ ok st'
      → IsSound st0 st
      → IsSound st0 st'
  unfolding node_round
  node_round-IsSound i st st' h v =
      let j = hearing i st.packets st.radio.radio.heard in
      let (n, ran, done) = bind_inv (round j st.node) _ h in
      let moved =
        Post-elim (Evolves st.node) (round j st.node) n
          (round-Evolves j st.node (try_first-GivesBytes st.radio.radio.heard v.serves.heard_have))
          ran in
      subst (IsSound st0) (ok_inj done) (record {
        evolves = Evolves-trans st0.node st.node n v.evolves moved;
        channel = moved.wire v.channel;
        serves =
            Serves-heard wires st0.radio.radio st.radio.radio (drop 1 st.radio.radio.heard)
              (All-drop (All IsByte) 1 st.radio.radio.heard v.serves.heard_have) v.serves;
        held = v.held;
      })

module _ {P G : Type 0} ⦃dev : Device⦄ (st0 : Station P G) where
  tunnel_round-IsSound :
      ⦃pc : PacketCrate P⦄ (buffer : List ℕ) (size : ℕ) (st st' : Station P G)
      → tunnel_round buffer size st ≡ ok st'
      → IsSound st0 st
      → IsSound st0 st'
  unfolding tunnel_round
  tunnel_round-IsSound buffer size st st' h v =
      let (packet, _, done) = bind_inv (tun_read buffer size) _ h in
      subst (IsSound st0) (ok_inj done)
        (record { evolves = v.evolves; channel = v.channel; serves = v.serves; held = v.held })

  begin_radio-IsSound :
      (st st' : Station P G) → begin_radio st ≡ ok st' → IsSound st0 st → IsSound st0 st'
  unfolding begin_radio
  begin_radio-IsSound st st' h v =
      let (l, ran, done) = bind_inv (ignore (rxstart st.radio.radio)) _ h in
      let kept =
        Settles-elim Unit (Serves wires st0.radio.radio) (ignore (rxstart st.radio.radio)) l
          (started wires wires-IsFair st0.radio.radio (λ _. tt) st.radio.radio v.serves) ran in
      subst (IsSound st0) (ok_inj done)
        (record { evolves = v.evolves; channel = v.channel; serves = kept; held = tt })

  radio_turn-IsSound :
      (i : RadioInput) (st st' : Station P G)
      → radio_turn i st ≡ ok st'
      → IsSound st0 st
      → IsSound st0 st'
  unfolding radio_turn
  radio_turn-IsSound i st st' h v =
      let j = finding st.node.sent i in
      let (s, ran, done) = bind_inv (radio_round j st.radio) _ h in
      let (kept, held) =
        Settles-elim Unit (Loops wires (serving wires wires-IsFair st0.radio.radio (λ _. tt)))
          (radio_round j st.radio) s
          (radio_round-Loops wires (serving wires wires-IsFair st0.radio.radio (λ _. tt)) j st.radio
            (v.channel, empties i.burst) (v.serves, v.held))
          ran in
      subst (IsSound st0) (ok_inj done) (record {
        evolves =
            Evolves-trans st0.node st.node _ v.evolves
              (Evolves-channel st.node s.radio.queue kept.queued);
        channel = kept.queued;
        serves = Serves-queue wires st0.radio.radio s.radio [] tt kept;
        held = held;
      })

module _ {P G : Type 0} ⦃e : Enumn⦄ ⦃gc : GraphCrate G⦄ ⦃pc : PacketCrate P⦄ ⦃os : Platform⦄
    ⦃dev : Device⦄ where
  Step-IsSound : (st0 st st' : Station P G) → Step st st' → IsSound st0 st → IsSound st0 st'
  Step-IsSound st0 st st' (node_runs i h) v = node_round-IsSound st0 i st st' h v
  Step-IsSound st0 st st' (tunnel_runs buffer size h) v =
      tunnel_round-IsSound st0 buffer size st st' h v
  Step-IsSound st0 st st' (radio_begins _ h) v = begin_radio-IsSound st0 st st' h v
  Step-IsSound st0 st st' (radio_runs i _ h) v = radio_turn-IsSound st0 i st st' h v

  pub Reach-IsSound :
      (st0 : Station P G) {st : Station P G} → Reach st0 st → IsSound st0 st0 → IsSound st0 st
  Reach-IsSound st0 here v = v
  Reach-IsSound st0 (later {st1} {st2} r s) v = Step-IsSound st0 st1 st2 s (Reach-IsSound st0 r v)
