-- ===== src/Station/Chain.antt =====
-- An IP packet from the tunnel of one station to the tunnel of another, over stations that pass it
-- on, each of which hears the one before it: through the code of src/node.rs and
-- src/hardware/lostik.rs on all of them.
use lora_mesh_rs.Prelude.{
  ℕ, ◌+◌, ◌<◌, ◌≤◌, ◌≡◌, refl, sym, ap, ◌∙◌, Bool, List, [], ◌∷◌, ◌++◌, map, some, none, All,
  length, drop, arith, drop-length-append, bytes_eq, subst,
}
use lora_mesh_rs.Prelude.Outcome.{ok}
use lora_mesh_rs.Prelude.HashMap
use lora_mesh_rs.Kinds.{Enumn}
use lora_mesh_rs.Util.{IsByte}
use lora_mesh_rs.Frame.{Frame, chunked}
use lora_mesh_rs.Frame.Route.{shifted}
use lora_mesh_rs.Frame.Bytes.{IsPacket, IsTyped, shifted-IsTyped, chunked-IsPacket}
use lora_mesh_rs.Message.IpPacket.{PacketCrate}
use lora_mesh_rs.Router.{Clock}
use lora_mesh_rs.Router.Graph.{GraphCrate}
use lora_mesh_rs.Tunnel.{Platform, send}
use lora_mesh_rs.Node.State.{MeshNode}
use lora_mesh_rs.Node.Receive.{key_of}
use lora_mesh_rs.Node.Journey.{ids}
use lora_mesh_rs.Node.Packet.{news, AreRelays, relay, onward}
use lora_mesh_rs.Node.Carry.{Carries, Carries-IsFinal, Carries-shifted, hear-here, hear-elsewhere}
use lora_mesh_rs.Radio.{Line, Device}
use lora_mesh_rs.Radio.Mode.{AlwaysAccepts}
use lora_mesh_rs.Radio.Hears.{reports}
use lora_mesh_rs.Radio.Turns.{spoken}
use lora_mesh_rs.Station.Air.{Ether}
use lora_mesh_rs.Station.Turns.{Stop, IsIdle, Turn, turn_lem, hearsay-spoken}

abbrev pub nodes : {G : Type 0} → List (Stop G) → List (MeshNode G)
nodes [] = []
nodes (s ∷ stops) = s.node ∷ nodes stops

abbrev pub hop_ids : {G : Type 0} → List (Stop G) → Stop G → List ℕ
hop_ids stops last = ids (nodes stops) ++ last.node.id ∷ []

-- Idle, and so that a chunk, with a route of at most this length, is one packet of the device.
abbrev pub IsReady : {G : Type 0} → ℕ → Stop G → Type 0
IsReady k s = IsIdle s × (5 + k + s.node.opt.maxpacketsize < 256)

-- The stations on the way and the last one, each of which hears the frames that the one before it
-- has transmitted, and their nodes afterwards. The last one transmits nothing.
pub data Along (P : Type 0) {G : Type 0} ⦃e : Enumn⦄ ⦃gc : GraphCrate G⦄ ⦃pc : PacketCrate P⦄
    ⦃os : Platform⦄ ⦃dev : Device⦄ (ether : Ether) (allowed : Bool) (clock : Clock) (j : ℕ)
    (last : Stop G) (last' : MeshNode G)
    : List Line → List (List ℕ) → List (Stop G) → List (MeshNode G) → Type 0 where
  arrive :
      {since : List Line} {cs : List (List ℕ)}
      → Turn P ether allowed clock j since cs last [] last'
      → Along P ether allowed clock j last last' since cs [] []
  pass :
      {since : List Line} {cs : List (List ℕ)} {s : Stop G} {stops : List (Stop G)}
      {n' : MeshNode G} {ns : List (MeshNode G)}
      → Turn P ether allowed clock j since cs s (news s.node n') n'
      → Along P ether allowed clock j last last'
          (spoken cs (news s.node n'))
          (news s.node n')
          stops
          ns
      → Along P ether allowed clock j last last' since cs (s ∷ stops) (n' ∷ ns)

module _ (P : Type 0) {G : Type 0} ⦃e : Enumn⦄ ⦃gc : GraphCrate G⦄ ⦃pc : PacketCrate P⦄
    ⦃os : Platform⦄ ⦃dev : Device⦄ where
  -- The packet is written to the last station's tunnel, and to no other's.
  abbrev pub Reaches :
      Ether → Bool → Clock → ℕ → P → List Line → List (List ℕ) → List (Stop G) → Stop G → Type 0
  Reaches ether allowed clock j p since cs stops last =
      (ns : List (MeshNode G)) × (last' : MeshNode G) × Along P ether allowed clock j last last'
        since cs stops ns
      × (last'.tunnel ≡ send last.node.tunnel p)
      × (map (λ n. n.tunnel) ns ≡ map (λ n. n.tunnel) (nodes stops))

  pub chain_lem :
      (ether : Ether) (up : AlwaysAccepts dev) (allowed : Bool) (clock : Clock) (j : ℕ) (p : P)
      (f : Frame) (m k before : ℕ) (since : List Line) (cs : List (List ℕ)) (stops : List (Stop G))
      (last : Stop G)
      → Carries p f
      → IsTyped f
      → 0 < m
      → chunked f m ≡ ok cs
      → All IsPacket cs
      → ether.hearsay since ≡ reports cs []
      → f.route ≡ before ∷ hop_ids stops last
      → length f.route ≤ k
      → AreRelays p (key_of f) before (nodes stops)
      → All (IsReady k) stops
      → IsIdle last
      → last.node.ipaddr ≡ some (pc.destination p)
      → HashMap.get (key_of f) last.node.rxchunks ≡ none
      → Reaches ether allowed clock j p since cs stops last
  chain_lem ether up allowed clock j p f m k before since cs [] last v t b cut fit told r few way
        ready idle a free =
      let (last', heard, wrote) = hear-here P clock j last.node p f m cs v b cut free a in
      (
        [],
        last',
        arrive (turn_lem P ether up allowed clock j since last cs [] last' idle fit told heard),
        wrote,
        refl,
      )
  chain_lem ether up allowed clock j p f m k before since cs (s ∷ stops) last v t b cut fit told r
        few (relay other away size none_kept way) (ready, others) idle a free =
      let rest = hop_ids (s ∷ stops) last in
      let short : length rest < 256 = omega (arith, v.short, ap length r) in
      let less : length rest ≤ k = omega (arith, few, ap length r) in
      let bytes : IsByte before × All IsByte rest = subst (All IsByte) r t.route_fits in
      let w = Carries-shifted p f rest short v in
      let u = shifted-IsTyped f rest short bytes.1 t in
      let (h, final) = Carries-IsFinal p (shifted f rest) w in
      let (n', ds, heard, made, sent, quiet) =
        hear-elsewhere P clock j s.node p f m before rest cs v b cut none_kept away r other
          (onward (ids (nodes (s ∷ stops))) last.node.id) size in
      let fresh : news s.node n' ≡ ds =
        ap (drop (length s.node.sent)) sent ∙ drop-length-append s.node.sent ds in
      let new = news s.node n' in
      let again : chunked (shifted f rest) s.node.opt.maxpacketsize ≡ ok new =
        made ∙ ap ok (sym fresh) in
      let fits =
        chunked-IsPacket (shifted f rest) h s.node.opt.maxpacketsize new size final.header_is refl u
          (omega (arith, ready.1, less)) again in
      let step = turn_lem P ether up allowed clock j since s cs new n' ready.0 fit told heard in
      let (ns, last', along, wrote, same) =
        chain_lem ether up allowed clock j p (shifted f rest) s.node.opt.maxpacketsize k s.node.id
          (spoken cs new) new stops last w u size again fits (hearsay-spoken ether cs new fits) refl
          less way others idle a free in
      (n' ∷ ns, last', pass step along, wrote, λ i. quiet i ∷ same i)
