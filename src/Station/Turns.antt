-- ===== src/Station/Turns.antt =====
-- The part of one station, where packets are passed on from radio to radio: src/hardware/lostik.rs
-- hears what the station before it has sent, src/node.rs acts on it, and what it sends is
-- transmitted.
use lora_mesh_rs.Prelude.{ℕ, ◌≡◌, refl, ap, ◌∙◌, Bool, List, [], ◌∷◌, ◌++◌, All, All-map}
use lora_mesh_rs.Prelude.Outcome.{ok}
use lora_mesh_rs.Kinds.{Enumn}
use lora_mesh_rs.Frame.Bytes.{IsPacket}
use lora_mesh_rs.Message.IpPacket.{PacketCrate}
use lora_mesh_rs.Router.{Clock}
use lora_mesh_rs.Router.Graph.{GraphCrate}
use lora_mesh_rs.Tunnel.{Platform}
use lora_mesh_rs.Node.State.{MeshNode}
use lora_mesh_rs.Node.Hearing.{hear_all}
use lora_mesh_rs.Radio.{Line, Device, LoStik}
use lora_mesh_rs.Radio.Keeps.{rx_start, blue_on}
use lora_mesh_rs.Radio.Mode.{AlwaysAccepts}
use lora_mesh_rs.Radio.Loop.{LoopState, radioloop}
use lora_mesh_rs.Radio.Drain.{good, turns, answers}
use lora_mesh_rs.Radio.Hears.{packet_line, reports, restarts, attentive_each}
use lora_mesh_rs.Radio.Turns.{handed_each, spoken, radioloop_turn}
use lora_mesh_rs.Station.Air.{Ether, hearsay-turns}

-- A station whose radio's loop has not started.
pub record Stop (G : Type 0) : Type 0 where
  pub radio : LoStik
  pub node : MeshNode G

-- Nothing is to be transmitted, and nothing was heard.
pub record IsIdle {G : Type 0} (s : Stop G) : Type 0 where
  pub nothing_queued : s.radio.queue ≡ []
  pub nothing_heard : s.radio.heard ≡ []

reports-append :
    ⦃dev : Device⦄ (packets : List (List ℕ)) (rest : List Line)
    → reports packets [] ++ rest ≡ reports packets rest
reports-append [] rest = refl
reports-append (bytes ∷ packets) rest =
    ap (λ (lines : List Line). packet_line bytes ∷ good ∷ good ∷ lines)
      (reports-append packets rest)

module _ ⦃dev : Device⦄ (ether : Ether) where
  hearsay-restarts :
      (packets : List (List ℕ)) (rest : List Line)
      → ether.hearsay (restarts packets ++ rest) ≡ ether.hearsay rest
  hearsay-restarts [] rest = refl
  hearsay-restarts (bytes ∷ packets) rest =
      ether.unheard _ _ rx_start ∙ ether.unheard _ _ blue_on ∙ hearsay-restarts packets rest

  -- The other radio gets the frames, and nothing of what was heard before them.
  pub hearsay-spoken :
      (packets frames : List (List ℕ))
      → All IsPacket frames
      → ether.hearsay (spoken packets frames) ≡ reports frames []
  hearsay-spoken packets frames h =
      ether.unheard _ _ rx_start
      ∙ ether.unheard _ _ blue_on
      ∙ hearsay-restarts packets (turns frames)
      ∙ hearsay-turns ether frames h

module _ (P : Type 0) {G : Type 0} ⦃e : Enumn⦄ ⦃gc : GraphCrate G⦄ ⦃pc : PacketCrate P⦄
    ⦃os : Platform⦄ ⦃dev : Device⦄ where
  -- The part of a station, where `since` is what the station before it has written. Its device
  -- reports what it gets of this, and answers every command: its loop takes these packets, in a
  -- round for each, and transmits these frames; its node hears the packets, and is as `n'` then.
  pub record Turn (ether : Ether) (allowed : Bool) (clock : Clock) (j : ℕ) (since : List Line)
      (packets : List (List ℕ)) (s : Stop G) (frames : List (List ℕ)) (n' : MeshNode G)
      : Type 0 where
    pub state : LoopState
    pub returns :
        radioloop
          (attentive_each allowed packets ++ handed_each frames)
          (record s.radio { lines = good ∷ good ∷ (ether.hearsay since ++ answers frames []) })
        ≡ ok state
    pub writes : state.radio.written ≡ s.radio.written ++ spoken packets frames
    pub takes : state.radio.heard ≡ s.radio.heard ++ packets
    pub hears : hear_all P clock j s.node state.radio.heard ≡ ok n'

  pub turn_lem :
      (ether : Ether) (up : AlwaysAccepts dev) (allowed : Bool) (clock : Clock) (j : ℕ)
      (since : List Line) (s : Stop G) (packets frames : List (List ℕ)) (n' : MeshNode G)
      → IsIdle s
      → All IsPacket packets
      → ether.hearsay since ≡ reports packets []
      → hear_all P clock j s.node packets ≡ ok n'
      → Turn ether allowed clock j since packets s frames n'
  turn_lem ether up allowed clock j since s packets frames n' idle fit told acts =
      let l = record s.radio { lines = good ∷ good ∷ (ether.hearsay since ++ answers frames []) } in
      record {
        state = _;
        returns =
            radioloop_turn up allowed l packets frames []
              (All-map (λ x (h : IsPacket x). h.0) packets fit) idle.nothing_queued
              (ap (λ (lines : List Line). good ∷ good ∷ (lines ++ answers frames [])) told
                ∙ ap (λ (lines : List Line). good ∷ good ∷ lines)
                    (reports-append packets (answers frames [])));
        writes = refl;
        takes = refl;
        hears =
            ap (λ (old : List (List ℕ)). hear_all P clock j s.node (old ++ packets))
              idle.nothing_heard
            ∙ acts;
      }
