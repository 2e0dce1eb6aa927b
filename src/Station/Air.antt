-- ===== src/Station/Air.antt =====
-- The code of src/hardware/lostik.rs and src/node.rs on two stations in reach: one radio transmits
-- the chunks of a frame, the other hears them and hands them to its node.
use lora_mesh_rs.Prelude.{
  ℕ, ◌<◌, ◌≡◌, refl, ap, ◌∙◌, Bool, List, [], ◌∷◌, ◌++◌, some, none, All, All-map, bytes_eq,
}
use lora_mesh_rs.Prelude.Outcome.{ok}
use lora_mesh_rs.Prelude.HashMap
use lora_mesh_rs.Prelude.Text.{codes}
use lora_mesh_rs.Kinds.{Enumn, MessageType}
use lora_mesh_rs.Frame.{Frame, FrameHeader, chunked}
use lora_mesh_rs.Frame.Bytes.{IsPacket}
use lora_mesh_rs.Message.IpPacket.{PacketCrate}
use lora_mesh_rs.Router.{Clock}
use lora_mesh_rs.Router.Graph.{GraphCrate}
use lora_mesh_rs.Tunnel.{Platform}
use lora_mesh_rs.Node.State.{MeshNode}
use lora_mesh_rs.Node.Receive.{RxChunks, key_of, act}
use lora_mesh_rs.Node.Reassembly.{IsFinal}
use lora_mesh_rs.Node.Hearing.{hear_all, hear_whole}
use lora_mesh_rs.Radio.{Line, Device, LoStik, tx_line}
use lora_mesh_rs.Radio.Keeps.{Command, red_on, red_off, blue_on, blue_off, rx_start, rx_stop}
use lora_mesh_rs.Radio.Mode.{AlwaysAccepts}
use lora_mesh_rs.Radio.Loop.{LoopState, radioloop}
use lora_mesh_rs.Radio.Drain.{good, answers, turns, one_each, radioloop_drains}
use lora_mesh_rs.Radio.Hears.{packet_line, reports, attentive_each, radioloop_hears}

-- Two devices in reach. From what is written to one, the lines that the other sends, where it is
-- told to receive at first and after each packet: it reports each packet, and answers with `ok`.
pub record Ether ⦃dev : Device⦄ : Type 0 where
  pub hearsay : List Line → List Line
  pub silence : hearsay [] ≡ []
  pub unheard :
      (line : Line) (rest : List Line) → Command line → hearsay (line ∷ rest) ≡ hearsay rest
  pub carried :
      (bytes : List ℕ) (rest : List Line)
      → IsPacket bytes
      → hearsay (tx_line bytes ∷ rest) ≡ packet_line bytes ∷ good ∷ good ∷ hearsay rest

module _ ⦃dev : Device⦄ (ether : Ether) where
  pub hearsay-turns :
      (packets : List (List ℕ))
      → All IsPacket packets
      → ether.hearsay (turns packets) ≡ reports packets []
  hearsay-turns [] h = ether.silence
  hearsay-turns (bytes ∷ packets) h =
      ether.unheard _ _ rx_stop
      ∙ ether.unheard _ _ blue_off
      ∙ ether.unheard _ _ red_on
      ∙ ether.carried bytes _ h.0
      ∙ ap (λ lines. packet_line bytes ∷ good ∷ good ∷ lines)
          (ether.unheard _ _ red_off
            ∙ ether.unheard _ _ rx_start
            ∙ ether.unheard _ _ blue_on
            ∙ hearsay-turns packets h.1)

  -- The packets that one radio transmits, while it gets rid of its queue, the other one hears.
  crossing :
      (up : AlwaysAccepts dev) (allowed : Bool) (a b : LoStik) (rest : List Line)
      → All IsPacket a.queue
      → a.lines ≡ good ∷ good ∷ answers a.queue rest
      → b.queue ≡ []
      → (s t : LoopState) × (since : List Line) × (radioloop (one_each a.queue) a ≡ ok s)
        × (s.radio.written ≡ a.written ++ since)
        × (radioloop
              (attentive_each allowed a.queue)
              (record b { lines = good ∷ good ∷ ether.hearsay since })
            ≡ ok t)
        × (t.radio.heard ≡ b.heard ++ a.queue)
  crossing up allowed a b rest fit answered idle =
      let begun = codes "radio rx 0" ∷ codes "sys set pindig GPIO11 1" ∷ turns a.queue in
      let told : ether.hearsay begun ≡ reports a.queue [] =
        ether.unheard _ _ rx_start ∙ ether.unheard _ _ blue_on ∙ hearsay-turns a.queue fit in
      let c = record b { lines = good ∷ good ∷ ether.hearsay begun } in
      (
        _,
        _,
        begun,
        radioloop_drains up a a.queue rest refl answered,
        refl,
        radioloop_hears up allowed c a.queue [] (All-map (λ x (h : IsPacket x). h.0) a.queue fit)
            idle (ap (λ lines. good ∷ good ∷ lines) told),
        refl,
      )

module _ (P : Type 0) {G : Type 0} ⦃e : Enumn⦄ ⦃gc : GraphCrate G⦄ ⦃pc : PacketCrate P⦄
    ⦃os : Platform⦄ ⦃dev : Device⦄ where
  -- Two stations have devices in reach, that take every line. One radio has in its queue the chunks
  -- of a frame, which has a header, a known message type, a right length byte and a route shorter
  -- than 256, and says that it is the last of its message; the chunk size is positive, the chunks
  -- are packets of bytes, fewer than 256, and the device answers every command. The other radio has
  -- heard nothing and has nothing to transmit, and its node keeps no chunk under the key of the
  -- frame. Then both loops return, in a round for each chunk, whatever the limiter of the second
  -- says, and the second node, hearing what its radio heard, acts on the frame itself and keeps no
  -- chunk under its key.
  pub crosses :
      (ether : Ether) (up : AlwaysAccepts dev) (allowed : Bool) (a b : LoStik) (rest : List Line)
      (clock : Clock) (j : ℕ) (n : MeshNode G) (f : Frame) (h : FrameHeader) (kind : MessageType)
      (m : ℕ)
      → 0 < m
      → IsFinal f h
      → e.msg_n f.msgtype ≡ some kind
      → chunked f m ≡ ok a.queue
      → All IsPacket a.queue
      → a.lines ≡ good ∷ good ∷ answers a.queue rest
      → b.queue ≡ []
      → b.heard ≡ []
      → HashMap.get (key_of f) n.rxchunks ≡ none
      → (s t : LoopState) × (since : List Line) × (rx : RxChunks) × (radioloop (one_each a.queue) a
          ≡ ok s)
        × (s.radio.written ≡ a.written ++ since)
        × (radioloop
              (attentive_each allowed a.queue)
              (record b { lines = good ∷ good ∷ ether.hearsay since })
            ≡ ok t)
        × (hear_all P clock j n t.radio.heard ≡ act P clock j (record n { rxchunks = rx }) (some f))
        × (HashMap.get (key_of f) rx ≡ none)
  crosses ether up allowed a b rest clock j n f h kind m p v k cut fit answered idle deaf free =
      let (s, t, since, sent, written, taken, heard) =
        crossing ether up allowed a b rest fit answered idle in
      let (rx, left, whole) = hear_whole P clock j n f h kind m a.queue p v k cut free in
      let all_heard : t.radio.heard ≡ a.queue = heard ∙ ap (λ old. old ++ a.queue) deaf in
      (s, t, since, rx, sent, written, taken, ap (hear_all P clock j n) all_heard ∙ whole, left)
