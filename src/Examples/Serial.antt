-- ===== src/Examples/Serial.antt =====
-- The theorems on the serial line.
use lora_mesh_rs.Prelude.{
  ℕ, All, ◌≡◌, ◌⊎◌, refl, Bool, true, List, [], ◌∷◌, ◌++◌, map, ◌==◌, ◌&&◌, ◌||◌, bytes_beq, some,
  none, if◌then◌else◌,
}
use lora_mesh_rs.Prelude.Outcome.{ok, diverges}
use lora_mesh_rs.Prelude.Text.{codes}
use lora_mesh_rs.Message.Utf8.{is_utf8}
use lora_mesh_rs.Settings.{defaults}
use lora_mesh_rs.Serial
use lora_mesh_rs.Serial.{
  byte, eof, Port, PortCrate, PortSettings, port_settings, SerialIo, trim, trim_start, trim_end,
  serial_rounds, writeln, readln, read_line,
}
use lora_mesh_rs.Serial.Lines.{IsLine, write_lines}
use lora_mesh_rs.Serial.Opened.{serial_rounds-opened}
use lora_mesh_rs.Radio.{LoStik}
use lora_mesh_rs.Radio.Loop.{LoopState, RadioInput, radioloop}
use lora_mesh_rs.Radio.Quiet.{radioloop_quiet}
use lora_mesh_rs.Examples.Hex.{the_device}

instance abbrev open_port : Port
open_port = record { takes = λ ran bytes. true }

-- White space of one, two and three bytes is left out at both ends, not inside.
trims :
    trim (0xc2 ∷ 0xa0 ∷ 32 ∷ 111 ∷ 32 ∷ 107 ∷ 0xe2 ∷ 0x80 ∷ 0x83 ∷ 13 ∷ 10 ∷ [])
    ≡ 111 ∷ 32 ∷ 107 ∷ []
unfolding trim trim_start trim_end
trims = refl

abbrev peer : SerialIo
peer = record { portname = codes "/dev/pts/1"; incoming = []; outgoing = [] }

abbrev two_lines : List (List ℕ)
two_lines = codes "ok" ∷ codes "radio_rx " ∷ []

abbrev wired : SerialIo
wired = record {
  portname = codes "/dev/ttyUSB0";
  incoming = map byte (codes "ok" ++ (13 ∷ 10 ∷ codes "radio_rx " ++ 13 ∷ 10 ∷ [])) ++ eof ∷ [];
  outgoing = [];
}

-- Two ports that can be opened with the program's settings. The second is the radio's.
abbrev can_open : List ℕ → PortSettings → Bool
can_open name settings =
    settings.baud_rate == 57600 && (bytes_beq name peer.portname || bytes_beq name wired.portname)

instance abbrev ports : PortCrate
ports = record {
  SerialPort = List ℕ;
  open_with_settings = λ name settings. if can_open name settings then some name else none;
  try_clone = λ name. some name;
  reads = λ name. if bytes_beq name wired.portname then wired.incoming else [];
}

peer_opens : Serial.new peer.portname ≡ some peer
unfolding Serial.new port_settings
peer_opens = refl

wired_opens : Serial.new wired.portname ≡ some wired
unfolding Serial.new port_settings
wired_opens = refl

-- Another port cannot be opened.
no_port_there : Serial.new (codes "/dev/ttyUSB1") ≡ none
unfolding Serial.new port_settings
no_port_there = refl

abbrev spent : SerialIo
spent = record wired { incoming = eof ∷ [] }

two_lines-IsLine : All IsLine two_lines
unfolding is_utf8
two_lines-IsLine = (
  ((refl, (refl, tt)), refl),
  (((refl, (refl, (refl, (refl, (refl, (refl, (refl, (refl, (refl, tt))))))))), refl), tt),
)

wires : wired.incoming ≡ map byte (write_lines peer two_lines).outgoing ++ eof ∷ []
unfolding writeln
wires = refl

serial_rounds-opened_example :
    serial_rounds 2 wired [] ≡ ok (spent, trim (codes "ok") ∷ trim (codes "radio_rx ") ∷ [])
serial_rounds-opened_example =
    serial_rounds-opened peer.portname wired.portname peer wired two_lines [] (eof ∷ [])
      (λ ran bytes. refl) peer_opens wired_opens two_lines-IsLine wires

abbrev waiting : LoStik
waiting = record {
  opt = defaults;
  written = [];
  lines = codes "ok" ∷ codes "radio_rx" ∷ [];
  queue = [];
  connected = true;
  heard = [];
}

reads : serial_rounds 2 wired [] ≡ ok (spent, waiting.lines)
unfolding serial_rounds trim trim_start trim_end is_utf8 read_line readln
reads = refl

abbrev idle : RadioInput
idle = record { arrived = []; may_send = true; burst = []; may_still = true; line_ready = true }

radioloop_quiet_example :
    (radioloop (idle ∷ []) waiting ≡ diverges)
    ⊎ ((t : LoopState) × (radioloop (idle ∷ []) waiting ≡ ok t))
radioloop_quiet_example = radioloop_quiet 2 wired spent (idle ∷ []) waiting reads refl
