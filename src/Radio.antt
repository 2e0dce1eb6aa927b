-- ===== src/Radio.antt =====
-- src/hardware/lostik.rs: the radio, a device that takes commands as lines of text over a serial
-- line and answers with lines. A line is the list of its bytes, without its end. Most methods
-- return `io::Result<()>`, which their callers drop, while what they did stays: a call returns the
-- radio afterwards and how it ended.
pub mod Loop
pub mod Receiver
pub mod Mode
pub mod Tracks
pub mod Keeps
pub mod Setup
pub mod Serves
pub mod Rules
pub mod Rounds
pub mod Serving
pub mod Sends
pub mod Quiet
pub mod Drain
pub mod Hears
pub mod Turns
pub mod Limits
use lora_mesh_rs.Prelude.{
  ℕ, ◌≡◌, Bool, true, false, not, List, [], ◌∷◌, ◌++◌, Option, none, some, ltb, ◌==◌, if◌then◌else◌,
  length, drop, leb, bytes_beq, take, All,
}
use lora_mesh_rs.Prelude.Outcome.{
  Outcome, ok, panic, diverges, out_of_range, no_port, disconnected, read_failed, ◌>>=◌, expect,
}
use lora_mesh_rs.Prelude.Text.{codes}
use lora_mesh_rs.Util.{IsByte}
use lora_mesh_rs.Settings.{Settings}

abbrev pub Line : Type 0
Line = List ℕ

-- What is outside: whether the port takes a line after those written, and the crate `hex`, which
-- decodes to bytes, and decodes what it encodes.
pub record Device : Type 0 where
  pub accepts : List Line → Line → Bool
  pub encode : List ℕ → Line
  pub decode : Line → Option (List ℕ)
  pub decode-encode : (bytes : List ℕ) → All IsByte bytes → decode (encode bytes) ≡ some bytes
  pub decode_bytes : (line : Line) (bytes : List ℕ) → decode line ≡ some bytes → All IsByte bytes

-- `lines` are the lines that `serialloop` sends from now on, and `connected` says whether it then
-- still runs: a thread that has panicked has dropped its end of the channel; `queue` the frames to
-- transmit, `heard` those received for the node, oldest first.
pub record LoStik : Type 0 where
  pub opt : Settings
  pub written : List Line
  pub lines : List Line
  pub connected : Bool
  pub queue : List (List ℕ)
  pub heard : List (List ℕ)

-- `LoStik::new`, where the port can be opened: `port` are the lines that `serialloop` will send,
-- and whether it goes on after them.
unfoldable pub new : Settings → Option (List Line × Bool) → Outcome LoStik
new opt port = do
  (lines, connected) ← expect port no_port
  ok (record {
    opt = opt;
    written = [];
    lines = lines;
    connected = connected;
    queue = [];
    heard = [];
  })

-- `io::Result<()>`
pub data IoResult : Type 0 where
  done failed : IoResult

abbrev pub Call : Type 0
Call = Outcome (LoStik × IoResult)

-- `m?; k`
abbrev pub and_then : Call → (LoStik → Call) → Call
and_then m k = m >>= λ (l, r). elim r [ done ↦ k l | failed ↦ ok (l, failed) ]

-- `m;`, with its result dropped
abbrev pub ignore : Call → Outcome LoStik
ignore m = m >>= λ (l, r). ok l

-- `readerlinesrx.recv().unwrap()`, which waits for a line: for ever, if none comes and `serialloop`
-- goes on; it panics, where that has ended.
unfoldable pub recv : LoStik → Outcome (LoStik × Line)
recv l = elim l.lines [
  | [] ↦ if l.connected then diverges else panic disconnected
  | line ∷ rest ↦ ok (record l { lines = rest }, line)
]

-- `readerlinesrx.recv();`, with its result dropped: where `serialloop` has ended it goes on.
unfoldable pub recv_any : LoStik → Outcome LoStik
recv_any l = elim l.lines [
  | [] ↦ if l.connected then diverges else ok l
  | line ∷ rest ↦ ok (record l { lines = rest })
]

-- `assert_response`
unfoldable pub assert_response : Line → Line → IoResult
assert_response resp expected = if bytes_beq resp expected then done else failed

abbrev pub starts_with : Line → Line → Bool
starts_with line prefix = bytes_beq (take (length prefix) line) prefix

-- `&bytes[n..]`
unfoldable pub slice_from : Line → ℕ → Outcome Line
slice_from line n = if leb n (length line) then ok (drop n line) else panic out_of_range

module _ ⦃dev : Device⦄ where
  -- `SerialIO::writeln`
  unfoldable pub writeln : LoStik → Line → Call
  writeln l line =
      if dev.accepts l.written line
      then ok (record l { written = l.written ++ line ∷ [] }, done)
      else ok (l, failed)

  -- The four methods for the lights: the command and its answer, with both results dropped.
  unfoldable pub light : LoStik → Line → Outcome LoStik
  unfolding writeln recv_any
  light l command = do l1 ← ignore (writeln l command); recv_any l1

  abbrev pub redledon : LoStik → Outcome LoStik
  redledon l = light l (codes "sys set pindig GPIO10 1")

  abbrev pub redledoff : LoStik → Outcome LoStik
  redledoff l = light l (codes "sys set pindig GPIO10 0")

  abbrev pub blueledon : LoStik → Outcome LoStik
  blueledon l = light l (codes "sys set pindig GPIO11 1")

  abbrev pub blueledoff : LoStik → Outcome LoStik
  blueledoff l = light l (codes "sys set pindig GPIO11 0")

  -- `onrx`
  unfoldable pub onrx : LoStik → Line → Call
  unfolding slice_from
  onrx l msg =
      if starts_with msg (codes "radio_rx ")
      then (do
        text ← slice_from msg 10
        elim (dev.decode text) [
          | none ↦ ok (l, failed)
          | some decoded ↦ ok (record l { heard = l.heard ++ decoded ∷ [] }, done)
        ])
      else ok (l, done)

  -- `oninit`
  unfoldable pub oninit : LoStik → Call
  unfolding recv
  oninit l = do
    (l1, line) ← recv l
    ok (l1, if bytes_beq line (codes "invalid_param") then failed else done)

  -- A response, and another if the first is `radio_err`.
  unfoldable pub response : LoStik → Outcome (LoStik × Line)
  unfolding recv
  response l = do
    (l1, line) ← recv l
    if bytes_beq line (codes "radio_err") then recv l1 else ok (l1, line)

  -- `rxstart`
  unfoldable pub rxstart : LoStik → Call
  unfolding writeln response assert_response light
  rxstart l = and_then (writeln l (codes "radio rx 0")) (λ l1.
      and_then (response l1 >>= λ (l2, line). ok (l2, assert_response line (codes "ok")))
        (λ l2. blueledon l2 >>= λ l3. ok (l3, done)))

  -- The answer to `radio rxstop`: where a packet was coming in, it is taken, and its answer read.
  unfoldable pub rxstop_race : LoStik → Line → Call
  unfolding onrx recv
  rxstop_race l line =
      if starts_with line (codes "radio_rx ")
      then and_then (onrx l line) (λ l1. recv l1 >>= λ (l2, last). ok (l2, done))
      else ok (l, done)

  -- `rxstop`
  unfoldable pub rxstop : LoStik → Call
  unfolding writeln recv rxstop_race light
  rxstop l = and_then (writeln l (codes "radio rxstop")) (λ l1.
      and_then (recv l1 >>= λ (l2, line). rxstop_race l2 line)
        (λ l2. blueledoff l2 >>= λ l3. ok (l3, done)))

  -- The line that transmits a frame.
  abbrev pub tx_line : List ℕ → Line
  tx_line bytes = codes "radio tx " ++ dev.encode bytes

  -- `tx`
  unfoldable pub tx : LoStik → List ℕ → Call
  unfolding light writeln response assert_response recv
  tx l bytes = redledon l >>= λ l1. and_then (writeln l1 (tx_line bytes)) (λ l2.
      and_then (response l2 >>= λ (l3, line). ok (l3, assert_response line (codes "ok")))
        (λ l3. recv l3 >>= λ (l4, ack). redledoff l4 >>= λ l5. ok (l5, done)))

  -- The loop of `init` over the lines of the configuration.
  unfoldable pub configure : LoStik → List Line → Call
  unfolding writeln oninit
  configure l [] = ok (l, done)
  configure l (line ∷ rest) =
      if ltb 0 (length line)
      then and_then (writeln l line) (λ l1. and_then (oninit l1) (λ l2. configure l2 rest))
      else configure l rest

-- The lines that `init` sends without a file.
unfoldable pub default_init : List Line
default_init =
    codes "sys get ver"
    ∷ codes "mac reset"
    ∷ codes "mac pause"
    ∷ codes "radio get mod"
    ∷ codes "radio get freq"
    ∷ codes "radio get pwr"
    ∷ codes "radio get sf"
    ∷ codes "radio get bw"
    ∷ codes "radio get cr"
    ∷ codes "radio get wdt"
    ∷ codes "radio set pwr 22"
    ∷ codes "radio set sf sf12"
    ∷ codes "radio set bw 125"
    ∷ codes "radio set cr 4/5"
    ∷ codes "radio set wdt 60000"
    ∷ []

-- `reader.lines().map(|l| l.unwrap()).collect()`: a line that cannot be read is a panic.
unfoldable pub read_lines : List (Option Line) → Outcome (List Line)
read_lines [] = ok []
read_lines (line ∷ rest) = do l ← expect line read_failed; ls ← read_lines rest; ok (l ∷ ls)

-- `init`: without a file the default lines; `file` is what reading the file gives, line by line, or
-- nothing where it cannot be opened. `ready` lines have come when the device had its second.
unfoldable pub init : ⦃dev : Device⦄ → LoStik → ℕ → Option (Option (List (Option Line))) → Call
unfolding writeln configure default_init read_lines
init l ready initfile = and_then (writeln l (codes "INVALIDCOMMAND")) (λ l1.
    let l2 = record l1 { lines = drop ready l1.lines } in
    elim initfile [
      | none ↦ configure l2 default_init
      | some none ↦ ok (l2, failed)
      | some (some file) ↦ read_lines file >>= configure l2
    ])
