-- ===== src/Serial.antt =====
-- src/hardware/serial.rs: the serial line, as bytes that come in and bytes that go out; and
-- `serialloop` of src/hardware/lostik.rs, which reads it line by line.
pub mod Trim
pub mod Lines
pub mod Fit
pub mod Opened
use lora_mesh_rs.Prelude.{
  ℕ, zero, suc, ◌*◌, Bool, true, false, ◌&&◌, ◌||◌, List, [], ◌∷◌, ◌++◌, Option, none, some, ◌==◌,
  leb, if◌then◌else◌,
}
use lora_mesh_rs.Prelude.Outcome.{
  Outcome, ok, panic, diverges, read_failed, bad_utf8, ◌>>=◌, ◌>>◌, assert,
}
use lora_mesh_rs.Message.Utf8.{is_utf8}

-- What a read of the port gives: a byte, nothing (the end of the file, for now), or an error.
pub data PortEvent : Type 0 where
  byte : ℕ → PortEvent
  eof failure : PortEvent

-- What is outside: whether the port takes these bytes after those that it took.
pub record Port : Type 0 where
  pub takes : List ℕ → List ℕ → Bool

pub record SerialIo : Type 0 where
  pub portname : List ℕ
  pub incoming : List PortEvent
  pub outgoing : List ℕ

-- `SerialPortSettings` of the crate serialport; the timeout is in seconds.
pub data DataBits : Type 0 where
  five six seven eight : DataBits

pub data FlowControl : Type 0 where
  no_flow_control software hardware : FlowControl

pub data Parity : Type 0 where
  no_parity odd even : Parity

pub data StopBits : Type 0 where
  one two : StopBits

pub record PortSettings : Type 0 where
  pub baud_rate : ℕ
  pub data_bits : DataBits
  pub flow_control : FlowControl
  pub parity : Parity
  pub stop_bits : StopBits
  pub timeout : ℕ

-- The crate serialport: how a port is opened, and what comes in on it.
pub record PortCrate : Type 1 where
  pub SerialPort : Type 0
  pub open_with_settings : List ℕ → PortSettings → Option SerialPort
  pub try_clone : SerialPort → Option SerialPort
  pub reads : SerialPort → List PortEvent

-- The settings in `SerialIO::new`
unfoldable pub port_settings : PortSettings
port_settings = record {
  baud_rate = 57600;
  data_bits = eight;
  flow_control = no_flow_control;
  parity = no_parity;
  stop_bits = one;
  timeout = 60 * 60 * 24 * 365 * 20;
}

module _ ⦃crate : PortCrate⦄ where
  abbrev pub with_writer : List ℕ → crate.SerialPort → Option crate.SerialPort → Option SerialIo
  with_writer portname readport none = none
  with_writer portname readport (some writeport) =
      some (record { portname = portname; incoming = crate.reads readport; outgoing = [] })

  abbrev pub with_reader : List ℕ → Option crate.SerialPort → Option SerialIo
  with_reader portname none = none
  with_reader portname (some readport) = with_writer portname readport (crate.try_clone readport)

  -- `SerialIO::new`: nothing where the port cannot be opened, or not be cloned.
  unfoldable pub new : List ℕ → Option SerialIo
  unfolding port_settings
  new portname = with_reader portname (crate.open_with_settings portname port_settings)

-- The length of the white space at the front, in bytes: `char::is_whitespace` on UTF-8.
abbrev third_space : ℕ → ℕ → ℕ → Bool
third_space a b c =
    (a == 0xe1 && b == 0x9a && c == 0x80)
    || (a == 0xe2
        && b == 0x80
        && ((leb 0x80 c && leb c 0x8a) || c == 0xa8 || c == 0xa9 || c == 0xaf))
    || (a == 0xe2 && b == 0x81 && c == 0x9f)
    || (a == 0xe3 && b == 0x80 && c == 0x80)

abbrev three_bytes : ℕ → ℕ → List ℕ → ℕ
three_bytes a b [] = 0
three_bytes a b (c ∷ rest) = if third_space a b c then 3 else 0

abbrev more_bytes : ℕ → List ℕ → ℕ
more_bytes a [] = 0
more_bytes a (b ∷ rest) = if a == 0xc2 && (b == 0x85 || b == 0xa0) then 2 else three_bytes a b rest

abbrev pub space_size : List ℕ → ℕ
space_size [] = 0
space_size (a ∷ rest) = if (leb 9 a && leb a 13) || a == 32 then 1 else more_bytes a rest

-- Leaves out `n` bytes, and then white space.
abbrev pub skip_space : ℕ → List ℕ → List ℕ
skip_space n [] = []
skip_space (suc n) (x ∷ xs) = skip_space n xs
skip_space zero (x ∷ xs) = elim (space_size (x ∷ xs)) [ zero ↦ x ∷ xs | suc n ↦ skip_space n xs ]

abbrev pub is_empty : List ℕ → Bool
is_empty [] = true
is_empty (x ∷ xs) = false

-- `str::trim_start`, `str::trim_end`, `str::trim`
unfoldable pub trim_start : List ℕ → List ℕ
trim_start text = skip_space 0 text

unfoldable pub trim_end : List ℕ → List ℕ
trim_end [] = []
trim_end (x ∷ xs) =
    let rest = trim_end xs in if is_empty (skip_space 0 (x ∷ xs)) then [] else x ∷ rest

unfoldable pub trim : List ℕ → List ℕ
unfolding trim_start trim_end
trim text = trim_end (trim_start text)

-- `BufRead::read_line`: up to a line feed, which is kept, or the end of the file. It waits while
-- nothing comes.
unfoldable pub read_line : List PortEvent → Outcome (List ℕ × List PortEvent)
read_line [] = diverges
read_line (failure ∷ events) = panic read_failed
read_line (eof ∷ events) = ok ([], events)
read_line (byte b ∷ events) =
    let more = (read_line events >>= λ (line, rest). ok (b ∷ line, rest)) in
    if b == 10 then ok (b ∷ [], events) else more

-- `SerialIO::readln`; bytes that are not UTF-8 are an error of `read_line`.
unfoldable pub readln : SerialIo → Outcome (SerialIo × Option (List ℕ))
unfolding read_line trim is_utf8
readln s = do
  (buf, rest) ← read_line s.incoming
  assert (is_utf8 buf) bad_utf8
  let s' = record s { incoming = rest }
  ok (s', if is_empty buf then none else some (trim buf))

-- `SerialIO::writeln`: whether it ended well, and the line with its end.
unfoldable pub writeln : ⦃port : Port⦄ → SerialIo → List ℕ → SerialIo × Bool
writeln ⦃port⦄ s text =
    if port.takes s.outgoing (text ++ 13 ∷ 10 ∷ [])
    then (record s { outgoing = s.outgoing ++ (text ++ 13 ∷ 10 ∷ []) }, true)
    else (s, false)

-- A round of `serialloop`: the line goes down the channel, an end of the file is passed over.
unfoldable pub serial_round : SerialIo → List (List ℕ) → Outcome (SerialIo × List (List ℕ))
unfolding readln
serial_round s sent = do
  (s', line) ← readln s
  ok (s', elim line [ none ↦ sent | some l ↦ sent ++ l ∷ [] ])

-- `n` rounds of `serialloop`.
unfoldable pub serial_rounds : ℕ → SerialIo → List (List ℕ) → Outcome (SerialIo × List (List ℕ))
unfolding serial_round
serial_rounds zero s sent = ok (s, sent)
serial_rounds (suc n) s sent = do (s', sent') ← serial_round s sent; serial_rounds n s' sent'
