-- ===== src/Serial/Opened.antt =====
-- A serial line whose two ends `SerialIO::new` of src/hardware/serial.rs has opened.
use lora_mesh_rs.Prelude.{
  ℕ, ◌≡◌, refl, sym, ap, ◌∙◌, true, List, [], ◌++◌, Option, none, some, map, length, All,
}
use lora_mesh_rs.Prelude.Outcome.{ok, some_inj}
use lora_mesh_rs.Serial
use lora_mesh_rs.Serial.{
  PortEvent, byte, Port, PortCrate, SerialIo, with_reader, with_writer, port_settings,
  serial_rounds, trim,
}
use lora_mesh_rs.Serial.Lines.{IsLine, write_lines, serial_rounds-writeln}

module _ ⦃crate : PortCrate⦄ where
  -- What is known of a port that could be opened and cloned.
  abbrev Opened : List ℕ → SerialIo → Type 0
  Opened name s =
      (readport writeport : crate.SerialPort) × (crate.open_with_settings name port_settings
        ≡ some readport)
      × (crate.try_clone readport ≡ some writeport)
      × (s.portname ≡ name)
      × (s.incoming ≡ crate.reads readport)
      × (s.outgoing ≡ [])

  writer-Opened :
      (name : List ℕ) (s : SerialIo) (readport : crate.SerialPort) (w : Option crate.SerialPort)
      → crate.open_with_settings name port_settings ≡ some readport
      → crate.try_clone readport ≡ w
      → with_writer name readport w ≡ some s
      → Opened name s
  writer-Opened name s r none o e h = cc
  writer-Opened name s r (some w) o e h = (
    r,
    w,
    o,
    e,
    ap (λ (x : SerialIo). x.portname) (sym (some_inj h)),
    ap (λ (x : SerialIo). x.incoming) (sym (some_inj h)),
    ap (λ (x : SerialIo). x.outgoing) (sym (some_inj h)),
  )

  reader-Opened :
      (name : List ℕ) (s : SerialIo) (r : Option crate.SerialPort)
      → crate.open_with_settings name port_settings ≡ r
      → with_reader name r ≡ some s
      → Opened name s
  reader-Opened name s none o h = cc
  reader-Opened name s (some r) o h = writer-Opened name s r (crate.try_clone r) o refl h

  new-Opened : (name : List ℕ) (s : SerialIo) → Serial.new name ≡ some s → Opened name s
  unfolding Serial.new
  new-Opened name s h = reader-Opened name s (crate.open_with_settings name port_settings) refl h

  -- Two ports were opened by `SerialIO::new`, and one end writes well-formed lines without line
  -- feeds to a port that takes them. At the other end, where the port gives these bytes before
  -- anything else, as many rounds of `serialloop` as there are lines return, and have sent the
  -- lines down the channel, in order, each without the white space around it, and nothing else;
  -- what came behind them is still to be read, and nothing was written at this end.
  pub serial_rounds-opened :
      ⦃port : Port⦄ (near far : List ℕ) (peer s : SerialIo) (lines sent : List (List ℕ))
      (rest : List PortEvent)
      → ((ran bytes : List ℕ) → port.takes ran bytes ≡ true)
      → Serial.new near ≡ some peer
      → Serial.new far ≡ some s
      → All IsLine lines
      → s.incoming ≡ map byte (write_lines peer lines).outgoing ++ rest
      → serial_rounds (length lines) s sent
        ≡ ok (record { portname = far; incoming = rest; outgoing = [] }, sent ++ map trim lines)
  serial_rounds-opened near far peer s lines sent rest up near_open far_open plain comes =
      let (_, _, _, _, _, _, bare) = new-Opened near peer near_open in
      let (_, _, _, _, name, _, clean) = new-Opened far s far_open in
      serial_rounds-writeln peer s lines sent rest up bare plain comes ∙ (λ i.
        ok (
          record { portname = name i; incoming = rest; outgoing = clean i },
          sent ++ map trim lines,
        ))
