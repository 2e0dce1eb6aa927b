-- ===== src/Serial/Lines.antt =====
-- The lines that one end of a serial line writes with `writeln` of src/hardware/serial.rs, and what
-- `serialloop` of src/hardware/lostik.rs gets at the other end.
use lora_mesh_rs.Prelude.{
  ℕ, ◌≡◌, refl, sym, ap, ◌∙◌, Bool, true, false, List, [], ◌∷◌, ◌++◌, some, map, length, All,
  append_assoc, append-nil, map-append, ◌==◌,
}
use lora_mesh_rs.Prelude.Outcome.{Outcome, ok, ◌>>=◌}
use lora_mesh_rs.Message.Utf8.{is_utf8, is_utf8-append}
use lora_mesh_rs.Serial.{
  PortEvent, byte, Port, SerialIo, is_empty, trim, read_line, readln, writeln, serial_round,
  serial_rounds,
}
use lora_mesh_rs.Serial.Trim.{line_end, trim-append}

-- A text without a line feed.
abbrev pub IsLine : List ℕ → Type 0
IsLine text = All (λ b. (b == 10) ≡ false) text × (is_utf8 text ≡ true)

read_line-byte :
    (b : ℕ) (text : List ℕ) (events rest : List PortEvent)
    → (b == 10) ≡ false
    → read_line events ≡ ok (text, rest)
    → read_line (byte b ∷ events) ≡ ok (b ∷ text, rest)
unfolding read_line
read_line-byte b text events rest h e = rw (h, e)

read_line-bytes :
    (text : List ℕ) (rest : List PortEvent)
    → All (λ b. (b == 10) ≡ false) text
    → read_line (map byte (text ++ line_end) ++ rest) ≡ ok (text ++ line_end, rest)
unfolding read_line
read_line-bytes [] rest h = refl
read_line-bytes (b ∷ text) rest h =
    read_line-byte b (text ++ line_end) (map byte (text ++ line_end) ++ rest) rest h.0
      (read_line-bytes text rest h.1)

is_empty-append : (text : List ℕ) → is_empty (text ++ line_end) ≡ false
is_empty-append [] = refl
is_empty-append (b ∷ text) = refl

end_utf8 : is_utf8 line_end ≡ true
unfolding is_utf8
end_utf8 = refl

readln-bytes :
    (s : SerialIo) (text : List ℕ) (rest : List PortEvent)
    → IsLine text
    → readln (record s { incoming = map byte (text ++ line_end) ++ rest })
      ≡ ok (record s { incoming = rest }, some (trim text))
unfolding readln
readln-bytes s text rest h = rw (
  read_line-bytes text rest h.0,
  is_utf8-append text line_end h.1 end_utf8,
  is_empty-append text,
  trim-append text,
)

-- Lines written one after the other, whether the port takes them or not.
abbrev pub write_lines : ⦃port : Port⦄ → SerialIo → List (List ℕ) → SerialIo
write_lines s [] = s
write_lines s (text ∷ lines) = write_lines (writeln s text).0 lines

abbrev pub on_wire : List (List ℕ) → List ℕ
on_wire [] = []
on_wire (text ∷ lines) = (text ++ line_end) ++ on_wire lines

writeln-takes :
    ⦃port : Port⦄ (s : SerialIo) (text : List ℕ)
    → port.takes s.outgoing (text ++ line_end) ≡ true
    → writeln s text ≡ (record s { outgoing = s.outgoing ++ (text ++ line_end) }, true)
unfolding writeln
writeln-takes s text h = rw h

write_lines-outgoing :
    ⦃port : Port⦄ (s : SerialIo) (lines : List (List ℕ))
    → ((ran bytes : List ℕ) → port.takes ran bytes ≡ true)
    → (write_lines s lines).outgoing ≡ s.outgoing ++ on_wire lines
write_lines-outgoing s [] up = sym (append-nil s.outgoing)
write_lines-outgoing s (text ∷ lines) up =
    let written = record s { outgoing = s.outgoing ++ (text ++ line_end) } in
    ap (λ (p : SerialIo × Bool). (write_lines p.0 lines).outgoing)
      (writeln-takes s text (up s.outgoing (text ++ line_end)))
    ∙ write_lines-outgoing written lines up
    ∙ append_assoc s.outgoing (text ++ line_end) (on_wire lines)

events_append :
    (xs ys : List ℕ) (rest : List PortEvent)
    → map byte (xs ++ ys) ++ rest ≡ map byte xs ++ (map byte ys ++ rest)
events_append xs ys rest =
    ap (λ es. es ++ rest) (map-append byte xs ys) ∙ append_assoc (map byte xs) (map byte ys) rest

serial_round-bytes :
    (s : SerialIo) (text : List ℕ) (sent : List (List ℕ)) (rest : List PortEvent)
    → IsLine text
    → serial_round (record s { incoming = map byte (text ++ line_end) ++ rest }) sent
      ≡ ok (record s { incoming = rest }, sent ++ trim text ∷ [])
unfolding serial_round
serial_round-bytes s text sent rest h = rw (readln-bytes s text rest h)

serial_rounds-on_wire :
    (s : SerialIo) (lines sent : List (List ℕ)) (rest : List PortEvent)
    → All IsLine lines
    → serial_rounds (length lines) (record s { incoming = map byte (on_wire lines) ++ rest }) sent
      ≡ ok (record s { incoming = rest }, sent ++ map trim lines)
unfolding serial_rounds
serial_rounds-on_wire s [] sent rest h =
    ap (λ xs. ok (record s { incoming = rest }, xs)) (sym (append-nil sent))
serial_rounds-on_wire s (text ∷ lines) sent rest h =
    let next : SerialIo × List (List ℕ) → Outcome (SerialIo × List (List ℕ)) =
      λ p. serial_rounds (length lines) p.0 p.1 in
    let more = map byte (on_wire lines) ++ rest in
    ap (λ es. serial_round (record s { incoming = es }) sent >>= next)
      (events_append (text ++ line_end) (on_wire lines) rest)
    ∙ ap (λ m. m >>= next) (serial_round-bytes s text sent more h.0)
    ∙ serial_rounds-on_wire s lines (sent ++ trim text ∷ []) rest h.1
    ∙ ap (λ xs. ok (record s { incoming = rest }, xs))
        (append_assoc sent (trim text ∷ []) (map trim lines))

-- One end writes well-formed lines without line feeds to a port that takes them. At the other end,
-- where these bytes come in before anything else, as many rounds of `serialloop` as there are lines
-- return, and have sent the lines down the channel, in order, each without the white space around
-- it, and nothing else; what came behind them is still to be read.
pub serial_rounds-writeln :
    ⦃port : Port⦄ (peer s : SerialIo) (lines sent : List (List ℕ)) (rest : List PortEvent)
    → ((ran bytes : List ℕ) → port.takes ran bytes ≡ true)
    → peer.outgoing ≡ []
    → All IsLine lines
    → s.incoming ≡ map byte (write_lines peer lines).outgoing ++ rest
    → serial_rounds (length lines) s sent
      ≡ ok (record s { incoming = rest }, sent ++ map trim lines)
serial_rounds-writeln peer s lines sent rest up bare plain comes =
    let wire : (write_lines peer lines).outgoing ≡ on_wire lines =
      write_lines-outgoing peer lines up ∙ ap (λ xs. xs ++ on_wire lines) bare in
    let incoming : s.incoming ≡ map byte (on_wire lines) ++ rest =
      comes ∙ ap (λ xs. map byte xs ++ rest) wire in
    ap (λ es. serial_rounds (length lines) (record s { incoming = es }) sent) incoming
    ∙ serial_rounds-on_wire s lines sent rest plain
