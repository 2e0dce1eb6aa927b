-- ===== src/Radio/Receiver.antt =====
-- What src/hardware/lostik.rs does with a line that reports a packet.
use lora_mesh_rs.Prelude.{ℕ, ◌≡◌, List, [], ◌∷◌, ◌++◌, arith, length, le→leb, All}
use lora_mesh_rs.Prelude.Outcome.{ok}
use lora_mesh_rs.Prelude.Text.{codes}
use lora_mesh_rs.Util.{IsByte}
use lora_mesh_rs.Radio.{Device, LoStik, done, onrx, slice_from}

module _ ⦃dev : Device⦄ where
  -- A line of the device that holds the hexadecimal digits of bytes, two blanks behind `radio_rx`,
  -- hands these bytes to the node and changes nothing else.
  pub onrx-encode :
      (l : LoStik) (bytes : List ℕ)
      → All IsByte bytes
      → onrx l (codes "radio_rx  " ++ dev.encode bytes)
        ≡ ok (record l { heard = l.heard ++ bytes ∷ [] }, done)
  unfolding onrx slice_from
  onrx-encode l bytes b = rw (
    le→leb 10 (length (codes "radio_rx  " ++ dev.encode bytes)) (omega arith),
    dev.decode-encode bytes b,
  )
