-- ===== src/Chunk.antt =====
-- src/stack/chunk.rs: `chunk_data` cuts a payload into chunks of `maxlength` bytes.
pub mod Laws
use lora_mesh_rs.Prelude.{
  ℕ, zero, suc, Bool, List, [], ◌∷◌, ◌++◌, ltb, length, take, drop, if◌then◌else◌,
}
use lora_mesh_rs.Prelude.Outcome.{Outcome, ok, diverges}

-- The `loop`, on fuel. `ret` holds the chunks pushed so far; `diverges` means that the fuel ran
-- out.
unfoldable pub chunk_loop : ℕ → List ℕ → ℕ → List (List ℕ) → Outcome (List (List ℕ))
chunk_loop zero rest maxlength ret = diverges
chunk_loop (suc fuel) rest maxlength ret =
    let again = chunk_loop fuel (drop maxlength rest) maxlength (ret ++ take maxlength rest ∷ []) in
    if ltb maxlength (length rest) then again else ok (ret ++ rest ∷ [])

unfoldable pub chunk_data : List ℕ → ℕ → Outcome (List (List ℕ))
chunk_data bytes maxlength = chunk_loop (suc (length bytes)) bytes maxlength []
