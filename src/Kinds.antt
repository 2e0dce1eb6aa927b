-- ===== src/Kinds.antt =====
-- The enums of the wire format: `TransmissionState` of src/stack/frame.rs and `MessageType` of
-- src/stack/message/message.rs. Their conversions from a byte are generated by
-- the derive macro `enumn::N`, which is not part of the repository: an interface.
use lora_mesh_rs.Prelude.{
  ℕ, zero, suc, ◌≤◌, ◌≡◌, Bool, true, false, Option, none, some, arith, inl, inr, Option-cases,
}

pub data TransmissionState : Type 0 where
  final_chunk more_chunks slot_exceeded : TransmissionState

pub data MessageType : Type 0 where
  broadcast ip_assign_success ip_assign_failure : MessageType
  route_discovery route_success route_failure : MessageType
  transmit_request transmit_confirm ip_packet : MessageType

-- `TransmissionState::to_u8`
unfoldable pub tx_to_u8 : TransmissionState → ℕ
tx_to_u8 final_chunk = 0
tx_to_u8 more_chunks = 1
tx_to_u8 slot_exceeded = 2

-- `TransmissionState::more_chunks`
unfoldable pub has_more_chunks : TransmissionState → Bool
has_more_chunks final_chunk = false
has_more_chunks more_chunks = true
has_more_chunks slot_exceeded = true

-- `MessageType::to_u8`
unfoldable pub msg_to_u8 : MessageType → ℕ
msg_to_u8 broadcast = 1
msg_to_u8 ip_assign_success = 2
msg_to_u8 ip_assign_failure = 3
msg_to_u8 route_discovery = 4
msg_to_u8 route_success = 5
msg_to_u8 route_failure = 6
msg_to_u8 transmit_request = 7
msg_to_u8 transmit_confirm = 8
msg_to_u8 ip_packet = 9

-- What `#[derive(N)]` documents: `n` returns the variant with the given discriminant.
pub record Enumn : Type 0 where
  pub tx_n : ℕ → Option TransmissionState
  pub msg_n : ℕ → Option MessageType
  pub tx_n_of : (s : TransmissionState) → tx_n (tx_to_u8 s) ≡ some s
  pub tx_n_only : (k : ℕ) (s : TransmissionState) → tx_n k ≡ some s → tx_to_u8 s ≡ k
  pub msg_n_of : (m : MessageType) → msg_n (msg_to_u8 m) ≡ some m
  pub msg_n_only : (k : ℕ) (m : MessageType) → msg_n k ≡ some m → msg_to_u8 m ≡ k

tx_to_u8-le : (s : TransmissionState) → tx_to_u8 s ≤ 2
unfolding tx_to_u8
tx_to_u8-le s = ground arith

msg_to_u8-le : (m : MessageType) → (1 ≤ msg_to_u8 m) × (msg_to_u8 m ≤ 9)
unfolding msg_to_u8
msg_to_u8-le m = ground arith

module _ ⦃e : Enumn⦄ where
  -- A byte above the discriminants is no transmission state.
  pub tx_n-none : (k : ℕ) → 3 ≤ k → e.tx_n k ≡ none
  tx_n-none k h = elim (Option-cases (e.tx_n k)) [
    | inl p ↦ p
    | inr (s, p) ↦ absurd (omega (arith, e.tx_n_only k s p, tx_to_u8-le s))
  ]

  -- A byte outside the discriminants is no message type.
  pub msg_n-none : (k : ℕ) → (1 ≤ k → 10 ≤ k) → e.msg_n k ≡ none
  msg_n-none k h = elim (Option-cases (e.msg_n k)) [
    | inl p ↦ p
    | inr (m, p) ↦ absurd (omega (arith, e.msg_n_only k m p, msg_to_u8-le m))
  ]

-- The generated functions, for tests: they search the discriminants.
abbrev pub tx_of : ℕ → Option TransmissionState
tx_of zero = some final_chunk
tx_of (suc zero) = some more_chunks
tx_of (suc (suc zero)) = some slot_exceeded
tx_of _ = none

abbrev pub msg_of : ℕ → Option MessageType
msg_of (suc zero) = some broadcast
msg_of (suc (suc zero)) = some ip_assign_success
msg_of (suc (suc (suc zero))) = some ip_assign_failure
msg_of (suc (suc (suc (suc zero)))) = some route_discovery
msg_of (suc (suc (suc (suc (suc zero))))) = some route_success
msg_of (suc (suc (suc (suc (suc (suc zero)))))) = some route_failure
msg_of (suc (suc (suc (suc (suc (suc (suc zero))))))) = some transmit_request
msg_of (suc (suc (suc (suc (suc (suc (suc (suc zero)))))))) = some transmit_confirm
msg_of (suc (suc (suc (suc (suc (suc (suc (suc (suc zero))))))))) = some ip_packet
msg_of _ = none

pub tx_of-only : (k : ℕ) (s : TransmissionState) → tx_of k ≡ some s → tx_to_u8 s ≡ k
unfolding tx_to_u8
tx_of-only k s h = ground arith

pub msg_of-only : (k : ℕ) (m : MessageType) → msg_of k ≡ some m → msg_to_u8 m ≡ k
unfolding msg_to_u8
msg_of-only k m h = ground arith

pub tx_of-of : (s : TransmissionState) → tx_of (tx_to_u8 s) ≡ some s
unfolding tx_to_u8
tx_of-of s = ground arith

pub msg_of-of : (m : MessageType) → msg_of (msg_to_u8 m) ≡ some m
unfolding msg_to_u8
msg_of-of m = ground arith

abbrev pub sample_enumn : Enumn
sample_enumn = record {
  tx_n = tx_of;
  msg_n = msg_of;
  tx_n_of = tx_of-of;
  tx_n_only = tx_of-only;
  msg_n_of = msg_of-of;
  msg_n_only = msg_of-only;
}
