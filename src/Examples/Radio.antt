-- ===== src/Examples/Radio.antt =====
-- The theorems on the radio, with a device that answers every command with `ok`.
use lora_mesh_rs.Prelude.{All, ◌≡◌, ◌≢◌, refl, Bool, true, false, List, [], ◌∷◌, ◌++◌, none}
use lora_mesh_rs.Prelude.Outcome.{ok, panic, disconnected}
use lora_mesh_rs.Prelude.Text.{codes}
use lora_mesh_rs.Settings.{defaults}
use lora_mesh_rs.Radio.{Line, LoStik, recv, recv_any, writeln, light, assert_response, response}
use lora_mesh_rs.Radio.Loop.{LoopState, RadioInput, radioloop}
use lora_mesh_rs.Radio.Limits.{
  missed_each, limited, denied, late_turn, radioloop_drops, radioloop_repeats, radioloop_cut,
}
use lora_mesh_rs.Radio.Turns as Turns
use lora_mesh_rs.Radio.Turns.{handed}
use lora_mesh_rs.Examples.Hex.{the_device}
use lora_mesh_rs.Radio.Mode.{AlwaysAccepts}
use lora_mesh_rs.Radio.Sends.{radioloop-Sent}
use lora_mesh_rs.Radio.Serves.{Sent}
use lora_mesh_rs.Radio.Drain.{good, answers, one_each, receiving, granted, turn, radioloop_drains}
use lora_mesh_rs.Radio.Tracks.{Tracks, radioloop-Tracks}

takes_all : AlwaysAccepts the_device
takes_all ran line = refl

abbrev oks : List Line
oks = codes "ok" ∷ codes "ok" ∷ codes "ok" ∷ codes "ok" ∷ codes "ok" ∷ codes "ok" ∷ []

abbrev stick : LoStik
stick = record {
  opt = defaults;
  written = [];
  lines = oks;
  queue = (1 ∷ 2 ∷ []) ∷ (3 ∷ []) ∷ [];
  connected = true;
  heard = [];
}

abbrev refused : RadioInput
refused = record {
  arrived = [];
  may_send = false;
  burst = [];
  may_still = true;
  line_ready = false;
}

abbrev waiting : Bool → LoopState
waiting isrx = record { radio = stick; isrx = isrx; extratx = none }

abbrev begun : LoopState
begun = record (waiting true) {
  radio = record stick {
    written = codes "radio rx 0" ∷ codes "sys set pindig GPIO11 1" ∷ [];
    lines = codes "ok" ∷ codes "ok" ∷ codes "ok" ∷ codes "ok" ∷ [];
    queue = (3 ∷ []) ∷ [];
  };
}

begins : radioloop (refused ∷ []) stick ≡ ok begun
unfolding radioloop recv recv_any writeln light assert_response response
begins = refl

radioloop-Tracks_example : Tracks begun
radioloop-Tracks_example = radioloop-Tracks takes_all (refused ∷ []) stick begun begins

radioloop-Sent_example :
    (since : List Line) × (begun.radio.written ≡ since)
    × All (Sent (λ frame. frame ≢ [])) since
    × All (λ frame. frame ≢ []) begun.radio.queue
radioloop-Sent_example =
    radioloop-Sent (λ frame. frame ≢ []) (refused ∷ []) stick begun ((λ e. cc), ((λ e. cc), tt))
      ((tt, tt), tt) begins

abbrev ready : LoStik
ready = record stick { lines = good ∷ good ∷ answers ((1 ∷ 2 ∷ []) ∷ (3 ∷ []) ∷ []) [] }

radioloop_drains_example :
    radioloop (one_each ((1 ∷ 2 ∷ []) ∷ (3 ∷ []) ∷ [])) ready
    ≡ ok (
        receiving ready []
          (codes "radio rx 0" ∷ codes "sys set pindig GPIO11 1" ∷ turn (1 ∷ 2 ∷ [])
            ++ turn (3 ∷ []))
          [])
radioloop_drains_example =
    radioloop_drains takes_all ready ((1 ∷ 2 ∷ []) ∷ (3 ∷ []) ∷ []) [] refl refl

radioloop_drops_example :
    radioloop (missed_each ready.queue) ready
    ≡ ok (receiving ready [] Turns.begun (answers ready.queue []))
radioloop_drops_example =
    radioloop_drops takes_all ready ready.queue (answers ready.queue []) refl refl

-- It is asked in vain once.
radioloop_repeats_example :
    radioloop (limited ∷ denied ∷ granted ∷ []) ready
    ≡ ok
        (record (receiving ready
          ((3 ∷ []) ∷ [])
          ((Turns.begun ++ turn (1 ∷ 2 ∷ [])) ++ late_turn (1 ∷ 2 ∷ []))
          (good ∷ good ∷ [])) { isrx = false })
radioloop_repeats_example =
    radioloop_repeats takes_all 1 ready (1 ∷ 2 ∷ []) ((3 ∷ []) ∷ []) (good ∷ good ∷ []) refl refl

-- The line that transmits the frame is written twice.
twice :
    turn (1 ∷ 2 ∷ []) ++ late_turn (1 ∷ 2 ∷ [])
    ≡ codes "radio rxstop"
      ∷ codes "sys set pindig GPIO11 0"
      ∷ codes "sys set pindig GPIO10 1"
      ∷ codes "radio tx 0102"
      ∷ codes "sys set pindig GPIO10 0"
      ∷ codes "radio rx 0"
      ∷ codes "sys set pindig GPIO11 1"
      ∷ codes "radio rxstop"
      ∷ codes "sys set pindig GPIO11 0"
      ∷ codes "sys set pindig GPIO10 1"
      ∷ codes "radio tx 0102"
      ∷ codes "sys set pindig GPIO10 0"
      ∷ []
twice = refl

abbrev cut_off : LoStik
cut_off = record stick {
  lines = good ∷ good ∷ answers ((1 ∷ 2 ∷ []) ∷ []) [];
  connected = false;
  queue = [];
}

radioloop_cut_example :
    radioloop (handed (1 ∷ 2 ∷ []) ∷ handed (3 ∷ []) ∷ []) cut_off ≡ panic disconnected
radioloop_cut_example = radioloop_cut takes_all cut_off ((1 ∷ 2 ∷ []) ∷ []) (3 ∷ []) refl refl refl
