-- ===== src/Radio/Rounds.antt =====
-- The rounds of `radioloop` of src/hardware/lostik.rs keep what the methods of the radio keep.
use lora_mesh_rs.Prelude.{
  ℕ, ◌≡◌, refl, sym, subst, Bool, true, false, List, [], ◌∷◌, Option, none, some, All,
  if◌then◌else◌,
}
use lora_mesh_rs.Prelude.Outcome.{Outcome, ok, ◌>>=◌}
use lora_mesh_rs.Prelude.Post.{Settles, Settles-seq}
use lora_mesh_rs.Radio.{Line, Device, LoStik, ignore, onrx, rxstart, rxstop, tx}
use lora_mesh_rs.Radio.Loop.{
  LoopState, RadioInput, enqueue, try_recv, receive_again, stop_receiving, send_burst, transmit,
  with_next, with_extra, check_lines, send_part, radio_round, radio_rounds, radioloop,
}
use lora_mesh_rs.Radio.Serves.{Arrives, Held, Terms}
use lora_mesh_rs.Radio.Rules.{Rules, Loops, enqueued, taken, sent_burst}

module _ ⦃dev : Device⦄ (t : Terms) (r : Rules t) where
  started-Loops :
      (s : LoopState) (on : Bool)
      → r.Q on s.radio
      → Held t.Given s.extratx
      → Settles t.Fails
          (Loops t r)
          (ignore (rxstart s.radio) >>= λ l. ok (record s { radio = l; isrx = true }))
  started-Loops s on v p =
      Settles-seq t.Fails (r.Q true) _ (ignore (rxstart s.radio)) _ (r.starts on s.radio v)
        (λ l w. (w, p))

  receive_if-Loops :
      (s : LoopState) (on : Bool)
      → Loops t r s
      → Settles t.Fails (Loops t r) (
          if on
          then ok s
          else (ignore (rxstart s.radio) >>= λ l. ok (record s { radio = l; isrx = true })))
  receive_if-Loops s true h = h
  receive_if-Loops s false h = started-Loops s s.isrx h.0 h.1

  receive_again-Loops :
      (s : LoopState) → Loops t r s → Settles t.Fails (Loops t r) (receive_again s)
  receive_again-Loops s h = receive_if-Loops s s.isrx h

  stop_if-Loops :
      (s : LoopState) (on : Bool)
      → Loops t r s
      → Settles t.Fails (Loops t r) (
          if on
          then (ignore (rxstop s.radio) >>= λ l. ok (record s { radio = l; isrx = false }))
          else ok s)
  stop_if-Loops s true h =
      Settles-seq t.Fails (r.Q false) _ (ignore (rxstop s.radio)) _ (r.stops s.isrx s.radio h.0)
        (λ l v. (v, h.1))
  stop_if-Loops s false h = h

  transmit-Loops :
      (burst : List (List (List ℕ))) (s : LoopState) (frame : List ℕ)
      → All (All t.Given) burst
      → t.Given frame
      → Loops t r s
      → Settles t.Fails (Loops t r) (transmit burst s frame)
  unfolding transmit
  transmit-Loops burst s frame a p h =
      Settles-seq t.Fails (Loops t r) _ (stop_receiving s) _ (stop_if-Loops s s.isrx h) (λ s1 h1.
        Settles-seq t.Fails (r.Q s1.isrx) _ (ignore (tx s1.radio frame)) _
          (r.transmits s1.isrx s1.radio frame p h1.0)
          (λ l2 v2.
            Settles-seq t.Fails (r.Q s1.isrx) _ (send_burst burst l2) _
              (sent_burst t r s1.isrx burst l2 a v2)
              (λ l3 v3. started-Loops (record s1 { radio = l3 }) s1.isrx v3 h1.1)))

  saved-Loops :
      (s : LoopState) (may_still : Bool) (frame : List ℕ)
      → t.Given frame
      → Loops t r s
      → Settles t.Fails
          (Loops t r)
          (receive_again (if may_still then s else record s { extratx = some frame }))
  saved-Loops s true frame p h = receive_again-Loops s h
  saved-Loops s false frame p h = receive_again-Loops (record s { extratx = some frame }) (h.0, p)

  with_some-Loops :
      (s : LoopState) (may_send may_still : Bool) (burst : List (List (List ℕ))) (frame : List ℕ)
      → All (All t.Given) burst
      → t.Given frame
      → Loops t r s
      → Settles t.Fails (Loops t r) (
          (if may_send then transmit burst s frame else ok s) >>= λ s1.
          receive_again (if may_still then s1 else record s1 { extratx = some frame }))
  with_some-Loops s true may_still burst frame a p h =
      Settles-seq t.Fails (Loops t r) _ (transmit burst s frame) _
        (transmit-Loops burst s frame a p h) (λ s1 h1. saved-Loops s1 may_still frame p h1)
  with_some-Loops s false may_still burst frame a p h = saved-Loops s may_still frame p h

  with_next-Loops :
      (i : RadioInput) (s : LoopState) (next : Option (List ℕ))
      → Arrives t.Given i
      → Held t.Given next
      → Loops t r s
      → Settles t.Fails (Loops t r) (with_next i s next)
  unfolding with_next
  with_next-Loops i s none a p h =
      Settles-seq t.Fails (Loops t r) _ (receive_again s) _ (receive_again-Loops s h)
        (λ s1 h1. receive_again-Loops s1 h1)
  with_next-Loops i s (some frame) a p h =
      with_some-Loops s i.may_send i.may_still i.burst frame a.1 p h

  with_extra_if-Loops :
      (s : LoopState) (may_send : Bool) (frame : List ℕ)
      → t.Given frame
      → Loops t r s
      → Settles t.Fails (Loops t r) (
          if may_send
          then (stop_receiving s >>= λ s1.
              ignore (tx s1.radio frame) >>= λ l. ok (record s1 { radio = l; extratx = none }))
          else ok s)
  with_extra_if-Loops s true frame p h =
      Settles-seq t.Fails (Loops t r) _ (stop_receiving s) _ (stop_if-Loops s s.isrx h) (λ s1 h1.
        Settles-seq t.Fails (r.Q s1.isrx) _ (ignore (tx s1.radio frame)) _
          (r.transmits s1.isrx s1.radio frame p h1.0) (λ l v. (v, tt)))
  with_extra_if-Loops s false frame p h = h

  send_by-Loops :
      (i : RadioInput) (s : LoopState) (extra : Option (List ℕ))
      → Arrives t.Given i
      → Held t.Given extra
      → Loops t r s
      → Settles t.Fails (Loops t r) (elim extra as (λ _. Outcome LoopState) [
        | some frame ↦ with_extra i s frame
        | none ↦ with_next i (record s { radio = (try_recv s.radio).0 }) (try_recv s.radio).1
      ])
  unfolding with_extra
  send_by-Loops i s (some frame) a p h = with_extra_if-Loops s i.may_send frame p h
  send_by-Loops i s none a p h =
      let (v, q) = taken t r s.isrx s.radio h.0 in
      with_next-Loops i (record s { radio = (try_recv s.radio).0 }) (try_recv s.radio).1 a q
        (v, h.1)

  check_if-Loops :
      (s : LoopState) (isrx ready : Bool) (lines : List Line)
      → s.isrx ≡ isrx
      → s.radio.lines ≡ lines
      → Loops t r s
      → Settles t.Fails (Loops t r) (
          if isrx
          then (if ready
              then elim lines as (λ _. Outcome LoopState) [
                | [] ↦ ok s
                | msg ∷ rest ↦ ignore (onrx (record s.radio { lines = rest }) msg) >>= λ l1.
                    ignore (rxstart l1) >>= λ l2. ok (record s { radio = l2 })
              ]
              else ok s)
          else ok s)
  check_if-Loops s true true [] x e h = h
  check_if-Loops s true true (msg ∷ rest) x e h =
      let l0 = record s.radio { lines = rest } in
      let (v0, f) = r.reads s.isrx s.radio msg rest e h.0 in
      Settles-seq t.Fails (r.Q s.isrx) _ (ignore (onrx l0 msg)) _ (r.handles s.isrx l0 msg f v0)
        (λ l1 v1.
          Settles-seq t.Fails (r.Q true) _ (ignore (rxstart l1)) _ (r.starts s.isrx l1 v1)
            (λ l2 v2. (subst (λ on. r.Q on l2) (sym x) v2, h.1)))
  check_if-Loops s true false lines x e h = h
  check_if-Loops s false ready lines x e h = h

  pub radio_round-Loops :
      (i : RadioInput) (s : LoopState)
      → Arrives t.Given i
      → Loops t r s
      → Settles t.Fails (Loops t r) (radio_round i s)
  unfolding radio_round send_part check_lines
  radio_round-Loops i s a h =
      let s0 = record s { radio = enqueue s.radio i.arrived } in
      Settles-seq t.Fails (Loops t r) _ (send_part i s0) _
        (send_by-Loops i s0 s.extratx a h.1 (enqueued t r s.isrx s.radio i.arrived a.0 h.0, h.1))
        (λ s1 h1. check_if-Loops s1 s1.isrx i.line_ready s1.radio.lines refl refl h1)

  radio_rounds-Loops :
      (inputs : List RadioInput) (s : LoopState)
      → All (Arrives t.Given) inputs
      → Loops t r s
      → Settles t.Fails (Loops t r) (radio_rounds inputs s)
  unfolding radio_rounds
  radio_rounds-Loops [] s a h = h
  radio_rounds-Loops (i ∷ inputs) s a h =
      Settles-seq t.Fails (Loops t r) _ (radio_round i s) _ (radio_round-Loops i s a.0 h)
        (λ s1 h1. radio_rounds-Loops inputs s1 a.1 h1)

  pub loop-Loops :
      (inputs : List RadioInput) (on : Bool) (l : LoStik)
      → All (Arrives t.Given) inputs
      → r.Q on l
      → Settles t.Fails (Loops t r) (radioloop inputs l)
  unfolding radioloop
  loop-Loops inputs on l a v =
      Settles-seq t.Fails (r.Q true) _ (ignore (rxstart l)) _ (r.starts on l v) (λ k w.
        radio_rounds-Loops inputs (record { radio = k; isrx = true; extratx = none }) a (w, tt))
