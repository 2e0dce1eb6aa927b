-- ===== src/Radio/Setup.antt =====
-- How `init` of src/hardware/lostik.rs sets up the device.
use lora_mesh_rs.Prelude.{
  ℕ, ◌≡◌, refl, sym, ap, ◌∙◌, Bool, true, false, List, [], ◌∷◌, ◌++◌, Option, none, some,
  if◌then◌else◌, ltb, length, append_assoc, append-nil, drop,
}
use lora_mesh_rs.Prelude.Outcome.{
  Outcome, ok, err, panic, diverges, disconnected, ◌>>=◌, bind_inv, ok_inj,
}
use lora_mesh_rs.Prelude.Text.{codes}
use lora_mesh_rs.Prelude.Post.{Post, Post-elim, Settles, Settles-seq}
use lora_mesh_rs.Radio.{
  Line, Device, LoStik, IoResult, done, failed, Call, and_then, recv, writeln, oninit, configure,
  read_lines, default_init, init,
}
use lora_mesh_rs.Radio.Keeps.{Closed, Keeps, and_then-Keeps, writeln-Keeps, recv_then-Keeps}

module _ ⦃dev : Device⦄ (Fails : Type 0) (Fit Allowed : Line → Type 0) (Q : LoStik → Type 0)
    (c : Closed Fails Fit Allowed Q) (all : (line : Line) → Allowed line)
    (drops : (l : LoStik) (n : ℕ) → Q l → Q (record l { lines = drop n l.lines }))
    (fails : Fails) where
  oninit-Keeps : (l : LoStik) → Q l → Keeps Fails Q (oninit l)
  unfolding oninit
  oninit-Keeps l q = recv_then-Keeps Fails Fit Allowed Q c l _ q (λ p r. r.0)

  configure_if-Keeps :
      (l : LoStik) (line : Line) (lines : List Line) (b : Bool)
      → ((k : LoStik) → Q k → Keeps Fails Q (configure k lines))
      → Q l
      → Keeps Fails Q (
          if b
          then and_then (writeln l line) (λ l1. and_then (oninit l1) (λ l2. configure l2 lines))
          else configure l lines)
  configure_if-Keeps l line lines true h q =
      and_then-Keeps Fails Q (writeln l line) _
        (writeln-Keeps Fails Fit Allowed Q c l line (all line) q)
        (λ l1 q1. and_then-Keeps Fails Q (oninit l1) _ (oninit-Keeps l1 q1) (λ l2 q2. h l2 q2))
  configure_if-Keeps l line lines false h q = h l q

  configure-Keeps : (lines : List Line) (l : LoStik) → Q l → Keeps Fails Q (configure l lines)
  unfolding configure
  configure-Keeps [] l q = q
  configure-Keeps (line ∷ lines) l q =
      configure_if-Keeps l line lines (ltb 0 (length line)) (configure-Keeps lines) q

  read_lines-Settles : (file : List (Option Line)) → Settles Fails (λ _. Unit) (read_lines file)
  unfolding read_lines
  read_lines-Settles [] = tt
  read_lines-Settles (none ∷ rest) = fails
  read_lines-Settles (some line ∷ rest) =
      Settles-seq Fails (λ _. Unit) _ (read_lines rest) _ (read_lines-Settles rest) (λ _ _. tt)

  configure_file-Keeps :
      (l : LoStik) (file : Option (Option (List (Option Line))))
      → Q l
      → Keeps Fails Q (elim file as (λ _. Call) [
        | none ↦ configure l default_init
        | some none ↦ ok (l, failed)
        | some (some lines) ↦ read_lines lines >>= configure l
      ])
  configure_file-Keeps l none q = configure-Keeps default_init l q
  configure_file-Keeps l (some none) q = q
  configure_file-Keeps l (some (some lines)) q =
      Settles-seq Fails (λ _. Unit) _ (read_lines lines) _ (read_lines-Settles lines)
        (λ ls _. configure-Keeps ls l q)

  pub init-Keeps :
      (l : LoStik) (ready : ℕ) (file : Option (Option (List (Option Line))))
      → Q l
      → Keeps Fails Q (init l ready file)
  unfolding init
  init-Keeps l ready file q =
      and_then-Keeps Fails Q (writeln l (codes "INVALIDCOMMAND")) _
        (writeln-Keeps Fails Fit Allowed Q c l _ (all _) q)
        (λ l1 q1.
          configure_file-Keeps (record l1 { lines = drop ready l1.lines }) file (drops l1 ready q1))

-- The lines of a configuration that are sent.
abbrev pub filled : List Line → List Line
filled [] = []
filled (line ∷ lines) = if ltb 0 (length line) then line ∷ filled lines else filled lines

-- The lines of a file that can be read.
abbrev pub readable : List (Option Line) → List Line
readable [] = []
readable (none ∷ lines) = readable lines
readable (some line ∷ lines) = line ∷ readable lines

-- The configuration that `init` takes, if it can be read.
abbrev pub chosen : Option (Option (List (Option Line))) → List Line
chosen none = default_init
chosen (some none) = []
chosen (some (some lines)) = readable lines

-- A sequence that ends well: both its parts did.
done_inv :
    (m : Call) (k : LoStik → Call) (l' : LoStik)
    → and_then m k ≡ ok (l', done)
    → (l : LoStik) × (m ≡ ok (l, done)) × (k l ≡ ok (l', done))
done_inv (ok (l, done)) k l' h = (l, refl, h)
done_inv (ok (l, failed)) k l' h = cc
done_inv (err e) k l' h = cc
done_inv (panic x) k l' h = cc
done_inv diverges k l' h = cc

module _ ⦃dev : Device⦄ where
  writeln_if_inv :
      (l l' : LoStik) (line : Line) (b : Bool)
      → if◌then◌else◌ {A = Call} b
          (ok (record l { written = l.written ++ line ∷ [] }, done))
          (ok (l, failed))
        ≡ ok (l', done)
      → l'.written ≡ l.written ++ line ∷ []
  writeln_if_inv l l' line true h = ap (λ (p : LoStik × IoResult). p.0.written) (sym (ok_inj h))
  writeln_if_inv l l' line false h = cc

  writeln_inv :
      (l l' : LoStik) (line : Line)
      → writeln l line ≡ ok (l', done)
      → l'.written ≡ l.written ++ line ∷ []
  unfolding writeln
  writeln_inv l l' line h = writeln_if_inv l l' line (dev.accepts l.written line) h

  recv_written :
      (l : LoStik) (lines : List Line) (on : Bool)
      → Post
          (λ (p : LoStik × Line). p.0.written ≡ l.written)
          (elim lines as (λ _. Outcome (LoStik × Line)) [
            | [] ↦ if on then diverges else panic disconnected
            | line ∷ rest ↦ ok (record l { lines = rest }, line)
          ])
  recv_written l [] true = tt
  recv_written l [] false = tt
  recv_written l (line ∷ rest) on = refl

  oninit_inv : (l l' : LoStik) (r : IoResult) → oninit l ≡ ok (l', r) → l'.written ≡ l.written
  unfolding oninit recv
  oninit_inv l l' r h =
      let (p, e, d) = bind_inv (recv l) _ h in
      let same = Post-elim _ (recv l) p (recv_written l l.lines l.connected) e in
      ap (λ (q : LoStik × IoResult). q.0.written) (sym (ok_inj d)) ∙ same

  configure_if_inv :
      (l l' : LoStik) (line : Line) (lines : List Line) (b : Bool)
      → ((k : LoStik) → configure k lines ≡ ok (l', done) → l'.written ≡ k.written ++ filled lines)
      → (if b
          then and_then (writeln l line) (λ l1. and_then (oninit l1) (λ l2. configure l2 lines))
          else configure l lines)
        ≡ ok (l', done)
      → l'.written ≡ l.written ++ (if b then line ∷ filled lines else filled lines)
  configure_if_inv l l' line lines true h e =
      let (l1, e1, d1) = done_inv (writeln l line) _ l' e in
      let (l2, e2, d2) = done_inv (oninit l1) _ l' d1 in
      h l2 d2
      ∙ ap (λ w. w ++ filled lines) (oninit_inv l1 l2 done e2 ∙ writeln_inv l l1 line e1)
      ∙ append_assoc l.written (line ∷ []) (filled lines)
  configure_if_inv l l' line lines false h e = h l e

  configure_inv :
      (lines : List Line) (l l' : LoStik)
      → configure l lines ≡ ok (l', done)
      → l'.written ≡ l.written ++ filled lines
  unfolding configure
  configure_inv [] l l' e =
      ap (λ (q : LoStik × IoResult). q.0.written) (sym (ok_inj e)) ∙ sym (append-nil l.written)
  configure_inv (line ∷ lines) l l' e =
      configure_if_inv l l' line lines (ltb 0 (length line)) (λ k d. configure_inv lines k l' d) e

  read_lines_inv :
      (file : List (Option Line)) (ls : List Line) → read_lines file ≡ ok ls → ls ≡ readable file
  unfolding read_lines
  read_lines_inv [] ls e = sym (ok_inj e)
  read_lines_inv (none ∷ rest) ls e = cc
  read_lines_inv (some line ∷ rest) ls e =
      let (more, read, d) = bind_inv (read_lines rest) _ e in
      sym (ok_inj d) ∙ ap (λ xs. line ∷ xs) (read_lines_inv rest more read)

  chosen_inv :
      (l l' : LoStik) (file : Option (Option (List (Option Line))))
      → (elim file as (λ _. Call) [
        | none ↦ configure l default_init
        | some none ↦ ok (l, failed)
        | some (some lines) ↦ read_lines lines >>= configure l
      ])
        ≡ ok (l', done)
      → l'.written ≡ l.written ++ filled (chosen file)
  chosen_inv l l' none e = configure_inv default_init l l' e
  chosen_inv l l' (some none) e = cc
  chosen_inv l l' (some (some lines)) e =
      let (ls, read, d) = bind_inv (read_lines lines) (configure l) e in
      configure_inv ls l l' d ∙ ap (λ xs. l.written ++ filled xs) (read_lines_inv lines ls read)

  -- Where `init` ends well, with or without a file, it has written the invalid command and then,
  -- in order, every line of the configuration that is not empty, and nothing else.
  pub init_written :
      (l l' : LoStik) (ready : ℕ) (file : Option (Option (List (Option Line))))
      → init l ready file ≡ ok (l', done)
      → l'.written ≡ l.written ++ codes "INVALIDCOMMAND" ∷ filled (chosen file)
  unfolding init
  init_written l l' ready file e =
      let (l1, e1, d1) = done_inv (writeln l (codes "INVALIDCOMMAND")) _ l' e in
      chosen_inv (record l1 { lines = drop ready l1.lines }) l' file d1
      ∙ ap (λ w. w ++ filled (chosen file)) (writeln_inv l l1 (codes "INVALIDCOMMAND") e1)
      ∙ append_assoc l.written (codes "INVALIDCOMMAND" ∷ []) (filled (chosen file))
