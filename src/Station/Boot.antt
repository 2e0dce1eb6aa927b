-- ===== src/Station/Boot.antt =====
-- What holds of a station that `main` of src/main.rs has just started, and from then on.
use lora_mesh_rs.Prelude.{
  ℕ, ◌≡◌, refl, sym, Bool, true, false, List, [], ◌∷◌, Option, none, some, if◌then◌else◌, All,
  All-append, subst, arith,
}
use lora_mesh_rs.Prelude.Outcome.{
  Outcome, ok, bind_inv, expect, expect_inv, unwrap_none, no_settings, no_interface, ok_inj,
}
use lora_mesh_rs.Prelude.Post.{Post, Post-elim, Post-bind, Settles-elim, anything}
use lora_mesh_rs.Util.{IsByte, ip}
use lora_mesh_rs.Router.Graph.{GraphCrate}
use lora_mesh_rs.Settings.{Settings}
use lora_mesh_rs.Tunnel
use lora_mesh_rs.Tunnel.{
  NetworkTunnel, Platform, IpCommand, addr_add, link_up, assignipaddr, routeipaddr,
}
use lora_mesh_rs.Tunnel.Laws.{
  IsSafe, RoutesPrivate, routeipaddr-RoutesPrivate, assignipaddr-RoutesPrivate,
}
use lora_mesh_rs.Node.State
use lora_mesh_rs.Node.State.{MeshNode, new_gateway}
use lora_mesh_rs.Node.Main.{start}
use lora_mesh_rs.Radio
use lora_mesh_rs.Radio.{Line, Device, LoStik, slice_from, ignore}
use lora_mesh_rs.Radio.Keeps.{Closed, ignore-Keeps}
use lora_mesh_rs.Radio.Setup.{init-Keeps}
use lora_mesh_rs.Station.{Station, Machine, initfile, boot}

-- No frame is queued, and nothing but bytes was heard.
abbrev Unused : LoStik → Type 0
Unused l = (l.queue ≡ []) × All (All IsByte) l.heard

module _ ⦃dev : Device⦄ where
  Unused-Closed : Closed Unit (λ _. Unit) (λ _. Unit {0}) Unused
  Unused-Closed = record {
    commands = λ line w. tt;
    writes = λ l line a u. u;
    reads = λ l line rest e u. (u, tt);
    hears = λ l text bytes e u.
        (u.0, All-append (All IsByte) l.heard (bytes ∷ []) u.1 (dev.decode_bytes text bytes e, tt));
    ends = λ l o u. tt;
    slices = λ line f packet. anything (slice_from line 10);
  }

  new-Unused :
      (opt : Settings) (port : Option (List Line × Bool)) → Post Unused (Radio.new opt port)
  unfolding Radio.new
  new-Unused opt none = tt
  new-Unused opt (some lines) = (refl, tt)

module _ ⦃os : Platform⦄ where
  tunnel-RoutesPrivate :
      (name : List ℕ) (t : NetworkTunnel) → Tunnel.new name ≡ ok t → RoutesPrivate t
  unfolding Tunnel.new Tunnel.ipassign Tunnel.ipcmd
  tunnel-RoutesPrivate name t h =
      let e : t.commands ≡ addr_add (ip 10 107 1 3) ∷ link_up ∷ [] = ground arith in
      subst (All IsSafe) (sym e) (tt, (tt, tt))

  new_gateway-RoutesPrivate :
      (id : ℕ) (t t' : NetworkTunnel)
      → new_gateway id t ≡ ok t'
      → RoutesPrivate t
      → RoutesPrivate t'
  unfolding new_gateway
  new_gateway-RoutesPrivate id t t' h p =
      let (t1, e1, d1) = bind_inv (assignipaddr t (ip 172 16 0 id)) _ h in
      let (via, e2, d2) = bind_inv (expect t1.tunip unwrap_none) _ d1 in
      routeipaddr-RoutesPrivate t1 t' (ip 172 16 0 id) via d2
        (assignipaddr-RoutesPrivate t t1 (ip 172 16 0 id) e1 p)

  gateway_if-RoutesPrivate :
      (b : Bool) (id : ℕ) (t t' : NetworkTunnel)
      → (if b then new_gateway id t else ok t) ≡ ok t'
      → RoutesPrivate t
      → RoutesPrivate t'
  gateway_if-RoutesPrivate true id t t' h p = new_gateway-RoutesPrivate id t t' h p
  gateway_if-RoutesPrivate false id t t' h p = subst RoutesPrivate (ok_inj h) p

-- A node that has sent nothing, with its id and its settings, whose routes are private.
pub record IsFresh {G : Type 0} (id : ℕ) (opt : Settings) (n : MeshNode G) : Type 0 where
  pub id_is : n.id ≡ id
  pub opt_is : n.opt ≡ opt
  pub unsent : n.sent ≡ []
  pub unheard : n.rxchunks ≡ []
  pub private : RoutesPrivate n.tunnel

module _ (G : Type 0) ⦃gc : GraphCrate G⦄ ⦃os : Platform⦄ where
  new-IsFresh :
      (id : ℕ) (t : NetworkTunnel) (opt : Settings)
      → RoutesPrivate t
      → Post (IsFresh id opt) (State.new {G = G} id t opt)
  unfolding State.new
  new-IsFresh id t opt p =
      Post-bind (IsFresh id opt) (if opt.isgateway then new_gateway id t else ok t) _ (λ t' e.
        record {
          id_is = refl;
          opt_is = refl;
          unsent = refl;
          unheard = refl;
          private = gateway_if-RoutesPrivate opt.isgateway id t t' e p;
        })

module _ {G : Type 0} ⦃gc : GraphCrate G⦄ where
  start_if-IsFresh :
      (b : Bool) (id : ℕ) (opt : Settings) (n : MeshNode G) (m : Outcome (MeshNode G))
      → IsFresh id opt n
      → Post (IsFresh id opt) m
      → Post (IsFresh id opt) (if b then m else ok n)
  start_if-IsFresh true id opt n m f h = h
  start_if-IsFresh false id opt n m f h = f

  start-IsFresh :
      (id : ℕ) (opt : Settings) (n : MeshNode G)
      → IsFresh id opt n
      → Post (IsFresh id opt) (start n)
  unfolding start
  start-IsFresh id opt n f = start_if-IsFresh n.opt.isgateway id opt n _ f (
      Post-bind (IsFresh id opt) (expect n.ipaddr unwrap_none) _ (λ own e. record {
        id_is = f.id_is;
        opt_is = f.opt_is;
        unsent = f.unsent;
        unheard = f.unheard;
        private = f.private;
      }))

module _ {P G : Type 0} ⦃gc : GraphCrate G⦄ ⦃os : Platform⦄ ⦃dev : Device⦄ where
  -- Of a station that `main` has started: the settings were there.
  pub record IsBooted (m : Machine) (st : Station P G) : Type 0 where
    pub opt : Settings
    pub opt_is : m.settings ≡ some opt
    pub fresh : IsFresh opt.nodeid opt st.node
    pub unused : Unused st.radio.radio
    pub extra : st.radio.extratx ≡ none

  pub boot-IsBooted : (m : Machine) (st : Station P G) → boot m ≡ ok st → IsBooted m st
  unfolding boot
  boot-IsBooted m st h =
      let (opt, e1, d1) = bind_inv (expect m.settings no_settings) _ h in
      let (name, e2, d2) = bind_inv (expect m.interface no_interface) _ d1 in
      let (t, e3, d3) = bind_inv (Tunnel.new name) _ d2 in
      let (l, e4, d4) = bind_inv (Radio.new opt m.port) _ d3 in
      let (l', e5, d5) = bind_inv (ignore (Radio.init l m.ready (initfile m opt))) _ d4 in
      let (n, e6, d6) = bind_inv (State.new {G = G} opt.nodeid t opt) _ d5 in
      let (n', e7, d7) = bind_inv (start n) _ d6 in
      let bare = Post-elim Unused (Radio.new opt m.port) l (new-Unused opt m.port) e4 in
      let set =
        Settles-elim Unit Unused (ignore (Radio.init l m.ready (initfile m opt))) l'
          (ignore-Keeps Unit Unused _ (
            init-Keeps Unit (λ _. Unit) (λ _. Unit) Unused Unused-Closed (λ line. tt) (λ k n u. u)
              tt l m.ready (initfile m opt) bare))
          e5 in
      let made =
        Post-elim (IsFresh opt.nodeid opt) (State.new opt.nodeid t opt) n
          (new-IsFresh G opt.nodeid t opt (tunnel-RoutesPrivate name t e3)) e6 in
      let ready =
        Post-elim (IsFresh opt.nodeid opt) (start n) n' (start-IsFresh opt.nodeid opt n made) e7 in
      subst (IsBooted m) (ok_inj d7) (record {
        opt = opt;
        opt_is = expect_inv m.settings no_settings opt e1;
        fresh = ready;
        unused = set;
        extra = refl;
      })
