-- ===== src/Node/Evolves/Base.antt =====
-- What a step keeps, as a relation of the node before and after, and the rules for its parts.
use lora_mesh_rs.Prelude.{ℕ, ◌≡◌, refl, ◌∙◌, List, [], ◌∷◌, some, All, All-append}
use lora_mesh_rs.Util.{Ipv4Addr}
use lora_mesh_rs.Tunnel.{NetworkTunnel}
use lora_mesh_rs.Tunnel.Laws.{RoutesPrivate}
use lora_mesh_rs.Router.{MeshRouter}
use lora_mesh_rs.Node.State.{MeshNode, transmit, transmit_all}
use lora_mesh_rs.Node.Wire.{IsWire}
use lora_mesh_rs.Node.Table.{IsTable}

module _ {G : Type 0} where
  pub record Evolves (n n' : MeshNode G) : Type 0 where
    pub id_is : n'.id ≡ n.id
    pub opt_is : n'.opt ≡ n.opt
    pub nodeid_is : n'.router.nodeid ≡ n.router.nodeid
    pub ip_stays : (x : Ipv4Addr) → n.ipaddr ≡ some x → n'.ipaddr ≡ some x
    pub private : RoutesPrivate n.tunnel → RoutesPrivate n'.tunnel
    pub wire : All IsWire n.sent → All IsWire n'.sent
    pub table : IsTable n.rxchunks → IsTable n'.rxchunks

  pub Evolves-refl : (n : MeshNode G) → Evolves n n
  Evolves-refl n = record {
    id_is = refl;
    opt_is = refl;
    nodeid_is = refl;
    ip_stays = λ x h. h;
    private = λ h. h;
    wire = λ h. h;
    table = λ h. h;
  }

  pub Evolves-trans : (n m k : MeshNode G) → Evolves n m → Evolves m k → Evolves n k
  Evolves-trans n m k a b = record {
    id_is = b.id_is ∙ a.id_is;
    opt_is = b.opt_is ∙ a.opt_is;
    nodeid_is = b.nodeid_is ∙ a.nodeid_is;
    ip_stays = λ x h. b.ip_stays x (a.ip_stays x h);
    private = λ h. b.private (a.private h);
    wire = λ h. b.wire (a.wire h);
    table = λ h. b.table (a.table h);
  }

  pub Evolves-transmit :
      (n : MeshNode G) (bytes : List ℕ) → IsWire bytes → Evolves n (transmit n bytes)
  Evolves-transmit n bytes w = record {
    id_is = refl;
    opt_is = refl;
    nodeid_is = refl;
    ip_stays = λ x h. h;
    private = λ h. h;
    wire = λ h. All-append IsWire n.sent (bytes ∷ []) h (w, tt);
    table = λ h. h;
  }

  pub Evolves-transmit_all :
      (n : MeshNode G) (chunks : List (List ℕ))
      → All IsWire chunks
      → Evolves n (transmit_all n chunks)
  unfolding transmit_all
  Evolves-transmit_all n [] w = Evolves-refl n
  Evolves-transmit_all n (c ∷ cs) w =
      Evolves-trans n (transmit n c) (transmit_all (transmit n c) cs) (Evolves-transmit n c w.0)
        (Evolves-transmit_all (transmit n c) cs w.1)

  pub Evolves-tunnel :
      (n : MeshNode G) (t : NetworkTunnel)
      → (RoutesPrivate n.tunnel → RoutesPrivate t)
      → Evolves n (record n { tunnel = t })
  Evolves-tunnel n t p = record {
    id_is = refl;
    opt_is = refl;
    nodeid_is = refl;
    ip_stays = λ x h. h;
    private = p;
    wire = λ h. h;
    table = λ h. h;
  }

  pub Evolves-router :
      (n : MeshNode G) (r : MeshRouter G)
      → r.nodeid ≡ n.router.nodeid
      → Evolves n (record n { router = r })
  Evolves-router n r e = record {
    id_is = refl;
    opt_is = refl;
    nodeid_is = e;
    ip_stays = λ x h. h;
    private = λ h. h;
    wire = λ h. h;
    table = λ h. h;
  }
