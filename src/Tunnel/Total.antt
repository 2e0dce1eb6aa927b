-- ===== src/Tunnel/Total.antt =====
-- When the methods of src/stack/tun.rs return.
use lora_mesh_rs.Prelude.{◌≡◌, refl, true, List}
use lora_mesh_rs.Prelude.Returns.{Returns}
use lora_mesh_rs.Util.{Ipv4Addr, is_private}
use lora_mesh_rs.Tunnel.{NetworkTunnel, Platform, IpCommand, assignipaddr, routeipaddr}

-- A machine where every command succeeds.
abbrev pub AlwaysSucceeds : Platform → Type 0
AlwaysSucceeds os = (ran : List IpCommand) (command : IpCommand) → os.succeeds ran command ≡ true

module _ ⦃os : Platform⦄ (up : AlwaysSucceeds os) where
  pub assignipaddr-Returns :
      (t : NetworkTunnel) (addr : Ipv4Addr)
      → Returns (λ (t' : NetworkTunnel). t'.tunip ≡ t.tunip) (assignipaddr t addr)
  unfolding assignipaddr
  assignipaddr-Returns t addr = rw up refl

  pub routeipaddr-Returns :
      (t : NetworkTunnel) (dest via : Ipv4Addr)
      → is_private dest ≡ true
      → Returns (λ (t' : NetworkTunnel). t'.tunip ≡ t.tunip) (routeipaddr t dest via)
  unfolding routeipaddr
  routeipaddr-Returns t dest via h = rw (h, up) refl
