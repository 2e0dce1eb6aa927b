-- ===== src/Tunnel/Laws.antt =====
-- What src/stack/tun.rs writes to the interface, and the commands that it runs.
use lora_mesh_rs.Prelude.{◌≡◌, true, [], ◌∷◌, ◌++◌, arith, All, All-append}
use lora_mesh_rs.Prelude.Outcome.{ok}
use lora_mesh_rs.Util.{Ipv4Addr, is_private}
use lora_mesh_rs.Tunnel.{
  NetworkTunnel, Platform, IpCommand, addr_add, link_up, route_add, assignipaddr, routeipaddr,
}

-- A route leads to a private address.
abbrev pub IsSafe : IpCommand → Type 0
IsSafe (route_add dest via) = is_private dest ≡ true
IsSafe (addr_add addr) = Unit
IsSafe link_up = Unit

abbrev pub RoutesPrivate : NetworkTunnel → Type 0
RoutesPrivate t = All IsSafe t.commands

module _ ⦃os : Platform⦄ where
  -- A route that was added is the last command, and leads to a private address.
  routeipaddr_inv :
      (t t' : NetworkTunnel) (dest via : Ipv4Addr)
      → routeipaddr t dest via ≡ ok t'
      → (is_private dest ≡ true)
        × (t' ≡ record t { commands = t.commands ++ route_add dest via ∷ [] })
  unfolding routeipaddr
  routeipaddr_inv t t' dest via h = ground arith

  assignipaddr_inv :
      (t t' : NetworkTunnel) (addr : Ipv4Addr)
      → assignipaddr t addr ≡ ok t'
      → t' ≡ record t { commands = t.commands ++ addr_add addr ∷ [] }
  unfolding assignipaddr
  assignipaddr_inv t t' addr h = ground arith

  pub routeipaddr-RoutesPrivate :
      (t t' : NetworkTunnel) (dest via : Ipv4Addr)
      → routeipaddr t dest via ≡ ok t'
      → RoutesPrivate t
      → RoutesPrivate t'
  routeipaddr-RoutesPrivate t t' dest via h s =
      let (p, e) = routeipaddr_inv t t' dest via h in
      rw e (All-append IsSafe t.commands (route_add dest via ∷ []) s (p, tt))

  pub assignipaddr-RoutesPrivate :
      (t t' : NetworkTunnel) (addr : Ipv4Addr)
      → assignipaddr t addr ≡ ok t'
      → RoutesPrivate t
      → RoutesPrivate t'
  assignipaddr-RoutesPrivate t t' addr h s =
      rw (assignipaddr_inv t t' addr h)
        (All-append IsSafe t.commands (addr_add addr ∷ []) s (tt, tt))
