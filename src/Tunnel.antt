-- ===== src/Tunnel.antt =====
-- src/stack/tun.rs: the local network interface. What is written to it and the `ip` commands that
-- were run are kept in order; whether a command succeeds is up to the system.
pub mod Laws
pub mod Total
use lora_mesh_rs.Prelude.{
  ℕ, Bool, true, List, [], ◌∷◌, ◌++◌, Option, none, some, leb, if◌then◌else◌,
}
use lora_mesh_rs.Prelude.Outcome.{
  Outcome, ok, panic, not_private, command_failed, out_of_range, ◌>>=◌, ◌>>◌, assert, expect,
}
use lora_mesh_rs.Util.{Ipv4Addr, ip, is_private, get_range}
use lora_mesh_rs.Frame.{Profile}
use lora_mesh_rs.Message.IpPacket.{PacketCrate}

-- The arguments of a call of the program `ip`; the device is the tunnel's own.
pub data IpCommand : Type 0 where
  addr_add : Ipv4Addr → IpCommand
  link_up : IpCommand
  route_add : Ipv4Addr → Ipv4Addr → IpCommand

-- The build and the machine: the cargo profile, and whether a command succeeds after those that
-- were run before.
pub record Platform : Type 0 where
  pub profile : Profile
  pub succeeds : List IpCommand → IpCommand → Bool

pub record NetworkTunnel : Type 0 where
  pub tunname : List ℕ
  pub tunip : Option Ipv4Addr
  pub written : List (List ℕ)
  pub commands : List IpCommand

module _ ⦃os : Platform⦄ where
  unfoldable pub ipcmd : NetworkTunnel → IpCommand → Outcome NetworkTunnel
  ipcmd t command = do
    assert (os.succeeds t.commands command) command_failed
    ok (record t { commands = t.commands ++ command ∷ [] })

  unfoldable pub iproute : NetworkTunnel → Ipv4Addr → Ipv4Addr → Outcome NetworkTunnel
  unfolding ipcmd
  iproute t dest via = do assert (is_private dest) not_private; ipcmd t (route_add dest via)

  unfoldable pub ipassign : NetworkTunnel → Ipv4Addr → Outcome NetworkTunnel
  unfolding ipcmd
  ipassign t addr = ipcmd t (addr_add addr)

  unfoldable pub assignipaddr : NetworkTunnel → Ipv4Addr → Outcome NetworkTunnel
  unfolding ipassign
  assignipaddr t ipaddr = ipassign t ipaddr

  unfoldable pub routeipaddr : NetworkTunnel → Ipv4Addr → Ipv4Addr → Outcome NetworkTunnel
  unfolding iproute
  routeipaddr t dest via = iproute t dest via

  -- `NetworkTunnel::new`, on an interface of the given name
  unfoldable pub new : List ℕ → Outcome NetworkTunnel
  unfolding ipassign ipcmd
  new tunname = do
    t ←
        ipassign
          (record { tunname = tunname; tunip = some (ip 10 107 1 3); written = []; commands = [] })
          (ip 10 107 1 3)
    ipcmd t link_up

module _ {P : Type 0} ⦃pc : PacketCrate P⦄ where
  -- `NetworkTunnel::send`: four bytes of packet information, and the packet
  unfoldable pub send : NetworkTunnel → P → NetworkTunnel
  send t packet = record t {
    written = t.written ++ (0x00 ∷ 0x00 ∷ 0x08 ∷ 0x00 ∷ pc.as_ref packet) ∷ [];
  }

  -- One round of `tunloop` on a buffer that holds `size` bytes: the packet to forward, if any.
  unfoldable pub tun_read : List ℕ → ℕ → Outcome (Option P)
  unfolding get_range
  tun_read buffer size = do
    assert (leb 4 size) out_of_range
    bytes ← expect (get_range buffer 4 size) out_of_range
    ok (pc.new bytes)
