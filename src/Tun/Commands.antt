-- ===== src/Tun/Commands.antt =====
-- `TUNDevice`, the operating systems, and the commands that are run on them.
use hydravpn.Base.{ℕ, Bool, List, [], ◌∷◌, Option, if◌then◌else◌}
use hydravpn.Tun.Text.{Text as Word, is_empty}

-- `runtime.GOOS`
pub data Os : Type 0 where
  darwin linux other : Os

-- The commands, with their variable arguments in order.
pub data Command : Type 0 where
  ifconfig : Word → Word → Word → ℕ → Command
  route_add_net : Word → ℕ → Word → Command
  route_get_default : Command
  route_add_host : Word → Word → Command
  route_delete_default : Command
  route_add_default : Word → Command
  route_delete_host : Word → Command
  get_dns_servers : Word → Command
  set_dns_servers : Word → List Word → Command
  list_hardware_ports : Command
  ip_link_set : Word → ℕ → Command
  ip_addr_add : Word → ℕ → Word → Command
  ip_route_show_default : Command
  ip_route_add : Word → Word → Command
  ip_route_add_default : Word → Command
  ip_route_del_default : Word → Command
  ip_route_del : Word → Command
  which_resolvectl : Command
  resolvectl_dns : Word → List Word → Command
  close_interface : Command

-- What a command prints, and whether it succeeds.
abbrev pub Answer : Type 0
Answer = Command → Word × Bool

pub record Device : Type 0 where
  pub name : Word
  pub mtu : ℕ
  pub local_ip : Word
  pub remote_ip : Word
  pub subnet : Option (Word × ℕ)
  pub original_gateway : Word
  pub vpn_server_ip : Word
  pub original_dns : Word
  pub network_service : Word

-- A command that is run only if a text is not empty.
abbrev pub unless_empty : Word → Command → List Command
unless_empty text command = if is_empty text then [] else command ∷ []
