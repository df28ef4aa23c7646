-- ===== src/Tun.antt =====
-- pkg/tun/tun.go: the commands that set up the TUN interface, the routes and the DNS servers. What a
-- command prints and whether it succeeds is an argument of the operation that runs it; the commands
-- come out in the order in which they are run. Addresses are given as the text that is printed for
-- them. What is printed to the user is left out.
pub mod Text
pub mod Commands
pub mod Gateway
pub mod Dns
pub mod Routes
pub mod Servers
pub mod Table
pub mod Tests
use hydravpn.Base.{
  ℕ, Bool, true, false, not, ◌||◌, List, [], ◌∷◌, ◌++◌, Option, none, some, Result, ok, err, ◌>>=◌,
  ◌>>◌, fail_if, wrap, or_err, if◌then◌else◌,
}
use hydravpn.Base.Codes.{codes}
use hydravpn.Tun.Text.{Text as Word}
use hydravpn.Tun.Commands.{
  Os, darwin, linux, other, Command, Answer, Device, unless_empty, ifconfig, route_add_net,
  route_get_default, route_add_host, route_delete_default, route_add_default, route_delete_host,
  get_dns_servers, set_dns_servers, list_hardware_ports, ip_link_set, ip_addr_add,
  ip_route_show_default, ip_route_add, ip_route_add_default, ip_route_del_default, ip_route_del,
  which_resolvectl, resolvectl_dns, close_interface,
}
use hydravpn.Tun.Dns.{restore_dns}
use hydravpn.Tun.Gateway.{remove_default_route}

unfoldable pub close : Os → Device → List Command
unfolding restore_dns remove_default_route
close os d = restore_dns os d ++ (remove_default_route os d ++ close_interface ∷ [])

-- `configure`. On Linux a nil subnet is a panic: `none`.
unfoldable pub configure : Os → Answer → Device → Option (List Command × Result (Unit {0}))
configure darwin answer d =
    let up = ifconfig d.name d.local_ip d.remote_ip d.mtu in
    if not (answer up).1 then some (up ∷ [], err "ifconfig failed") else elim d.subnet [
      | none ↦ some (up ∷ [], ok tt)
      | some (net, ones) ↦ some (up ∷ route_add_net net ones d.remote_ip ∷ [], ok tt)
    ]
configure linux answer d =
    let up = ip_link_set d.name d.mtu in
    if not (answer up).1 then some (up ∷ [], err "ip link set failed") else elim d.subnet [
      | none ↦ none
      | some (net, ones) ↦
          let add = ip_addr_add d.local_ip ones d.name in
          some (up ∷ add ∷ [], fail_if (not (answer add).1) "ip addr add failed")
    ]
configure other answer d = some ([], err "unsupported OS")

-- An empty `vpn_server_ip` or name stands for a field that is not set, and the subnet may be nil.
pub record Config : Type 0 where
  pub name : Word
  pub mtu : ℕ
  pub local_ip : Word
  pub remote_ip : Word
  pub subnet : Option (Word × ℕ)
  pub vpn_server_ip : Word

abbrev pub default_config : Config
default_config = record {
  name = codes "hydra0";
  mtu = 1400;
  local_ip = codes "10.8.0.2";
  remote_ip = codes "10.8.0.1";
  subnet = some (codes "10.8.0.0", 24);
  vpn_server_ip = [];
}

-- The name that is asked for: on macOS the system chooses one.
unfoldable pub asked_name : Os → Word → Word
asked_name darwin name = []
asked_name linux name = name
asked_name other name = name

unfoldable pub new_device : Config → Word → Device
new_device cfg name = record {
  name = name;
  mtu = cfg.mtu;
  local_ip = cfg.local_ip;
  remote_ip = cfg.remote_ip;
  subnet = cfg.subnet;
  original_gateway = [];
  vpn_server_ip = cfg.vpn_server_ip;
  original_dns = [];
  network_service = [];
}

-- `New`, on the water library's answer to a name: the name of the interface that it has made. `none` is
-- the panic of `configure`.
unfoldable pub new :
    Os → Answer → (Word → Result Word) → Config → Option (List Command × Result Device)
unfolding new_device asked_name configure
new os answer water cfg = elim (water (asked_name os cfg.name)) [
  | err e ↦ some ([], err "failed to create TUN device")
  | ok name ↦ elim (configure os answer (new_device cfg name)) [
    | none ↦ none
    | some (commands, result) ↦ elim result [
      | err e ↦ some (commands ++ close_interface ∷ [], err "failed to configure TUN device")
      | ok _ ↦ some (commands, ok (new_device cfg name))
    ]
  ]
]
