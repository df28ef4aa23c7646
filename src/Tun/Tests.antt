-- ===== src/Tun/Tests.antt =====
-- Tests of the TUN device's commands on macOS.
use hydravpn.Base.{◌≡◌, refl, true, false, List, [], ◌∷◌, ◌++◌, none, some, ok, err}
use hydravpn.Base.Bytes.{bytes_eq}
use hydravpn.Tun.Text.{Text as Word, is_empty}
use hydravpn.Tun.Commands.{
  darwin, linux, Command, Answer, Device, close_interface, set_dns_servers, ip_link_set,
}
use hydravpn.Tun.Gateway.{
  get_default_gateway, find_gateway, gateway_of, set_default_route, remove_default_route,
  gateway_word, default_word, via_word,
}
use hydravpn.Tun.{close, new, new_device, asked_name, configure, default_config}
use hydravpn.Tun.Dns.{set_dns, get_active_network_service, wi_fi}
use hydravpn.Tun.Servers.{set_dns-restores}
use hydravpn.Tun.Table.{Route, apply_all, close-restores_table}
use hydravpn.Base.Codes.{codes}
use hydravpn.Tun.Routes.{asked_default, set_default_route-restores, close_lost}

-- "1.2"
abbrev router : Word
router = 49 ∷ 46 ∷ 50 ∷ []

abbrev tunnel : Device
tunnel = record {
  name = 117 ∷ [];
  mtu = 1400;
  local_ip = 50 ∷ [];
  remote_ip = 51 ∷ [];
  subnet = none;
  original_gateway = [];
  vpn_server_ip = 52 ∷ [];
  original_dns = [];
  network_service = [];
}

-- The answers of a system with the gateway 1.2, in the form of each operating system.
abbrev answers : Answer
answers Command.route_get_default =
    ((10 ∷ 32 ∷ 32 ∷ gateway_word) ++ 32 ∷ (router ++ 10 ∷ []), true)
answers Command.ip_route_show_default =
    (default_word ++ 32 ∷ (via_word ++ 32 ∷ (router ++ 32 ∷ 10 ∷ [])), true)
answers _ = ([], true)

abbrev silent : Answer
silent _ = ([], false)

on_darwin : (get_default_gateway darwin answers).1 ≡ ok router
unfolding get_default_gateway find_gateway gateway_of bytes_eq
on_darwin = refl

on_linux : (get_default_gateway linux answers).1 ≡ ok router
unfolding get_default_gateway find_gateway gateway_of bytes_eq
on_linux = refl

set_default_route-restores_example :
    (gateway : Word) × ((get_default_gateway darwin answers).1 ≡ ok gateway)
    × (is_empty gateway ≡ false)
    × (asked_default (set_default_route darwin answers tunnel).1 (some router) ≡ some (51 ∷ []))
    × (asked_default (close darwin (set_default_route darwin answers tunnel).0) (some (51 ∷ []))
        ≡ some gateway)
unfolding set_default_route get_default_gateway find_gateway gateway_of bytes_eq
set_default_route-restores_example = set_default_route-restores answers tunnel (some router) refl

close_lost_example :
    asked_default (close darwin (set_default_route darwin silent tunnel).0) (some router) ≡ none
unfolding get_default_gateway
close_lost_example = close_lost silent tunnel (some router) {e = "exit status"} refl refl

-- "1.1\n2\n" are the servers of "Wi-Fi".
abbrev two_servers : Answer
two_servers (Command.get_dns_servers service) = (codes "1.1" ++ 10 ∷ (codes "2" ++ 10 ∷ []), true)
two_servers Command.route_get_default = ([], false)
two_servers _ = ([], true)

set_dns-restores_example :
    close darwin (set_dns darwin two_servers tunnel).0
    ≡ set_dns_servers wi_fi (codes "1.1" ∷ codes "2" ∷ [])
      ∷ (remove_default_route darwin tunnel ++ close_interface ∷ [])
unfolding get_active_network_service
set_dns-restores_example =
    set_dns-restores two_servers tunnel (codes "1.1") (codes "2" ∷ [])
      ((refl, (refl, (refl, (refl, tt)))), ((refl, (refl, tt)), tt)) refl refl

-- The default route through the gateway.
abbrev table : List Route
table = record { dest = none; via = router; metric = 100 } ∷ []

close-restores_table_example :
    (gateway : Word) × ((get_default_gateway linux answers).1 ≡ ok gateway)
    × (apply_all (set_default_route linux answers tunnel).1 table
        ≡ (table ++ record { dest = some (52 ∷ []); via = gateway; metric = 0 } ∷ [])
          ++ record { dest = none; via = 51 ∷ []; metric = 1 } ∷ [])
    × (apply_all
          (close linux (set_default_route linux answers tunnel).0)
          (apply_all (set_default_route linux answers tunnel).1 table)
        ≡ table)
unfolding set_default_route get_default_gateway find_gateway gateway_of bytes_eq
close-restores_table_example =
    close-restores_table answers tunnel table
      (record { host = refl; default_one = refl; tunnel = refl }) refl refl

-- An interface that cannot be configured is closed again.
torn_down :
    new linux silent (λ name. ok name) default_config
    ≡ some (
      ip_link_set (codes "hydra0") 1400 ∷ close_interface ∷ [],
      err "failed to configure TUN device",
    )
unfolding new new_device asked_name configure
torn_down = refl
