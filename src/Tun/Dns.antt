-- ===== src/Tun/Dns.antt =====
-- The DNS servers of pkg/tun/tun.go.
use hydravpn.Base.{not, ◌||◌, List, [], ◌∷◌, ◌++◌, none, some, Result, ok, fail_if, if◌then◌else◌}
use hydravpn.Base.Bytes.{bytes_eq}
use hydravpn.Tun.Text.{
  Text as Word, is_empty, fields, split_lines, trim_space, has_prefix, trim_prefix, contains_text,
}
use hydravpn.Tun.Commands.{
  Os, darwin, linux, other, Command, Answer, Device, route_get_default, get_dns_servers,
  set_dns_servers, list_hardware_ports, which_resolvectl, resolvectl_dns,
}
use hydravpn.Tun.Gateway.{second}

-- "Wi-Fi", "interface:", "Hardware Port:", "Hardware Port: ", "Device:"
abbrev pub wi_fi : Word
wi_fi = 87 ∷ 105 ∷ 45 ∷ 70 ∷ 105 ∷ []

abbrev pub interface_word : Word
interface_word = 105 ∷ 110 ∷ 116 ∷ 101 ∷ 114 ∷ 102 ∷ 97 ∷ 99 ∷ 101 ∷ 58 ∷ []

abbrev pub port_word : Word
port_word = 72 ∷ 97 ∷ 114 ∷ 100 ∷ 119 ∷ 97 ∷ 114 ∷ 101 ∷ 32 ∷ 80 ∷ 111 ∷ 114 ∷ 116 ∷ 58 ∷ []

abbrev pub device_word : Word
device_word = 68 ∷ 101 ∷ 118 ∷ 105 ∷ 99 ∷ 101 ∷ 58 ∷ []

-- The name in the first line that gives one; an empty text where there is none.
unfoldable pub find_interface : List Word → Word
find_interface [] = []
find_interface (line ∷ rest) =
    let after = find_interface rest in
    if has_prefix (trim_space line) interface_word
    then elim (second (fields (trim_space line))) [ none ↦ after | some name ↦ name ]
    else after

-- The service whose device is `iface`, with the last service that was named.
unfoldable pub find_service : Word → Word → List Word → Word
find_service iface current [] = wi_fi
find_service iface current (line ∷ rest) =
    let current' =
      if has_prefix line port_word then trim_prefix line (port_word ++ 32 ∷ []) else current in
    let after = find_service iface current' rest in
    if has_prefix line device_word
    then (if bytes_eq (trim_space (trim_prefix line device_word)) iface then current' else after)
    else after

-- `getActiveNetworkService`, which does not fail.
unfoldable pub get_active_network_service : Answer → List Command × Word
unfolding find_interface find_service
get_active_network_service answer =
    let (out, succeeded) = answer route_get_default in
    let iface = find_interface (split_lines out) in
    let (ports, listed) = answer list_hardware_ports in
    if not succeeded
    then (route_get_default ∷ [], wi_fi)
    else if is_empty iface
    then (route_get_default ∷ [], wi_fi)
    else (
      route_get_default ∷ list_hardware_ports ∷ [],
      if listed then find_service iface [] (split_lines ports) else wi_fi,
    )

-- 1.1.1.1 and 8.8.8.8
abbrev pub public_dns : List Word
public_dns = (49 ∷ 46 ∷ 49 ∷ 46 ∷ 49 ∷ 46 ∷ 49 ∷ []) ∷ (56 ∷ 46 ∷ 56 ∷ 46 ∷ 56 ∷ 46 ∷ 56 ∷ []) ∷ []

unfoldable pub set_dns : Os → Answer → Device → Device × List Command × Result (Unit {0})
unfolding get_active_network_service
set_dns darwin answer d =
    let (asked, service) = get_active_network_service answer in
    (
      record d {
        network_service = service;
        original_dns = trim_space (answer (get_dns_servers service)).0;
      },
      asked ++ get_dns_servers service ∷ set_dns_servers service public_dns ∷ [],
      fail_if (not (answer (set_dns_servers service public_dns)).1) "failed to set DNS",
    )
set_dns linux answer d = (
  d,
  which_resolvectl
      ∷ (if (answer which_resolvectl).1 then resolvectl_dns d.name public_dns ∷ [] else []),
  ok tt,
)
set_dns other answer d = (d, [], ok tt)

-- "There aren't any DNS Servers", and "Empty"
abbrev pub no_servers : Word
no_servers =
    84 ∷ 104 ∷ 101 ∷ 114 ∷ 101 ∷ 32 ∷ 97 ∷ 114 ∷ 101 ∷ 110 ∷ 39 ∷ 116 ∷ 32 ∷ 97 ∷ 110 ∷ 121 ∷ 32
    ∷ 68 ∷ 78 ∷ 83 ∷ 32 ∷ 83 ∷ 101 ∷ 114 ∷ 118 ∷ 101 ∷ 114 ∷ 115 ∷ []

abbrev pub empty_word : Word
empty_word = 69 ∷ 109 ∷ 112 ∷ 116 ∷ 121 ∷ []

-- `RestoreDNS`; that its command fails only shows in its result, which `Close` ignores.
unfoldable pub restore_dns : Os → Device → List Command
restore_dns darwin d =
    if is_empty d.network_service
    then []
    else set_dns_servers d.network_service (
        if is_empty d.original_dns || contains_text d.original_dns no_servers
        then empty_word ∷ []
        else fields d.original_dns)
      ∷ []
restore_dns linux d = []
restore_dns other d = []
