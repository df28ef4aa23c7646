-- ===== src/Tun/Gateway.antt =====
-- The default route of pkg/tun/tun.go: finding the gateway, and setting and removing the route.
use hydravpn.Base.{
  not, List, [], ◌∷◌, ◌++◌, Option, none, some, Result, ok, err, ◌>>◌, fail_if, or_err,
  if◌then◌else◌,
}
use hydravpn.Base.Bytes.{bytes_eq}
use hydravpn.Tun.Text.{Text as Word, fields, split_lines, trim_space, has_prefix}
use hydravpn.Tun.Commands.{
  Os, darwin, linux, other, Command, Answer, Device, unless_empty, route_get_default,
  route_add_host, route_delete_default, route_add_default, route_delete_host, ip_route_show_default,
  ip_route_add, ip_route_add_default, ip_route_del_default, ip_route_del,
}

-- "via", "default", "gateway:"
abbrev pub via_word : Word
via_word = 118 ∷ 105 ∷ 97 ∷ []

abbrev pub default_word : Word
default_word = 100 ∷ 101 ∷ 102 ∷ 97 ∷ 117 ∷ 108 ∷ 116 ∷ []

abbrev pub gateway_word : Word
gateway_word = 103 ∷ 97 ∷ 116 ∷ 101 ∷ 119 ∷ 97 ∷ 121 ∷ 58 ∷ []

-- The second of the words.
abbrev pub second : List Word → Option Word
second [] = none
second (p ∷ []) = none
second (p ∷ q ∷ rest) = some q

-- The word after "via".
abbrev pub after_via : List Word → Option Word
after_via [] = none
after_via (p ∷ []) = none
after_via (p ∷ q ∷ rest) = if bytes_eq p via_word then some q else after_via (q ∷ rest)

abbrev pub or_else : Option Word → Option Word → Option Word
or_else none next = next
or_else (some q) next = some q

-- The gateway that a line names.
unfoldable pub gateway_of : Os → Word → Option Word
unfolding bytes_eq
gateway_of darwin line =
    if has_prefix (trim_space line) gateway_word then second (fields (trim_space line)) else none
gateway_of linux line =
    if has_prefix (trim_space line) default_word then after_via (fields (trim_space line)) else none
gateway_of other line = none

unfoldable pub find_gateway : Os → List Word → Option Word
unfolding gateway_of
find_gateway os [] = none
find_gateway os (line ∷ rest) = or_else (gateway_of os line) (find_gateway os rest)

-- `getDefaultGateway`
unfoldable pub get_default_gateway : Os → Answer → List Command × Result Word
unfolding find_gateway
get_default_gateway darwin answer =
    let (out, succeeded) = answer route_get_default in
    (
      route_get_default ∷ [],
      (do
        fail_if (not succeeded) "exit status"
        or_err (find_gateway darwin (split_lines out)) "gateway not found"),
    )
get_default_gateway linux answer =
    let (out, succeeded) = answer ip_route_show_default in
    (
      ip_route_show_default ∷ [],
      (do
        fail_if (not succeeded) "exit status"
        or_err (find_gateway linux (split_lines out)) "gateway not found"),
    )
get_default_gateway other answer = ([], err "unsupported OS")

unfoldable pub set_default_route : Os → Answer → Device → Device × List Command × Result (Unit {0})
unfolding get_default_gateway
set_default_route darwin answer d =
    let (asked, found) = get_default_gateway darwin answer in
    elim found [
      | err e ↦ (d, asked, err "failed to get default gateway")
      | ok gateway ↦ (
        record d { original_gateway = gateway },
        asked
            ++ (unless_empty d.vpn_server_ip (route_add_host d.vpn_server_ip gateway)
                ++ route_delete_default ∷ route_add_default d.remote_ip ∷ []),
        fail_if (not (answer (route_add_default d.remote_ip)).1) "failed to add default route",
      )
    ]
set_default_route linux answer d =
    let (asked, found) = get_default_gateway linux answer in
    elim found [
      | err e ↦ (d, asked, err "failed to get default gateway")
      | ok gateway ↦ (
        record d { original_gateway = gateway },
        asked
            ++ (unless_empty d.vpn_server_ip (ip_route_add d.vpn_server_ip gateway)
                ++ ip_route_add_default d.remote_ip ∷ []),
        fail_if (not (answer (ip_route_add_default d.remote_ip)).1) "failed to add default route",
      )
    ]
set_default_route other answer d = (d, [], err "unsupported OS")

-- `RemoveDefaultRoute`, which ignores how its commands end.
unfoldable pub remove_default_route : Os → Device → List Command
remove_default_route darwin d =
    route_delete_default
    ∷ (unless_empty d.original_gateway (route_add_default d.original_gateway)
        ++ unless_empty d.vpn_server_ip (route_delete_host d.vpn_server_ip))
remove_default_route linux d =
    ip_route_del_default d.remote_ip ∷ unless_empty d.vpn_server_ip (ip_route_del d.vpn_server_ip)
remove_default_route other d = []
