-- ===== src/Tun/Table.antt =====
-- What the commands of `SetDefaultRoute` and `Close` do to the routing table of Linux.
use hydravpn.Base.{
  ℕ, ◌≡◌, refl, sym, ap, ◌∙◌, Bool, true, false, ◌&&◌, ◌||◌, List, [], ◌∷◌, ◌++◌, append-nil, arith,
  ◌==◌, Bool-cases, Result-cases, inl, inr, Option, none, some, Result, ok, err, if◌then◌else◌,
}
use hydravpn.Base.Bytes.{bytes_eq, bytes_eq_iff}
use hydravpn.Tun.Text.{Text as Word, is_empty}
use hydravpn.Tun.Commands.{
  linux, Command, Answer, Device, ip_route_add, ip_route_add_default, ip_route_del_default,
  ip_route_del, ip_route_show_default, close_interface,
}
use hydravpn.Tun.Gateway.{get_default_gateway, set_default_route, remove_default_route}
use hydravpn.Tun.Dns.{restore_dns}
use hydravpn.Tun.{close}

-- A route to one host, or the default route, with its gateway and metric.
pub record Route : Type 0 where
  pub dest : Option Word
  pub via : Word
  pub metric : ℕ

abbrev pub leads_to : Option Word → Route → Bool
leads_to none r = elim r.dest [ none ↦ true | some h ↦ false ]
leads_to (some host) r = elim r.dest [ none ↦ false | some h ↦ bytes_eq h host ]

abbrev pub any : (Route → Bool) → List Route → Bool
any test [] = false
any test (r ∷ rest) = test r || any test rest

abbrev pub delete_first : (Route → Bool) → List Route → List Route
delete_first test [] = []
delete_first test (r ∷ rest) = if test r then rest else r ∷ delete_first test rest

-- `ip route add` refuses a route to a destination that has one of the same metric.
abbrev pub conflicts : Route → Route → Bool
conflicts new r = leads_to new.dest r && r.metric == new.metric

abbrev pub add_route : List Route → Route → List Route
add_route table new = if any (conflicts new) table then table else table ++ new ∷ []

abbrev pub default_via : Word → Route → Bool
default_via gateway r = leads_to none r && bytes_eq r.via gateway

-- The commands of `ip` that change the table.
abbrev pub apply : Command → List Route → List Route
apply (Command.ip_route_add host gateway) table =
    add_route table (record { dest = some host; via = gateway; metric = 0 })
apply (Command.ip_route_add_default gateway) table =
    add_route table (record { dest = none; via = gateway; metric = 1 })
apply (Command.ip_route_del_default gateway) table = delete_first (default_via gateway) table
apply (Command.ip_route_del host) table = delete_first (leads_to (some host)) table
apply _ table = table

abbrev pub apply_all : List Command → List Route → List Route
apply_all [] table = table
apply_all (command ∷ rest) table = apply_all rest (apply command table)

apply_all-append :
    (xs ys : List Command) (table : List Route)
    → apply_all (xs ++ ys) table ≡ apply_all ys (apply_all xs table)
apply_all-append [] ys table = refl
apply_all-append (x ∷ xs) ys table = apply_all-append xs ys (apply x table)

any-append :
    (test : Route → Bool) (xs ys : List Route) → any test (xs ++ ys) ≡ (any test xs || any test ys)
any-append test [] ys = refl
any-append test (x ∷ xs) ys = elim (Bool-cases (test x)) [
  | inl e ↦ rw e refl
  | inr e ↦ rw e (any-append test xs ys)
]

-- The first match is behind a prefix without one.
delete_first-append :
    (test : Route → Bool) (xs : List Route) (r : Route) (rest : List Route)
    → any test xs ≡ false
    → test r ≡ true
    → delete_first test (xs ++ r ∷ rest) ≡ xs ++ rest
delete_first-append test [] r rest none_before hit = rw hit refl
delete_first-append test (x ∷ xs) r rest none_before hit = elim (Bool-cases (test x)) [
  | inl e ↦ absurd (ground (arith, e))
  | inr e ↦
      let after : any test xs ≡ false = sym (rw e refl) ∙ none_before in
      rw e (ap (◌∷◌ x) (delete_first-append test xs r rest after hit))
]

bytes_eq_self : (word : Word) → bytes_eq word word ≡ true
bytes_eq_self word = (bytes_eq_iff word word).1 refl

-- A table that has none of the routes that the device will add.
pub record IsClear (d : Device) (table : List Route) : Type 0 where
  pub host : any (leads_to (some d.vpn_server_ip)) table ≡ false
  pub default_one : any (λ r. leads_to none r && r.metric == 1) table ≡ false
  pub tunnel : any (default_via d.remote_ip) table ≡ false

no_conflict :
    (host : Word) (metric : ℕ) (table : List Route)
    → any (leads_to (some host)) table ≡ false
    → any (λ r. leads_to (some host) r && r.metric == metric) table ≡ false
no_conflict host metric [] h = refl
no_conflict host metric (r ∷ table) h = elim (Bool-cases (leads_to (some host) r)) [
  | inl e ↦
      let yes : any (leads_to (some host)) (r ∷ table) ≡ true = rw e refl in
      absurd (ground (arith, h, yes))
  | inr e ↦ rw e (no_conflict host metric table (sym (rw e refl) ∙ h))
]

abbrev host_route : Device → Word → Route
host_route d gateway = record { dest = some d.vpn_server_ip; via = gateway; metric = 0 }

abbrev tunnel_route : Device → Route
tunnel_route d = record { dest = none; via = d.remote_ip; metric = 1 }

-- The table after both routes are added, and after they are deleted.
added_routes :
    (d : Device) (gateway : Word) (table : List Route)
    → IsClear d table
    → apply (ip_route_add_default d.remote_ip) (apply (ip_route_add d.vpn_server_ip gateway) table)
      ≡ (table ++ host_route d gateway ∷ []) ++ tunnel_route d ∷ []
added_routes d gateway table v =
    let first : any (conflicts (host_route d gateway)) table ≡ false =
      no_conflict d.vpn_server_ip 0 table v.host in
    let second : any (conflicts (tunnel_route d)) (table ++ host_route d gateway ∷ []) ≡ false =
      any-append (conflicts (tunnel_route d)) table (host_route d gateway ∷ [])
      ∙ rw v.default_one refl in
    rw first (rw second refl)

deleted_routes :
    (d : Device) (gateway : Word) (table : List Route)
    → IsClear d table
    → apply (ip_route_del d.vpn_server_ip) (
        apply
          (ip_route_del_default d.remote_ip)
          ((table ++ host_route d gateway ∷ []) ++ tunnel_route d ∷ []))
      ≡ table
deleted_routes d gateway table v =
    let before : any (default_via d.remote_ip) (table ++ host_route d gateway ∷ []) ≡ false =
      any-append (default_via d.remote_ip) table (host_route d gateway ∷ []) ∙ rw v.tunnel refl in
    let first =
      delete_first-append (default_via d.remote_ip) (table ++ host_route d gateway ∷ [])
        (tunnel_route d) [] before (bytes_eq_self d.remote_ip) in
    let second =
      delete_first-append (leads_to (some d.vpn_server_ip)) table (host_route d gateway) [] v.host
        (bytes_eq_self d.vpn_server_ip) in
    ap (delete_first (leads_to (some d.vpn_server_ip)))
      (first ∙ append-nil (table ++ host_route d gateway ∷ []))
    ∙ second
    ∙ append-nil table

-- On Linux, on a routing table that has no route to the VPN server, no default route of metric 1 and
-- none through the tunnel, the commands of a `SetDefaultRoute` that succeeds add the default route
-- into the tunnel and the route to the server through the gateway that was found, and those of `Close`
-- give the table back as it was.
pub close-restores_table :
    (answer : Answer) (d : Device) (table : List Route)
    → IsClear d table
    → is_empty d.vpn_server_ip ≡ false
    → (set_default_route linux answer d).2 ≡ ok tt
    → (gateway : Word) × ((get_default_gateway linux answer).1 ≡ ok gateway)
      × (apply_all (set_default_route linux answer d).1 table
          ≡ (table ++ host_route d gateway ∷ []) ++ tunnel_route d ∷ [])
      × (apply_all
            (close linux (set_default_route linux answer d).0)
            (apply_all (set_default_route linux answer d).1 table)
          ≡ table)
unfolding set_default_route get_default_gateway
close-restores_table answer d table v named h =
    elim (Result-cases (get_default_gateway linux answer).1) [
      | inl (e, f) ↦
          let failed : ◌≡◌ {A = Result (Unit {0})} (err "failed to get default gateway") (ok tt) =
            sym (rw (f, set_default_route) refl) ∙ h in
          absurd cc
      | inr (gateway, f) ↦
          let device : (set_default_route linux answer d).0
              ≡ record d { original_gateway = gateway } =
            rw (f, set_default_route) refl in
          let commands : (set_default_route linux answer d).1
              ≡ ip_route_show_default
                ∷ ip_route_add d.vpn_server_ip gateway
                ∷ ip_route_add_default d.remote_ip
                ∷ [] =
            rw (f, set_default_route) (rw named refl) in
          let closing : close linux (record d { original_gateway = gateway })
              ≡ ip_route_del_default d.remote_ip
                ∷ ip_route_del d.vpn_server_ip
                ∷ close_interface
                ∷ [] =
            unfold close in unfold remove_default_route in unfold restore_dns in rw named refl in
          let after = added_routes d gateway table v in
          (
            gateway,
            f,
            rw commands after,
            rw (device, closing, commands) (rw after (deleted_routes d gateway table v)),
          )
    ]
