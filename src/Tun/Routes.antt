-- ===== src/Tun/Routes.antt =====
-- What the commands do to the default route of macOS.
use hydravpn.Base.{
  ◌≡◌, refl, sym, ◌∙◌, false, List, [], ◌∷◌, ◌++◌, All, All-append, Bool-cases, Option-cases,
  Result-cases, inl, inr, Option, none, some, Result, ok, err, String, if◌then◌else◌,
}
use hydravpn.Tun.Text.{
  Text as Word, is_empty, is_space, flush, fields_from, fields, trim_space, has_prefix, split_lines,
}
use hydravpn.Tun.Commands.{
  darwin, route_get_default, route_delete_host, route_add_host, close_interface, Command, Answer,
  Device, unless_empty, route_add_default, route_delete_default,
}
use hydravpn.Tun.Gateway.{
  gateway_word, second, gateway_of, find_gateway, get_default_gateway, set_default_route,
  remove_default_route,
}
use hydravpn.Tun.Dns.{restore_dns}
use hydravpn.Tun.{close}

-- What a command asks the default gateway to be.
abbrev pub step_default : Command → Option Word → Option Word
step_default (Command.route_add_default gateway) start = some gateway
step_default Command.route_delete_default start = none
step_default _ start = start

-- The default gateway that commands ask for, one after the other: the last one added, unless it was
-- deleted since.
abbrev pub asked_default : List Command → Option Word → Option Word
asked_default [] start = start
asked_default (command ∷ rest) start = asked_default rest (step_default command start)

abbrev NonEmpty : Word → Type 0
NonEmpty word = is_empty word ≡ false

flush-NonEmpty : (word : Word) → All NonEmpty (flush word)
flush-NonEmpty [] = tt
flush-NonEmpty (b ∷ bs) = (refl, tt)

fields_from-NonEmpty : (word text : Word) → All NonEmpty (fields_from word text)
fields_from-NonEmpty word [] = flush-NonEmpty word
fields_from-NonEmpty word (b ∷ bs) = elim (Bool-cases (is_space b)) [
  | inl e ↦ rw e (
      All-append NonEmpty (flush word) (fields_from [] bs) (flush-NonEmpty word)
        (fields_from-NonEmpty [] bs))
  | inr e ↦ rw e (fields_from-NonEmpty (word ++ b ∷ []) bs)
]

second-NonEmpty :
    (words : List Word) {q : Word} → All NonEmpty words → second words ≡ some q → NonEmpty q
second-NonEmpty [] v h = cc
second-NonEmpty (p ∷ []) v h = cc
second-NonEmpty (p ∷ r ∷ rest) {q} v h = let same : r ≡ q = cc in rw (← same) v.1.0

gateway_of-NonEmpty : (line : Word) {q : Word} → gateway_of darwin line ≡ some q → NonEmpty q
unfolding gateway_of
gateway_of-NonEmpty line {q} h = elim (Bool-cases (has_prefix (trim_space line) gateway_word)) [
  | inl e ↦
      second-NonEmpty (fields (trim_space line)) {q = q} (fields_from-NonEmpty [] (trim_space line))
        (sym (rw e refl) ∙ h)
  | inr e ↦ let none_some : ◌≡◌ {A = Option Word} none (some q) = sym (rw e refl) ∙ h in absurd cc
]

find_gateway-NonEmpty :
    (lines : List Word) {q : Word} → find_gateway darwin lines ≡ some q → NonEmpty q
unfolding find_gateway
find_gateway-NonEmpty [] h = cc
find_gateway-NonEmpty (line ∷ rest) {q} h = elim (Option-cases (gateway_of darwin line)) [
  | inl e ↦ find_gateway-NonEmpty rest {q = q} (sym (rw e refl) ∙ h)
  | inr (r, e) ↦
      let found : ◌≡◌ {A = Option Word} (some r) (some q) = sym (rw e refl) ∙ h in
      let same : r ≡ q = cc in rw (← same) (gateway_of-NonEmpty line {q = r} e)
]

get_default_gateway-NonEmpty :
    (answer : Answer) {gateway : Word}
    → (get_default_gateway darwin answer).1 ≡ ok gateway
    → NonEmpty gateway
unfolding get_default_gateway
get_default_gateway-NonEmpty answer {gateway} h = elim (Bool-cases (answer route_get_default).1) [
  | inr e ↦
      let failed : ◌≡◌ {A = Result Word} (err "exit status") (ok gateway) = sym (rw e refl) ∙ h in
      absurd cc
  | inl e ↦ elim (Option-cases (find_gateway darwin (split_lines (answer route_get_default).0))) [
    | inl f ↦
        let failed : ◌≡◌ {A = Result Word} (err "gateway not found") (ok gateway) =
          sym (rw (e, f) refl) ∙ h in
        absurd cc
    | inr (q, f) ↦
        let found : ◌≡◌ {A = Result Word} (ok q) (ok gateway) = sym (rw (e, f) refl) ∙ h in
        let same : q ≡ gateway = cc in
        rw (← same) (find_gateway-NonEmpty (split_lines (answer route_get_default).0) {q = q} f)
  ]
]

asked_default-append :
    (xs ys : List Command) (start : Option Word)
    → asked_default (xs ++ ys) start ≡ asked_default ys (asked_default xs start)
asked_default-append [] ys start = refl
asked_default-append (x ∷ xs) ys start = asked_default-append xs ys (step_default x start)

asked_default-unless_empty :
    (text : Word) (command : Command) (start : Option Word)
    → step_default command start ≡ start
    → asked_default (unless_empty text command) start ≡ start
asked_default-unless_empty [] command start h = refl
asked_default-unless_empty (b ∷ bs) command start h = h

asked_default-restore_dns :
    (d : Device) (start : Option Word) → asked_default (restore_dns darwin d) start ≡ start
unfolding restore_dns
asked_default-restore_dns d start = elim (Bool-cases (is_empty d.network_service)) [
  | inl e ↦ rw e refl
  | inr e ↦ rw e refl
]

-- What `Close` asks for on macOS: the gateway that `SetDefaultRoute` kept, if there is one.
asked_default-close :
    (d : Device) (start : Option Word)
    → asked_default (close darwin d) start
      ≡ (if is_empty d.original_gateway then none else some d.original_gateway)
unfolding close remove_default_route
asked_default-close d start =
    let host = unless_empty d.vpn_server_ip (route_delete_host d.vpn_server_ip) in
    let back = unless_empty d.original_gateway (route_add_default d.original_gateway) in
    asked_default-append (restore_dns darwin d) _ start
    ∙ asked_default-append (back ++ host) (close_interface ∷ []) none
    ∙ asked_default-append back host none
    ∙ asked_default-unless_empty d.vpn_server_ip (route_delete_host d.vpn_server_ip)
        (asked_default back none) refl
    ∙ added d.original_gateway
  where
    added :
        (gateway : Word)
        → asked_default (unless_empty gateway (route_add_default gateway)) none
          ≡ (if is_empty gateway then none else some gateway)
    added [] = refl
    added (b ∷ bs) = refl

-- After `SetDefaultRoute` succeeds on macOS the default route leads into the tunnel, and `Close` then
-- asks again for the gateway that was there before, a text that is not empty.
pub set_default_route-restores :
    (answer : Answer) (d : Device) (start : Option Word)
    → (set_default_route darwin answer d).2 ≡ ok tt
    → (gateway : Word) × ((get_default_gateway darwin answer).1 ≡ ok gateway)
      × (is_empty gateway ≡ false)
      × (asked_default (set_default_route darwin answer d).1 start ≡ some d.remote_ip)
      × (asked_default (close darwin (set_default_route darwin answer d).0) (some d.remote_ip)
          ≡ some gateway)
unfolding set_default_route
set_default_route-restores answer d start h =
    elim (Result-cases (get_default_gateway darwin answer).1) [
      | inl (e, f) ↦
          let failed : ◌≡◌ {A = Result (Unit {0})} (err "failed to get default gateway") (ok tt) =
            sym (rw (f, set_default_route) refl) ∙ h in
          absurd cc
      | inr (gateway, f) ↦
          let full = get_default_gateway-NonEmpty answer {gateway = gateway} f in
          let asked = (get_default_gateway darwin answer).0 in
          let host = unless_empty d.vpn_server_ip (route_add_host d.vpn_server_ip gateway) in
          let added = route_delete_default ∷ route_add_default d.remote_ip ∷ [] in
          let device : (set_default_route darwin answer d).0
              ≡ record d { original_gateway = gateway } =
            rw (f, set_default_route) refl in
          let commands : (set_default_route darwin answer d).1 ≡ asked ++ (host ++ added) =
            rw (f, set_default_route) refl in
          (
            gateway,
            f,
            full,
            rw commands (
                asked_default-append asked (host ++ added) start
                ∙ asked_default-append host added (asked_default asked start)),
            rw device (
                asked_default-close (record d { original_gateway = gateway }) (some d.remote_ip)
                ∙ rw full refl),
          )
    ]

-- The defect: where the gateway is not found on macOS, and none was found before, `Close` still deletes
-- the default route and adds none.
pub close_lost :
    (answer : Answer) (d : Device) (start : Option Word) {e : String}
    → d.original_gateway ≡ []
    → (get_default_gateway darwin answer).1 ≡ err e
    → asked_default (close darwin (set_default_route darwin answer d).0) start ≡ none
unfolding set_default_route
close_lost answer d start {e} blank failed =
    let kept : (set_default_route darwin answer d).0 ≡ d = rw (failed, set_default_route) refl in
    rw kept (asked_default-close d start ∙ rw blank refl)
