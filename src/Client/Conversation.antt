-- ===== src/Client/Conversation.antt =====
-- Packets through an established tunnel, in any number and both ways.
use hydravpn.Base.{
  ℕ, ◌≤◌, ◌≡◌, refl, sym, ap, ◌∙◌, subst, true, List, [], ◌∷◌, length, Option, none, some, ok, All,
}
use hydravpn.Base.Bytes.{be_value}
use hydravpn.Base.Slices.{slice}
use hydravpn.Crypto.Library.{Primitives, IsDocumented}
use hydravpn.Server.{ClientSession, Server, Effect, find_live, store, serve, route}
use hydravpn.Server.Sessions.{find_live-conn}
use hydravpn.Server.Keep.{IsServer, serve-IsServer, route-IsServer}
use hydravpn.Server.Route.{has_entry}
use hydravpn.Client.{Client, send, receive}
use hydravpn.Client as C
use hydravpn.Client.Tunnel.{IsTunnel}
use hydravpn.Client.Transfer.{upload, download}
use hydravpn.Client.Goroutines.Manual.{send-IsKept, receive-IsKept}

-- A packet from the client's TUN device or from the server's, with the random bytes that are drawn.
pub data Turn : Type 0 where
  upward : List ℕ → List ℕ → Turn
  downward : List ℕ → List ℕ → Turn

abbrev pub packet_of : Turn → List ℕ
packet_of (upward buf random) = buf
packet_of (downward buf random) = buf

abbrev pub packets : List Turn → List (List ℕ)
packets [] = []
packets (turn ∷ turns) = packet_of turn ∷ packets turns

-- The first packet that goes out on a connection, and the first that goes to a TUN device.
abbrev pub sent_up : List C.Effect → Option (List ℕ)
sent_up [] = none
sent_up (C.Effect.write_conn bytes ∷ out) = some bytes
sent_up (_ ∷ out) = sent_up out

abbrev pub sent_down : List Effect → Option (List ℕ)
sent_down [] = none
sent_down (Effect.write_conn conn bytes ∷ out) = some bytes
sent_down (_ ∷ out) = sent_down out

abbrev pub to_server_tun : List Effect → Option (List ℕ)
to_server_tun [] = none
to_server_tun (Effect.write_tun packet ∷ out) = some packet
to_server_tun (_ ∷ out) = to_server_tun out

abbrev pub to_client_tun : List C.Effect → Option (List ℕ)
to_client_tun [] = none
to_client_tun (C.Effect.write_tun packet ∷ out) = some packet
to_client_tun (_ ∷ out) = to_client_tun out

module _ {Aead : Type 0} (lib : Primitives Aead) where
  -- One packet from one TUN device to the other: what is sent is read at once, at time 0. `none` where it
  -- does not arrive.
  unfoldable pub carry :
      Server Aead → Client Aead → ℕ → Turn → Option (Server Aead × Client Aead × List ℕ)
  carry s c conn (upward buf random) = elim (send lib c buf (some random) true) [
    | none ↦ none
    | some (c', out, more) ↦ elim (sent_up out) [
      | none ↦ none
      | some bytes ↦ elim (find_live s.live conn) [
        | none ↦ none
        | some x ↦
            let (s', arrived) = serve lib s x (ok bytes) 0 in
            elim (to_server_tun arrived) [ none ↦ none | some packet ↦ some (s', c', packet) ]
      ]
    ]
  ]
  carry s c conn (downward buf random) =
      let (s', out) = route lib s buf (λ d. some random) in
      elim (sent_down out) [
        | none ↦ none
        | some bytes ↦ elim (receive lib c (ok bytes)) [
          | none ↦ none
          | some (c', arrived, more) ↦ elim (to_client_tun arrived) [
            | none ↦ none
            | some packet ↦ some (s', c', packet)
          ]
        ]
      ]

  -- A run of packets, one after the other, with those that arrive.
  unfoldable pub converse :
      Server Aead → Client Aead → ℕ → List Turn → Option (Server Aead × Client Aead × List (List ℕ))
  converse s c conn [] = some (s, c, [])
  converse s c conn (turn ∷ turns) = elim (carry s c conn turn) [
    | none ↦ none
    | some (s', c', packet) ↦ elim (converse s' c' conn turns) [
      | none ↦ none
      | some (s'', c'', arrived) ↦ some (s'', c'', packet ∷ arrived)
    ]
  ]

-- What the TUN devices and the random source give; the server's packets are for the address.
abbrev pub IsTurn : ℕ → Turn → Type 0
IsTurn address (upward buf random) = (length buf ≤ 2048) × (length random ≡ 16)
IsTurn address (downward buf random) =
    (20 ≤ length buf)
    × (length buf ≤ 2048)
    × (be_value (slice 16 20 buf) ≡ address)
    × (length random ≡ 16)

-- A sound server and a client at the two ends of a tunnel, both with a TUN device, and the handler of the
-- client's connection running and listed.
pub record IsLinked {Aead : Type 0} (s : Server Aead) (c : Client Aead) (conn address : ℕ)
    : Type 0 where
  pub sound : IsServer s
  pub session : ClientSession Aead
  pub found : find_live s.live conn ≡ some session
  pub listed : has_entry s.sessions conn ≡ true
  pub server_tun : s.has_tun ≡ true
  pub client_tun : c.has_tun ≡ true
  pub address_of : be_value c.assigned_ip ≡ address
  pub tunnel : IsTunnel c session

module _ {Aead : Type 0} (lib : Primitives Aead) (doc : IsDocumented lib) where
  carry-IsLinked :
      (s : Server Aead) (c : Client Aead) (conn address : ℕ) (turn : Turn)
      → IsLinked s c conn address
      → IsTurn address turn
      → (s' : Server Aead) × (c' : Client Aead) × (carry lib s c conn turn
          ≡ some (s', c', packet_of turn))
        × IsLinked s' c' conn address
  unfolding carry
  carry-IsLinked s c conn address (upward buf random) l t =
      let x = l.session in
      let same : x.conn ≡ conn = find_live-conn s.live conn {x = x} l.found in
      let found : find_live s.live x.conn ≡ some x = ap (find_live s.live) same ∙ l.found in
      let (bytes, c', x', sent, served, after, tunnel) =
        upload lib doc s x c buf random 0 l.tunnel found l.server_tun t.0 t.1 in
      let kept = send-IsKept lib c buf (some random) true {c' = c'} {more = true} sent in
      (
        store s x',
        c',
        rw (sent, l.found, served, carry) (ap (λ r. some (r.0, c', buf)) served),
        record {
          sound =
              subst IsServer (ap (λ r. r.0) served)
                (serve-IsServer lib s x (ok bytes) 0 found l.sound);
          session = x';
          found = ap (find_live (store s x').live) (sym same) ∙ after;
          listed = l.listed;
          server_tun = l.server_tun;
          client_tun = kept.tun ∙ l.client_tun;
          address_of = ap be_value kept.address ∙ l.address_of;
          tunnel = tunnel;
        },
      )
  carry-IsLinked s c conn address (downward buf random) l t =
      let x = l.session in
      let same : x.conn ≡ conn = find_live-conn s.live conn {x = x} l.found in
      let found : find_live s.live x.conn ≡ some x = ap (find_live s.live) same ∙ l.found in
      let (bytes, c', x', routed, received, after, tunnel) =
        download lib doc s x c buf random (λ d. some random) l.tunnel l.sound found
          (ap (has_entry s.sessions) same ∙ l.listed) l.client_tun t.0 t.1 (t.2 ∙ sym l.address_of)
          refl t.3 in
      let kept = receive-IsKept lib c (ok bytes) {c' = c'} {more = true} received in
      (
        store s x',
        c',
        rw (routed, received, carry) (ap (λ r. some (r.0, c', buf)) routed),
        record {
          sound =
              subst IsServer (ap (λ r. r.0) routed)
                (route-IsServer lib s buf (λ d. some random) l.sound);
          session = x';
          found = ap (find_live (store s x').live) (sym same) ∙ after;
          listed = l.listed;
          server_tun = l.server_tun;
          client_tun = kept.tun ∙ l.client_tun;
          address_of = ap be_value kept.address ∙ l.address_of;
          tunnel = tunnel;
        },
      )

  -- A sound server and a client are the ends of a tunnel, both with a TUN device, the client's handler
  -- running and listed. Any number of packets of at most 2048 bytes are put through it one after the
  -- other, from the client's side and, as IPv4 packets for the client's address, from the server's, in
  -- any order, each with 16 random bytes drawn. Each arrives at the other TUN device exactly as it was,
  -- in the order in which they were put in, and the two remain linked.
  pub converse-IsLinked :
      (s : Server Aead) (c : Client Aead) (conn address : ℕ) (turns : List Turn)
      → IsLinked s c conn address
      → All (IsTurn address) turns
      → (s' : Server Aead) × (c' : Client Aead) × (converse lib s c conn turns
          ≡ some (s', c', packets turns))
        × IsLinked s' c' conn address
  unfolding converse
  converse-IsLinked s c conn address [] l v = (s, c, refl, l)
  converse-IsLinked s c conn address (turn ∷ turns) l v =
      let (s', c', carried, linked) = carry-IsLinked s c conn address turn l v.0 in
      let (s'', c'', rest, end) = converse-IsLinked s' c' conn address turns linked v.1 in
      (s'', c'', rw (carried, rest, converse) refl, end)
