-- ===== src/Client/Flow/Tests.antt =====
-- Tests of the tunnel with messages on the way.
use hydravpn.Base.{ℕ, ◌+◌, ◌≡◌, refl, Result, some, none, ok, true, List, [], ◌∷◌, ◌++◌, arith}
use hydravpn.Base.Bytes.{be_value}
use hydravpn.Crypto.Toy.{toy, toy-IsDocumented, nonce_tail}
use hydravpn.Base.Int.{pos}
use hydravpn.Crypto.Toy.{pair_b}
use hydravpn.Server.{subnet_base, find_live}
use hydravpn.Server.Accept.{accept_session-IsServer}
use hydravpn.Server.Interleaving.{accepts}
use hydravpn.Client.{init_bytes}
use hydravpn.Server.Tests.{padding, one_client, one_client-IsServer, first, for_client}
use hydravpn.Client.Tests.{client, client-IsTunnel}
use hydravpn.Client.TunnelTests.{linked}
use hydravpn.Client.Flow.{
  Flow, Reach, here, next, client_sends, client_keeps_alive, server_routes, others,
}
use hydravpn.Client.Flow.Messages.{send_item}
use hydravpn.Client.Flow.Drain.{Reach-delivers}

-- A handshake of another client, a packet up, one down and a keep-alive, none of them read yet.
Reach-delivers_example :
    (m : Flow (List ℕ)) × (m.put_up ≡ (1 ∷ 2 ∷ []) ∷ [])
    × (m.put_down ≡ for_client ∷ [])
    × (pending_up pending_down : List (List ℕ)) × (m.got_up ++ pending_up ≡ m.put_up)
    × (m.got_down ++ pending_down ≡ m.put_down)
    × (n : Flow (List ℕ)) × Reach toy m n
    × (n.put_up ≡ m.put_up)
    × (n.put_down ≡ m.put_down)
    × (n.got_up ≡ m.put_up)
    × (n.got_down ≡ m.put_down)
unfolding be_value
Reach-delivers_example =
    let (c', nonce, len, sent, kept, tun, address) =
      send_item toy toy-IsDocumented client first (1 ∷ 2 ∷ []) nonce_tail client-IsTunnel refl in
    let hello : Result (List ℕ) = ok (init_bytes pair_b (pos 1700) (some padding)) in
    let free : find_live one_client.live 2 ≡ none = unfold find_live in refl in
    let found : find_live one_client.live 1 ≡ some first = unfold find_live in refl in
    let (s', out, accepted, sound) =
      accept_session-IsServer toy one_client 2 hello 130 none none true free one_client-IsServer in
    let run =
      next
        (next
          (next
            (next here (
              others first found (accepts 2 hello 130 none none true free accepted)
                (omega arith, omega arith) refl))
            (server_routes for_client nonce_tail (omega arith) (omega arith) refl refl refl refl))
          (client_sends (1 ∷ 2 ∷ []) nonce_tail (omega arith) refl sent refl))
        (client_keeps_alive refl) in
    let (pending_up, pending_down, up, down, n, reading, put_up, put_down, all_up, all_down) =
      Reach-delivers toy toy-IsDocumented one_client client 1 (subnet_base + 2) "closed" "closed"
        linked run in
    (
      _, refl, refl, pending_up, pending_down, up, down, n, reading, put_up, put_down, all_up,
      all_down,
    )
