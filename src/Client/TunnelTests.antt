-- ===== src/Client/TunnelTests.antt =====
-- Tests of the two ends of a tunnel.
use hydravpn.Base.{ℕ, ◌+◌, ◌≡◌, refl, true, List, [], ◌∷◌, arith, some, ok, err}
use hydravpn.Base.Int.{pos}
use hydravpn.Base.Bytes.{be_value}
use hydravpn.Crypto.Toy.{toy, toy-IsDocumented, nonce_tail}
use hydravpn.Server.{subnet_base, write_conn, close_conn, find_live, serve}
use hydravpn.Server.Leave.{IsLeft}
use hydravpn.Server.Tests.{padding, one_client, one_client-IsServer, first, for_client}
use hydravpn.Client.{Client, keep_alive, disconnect, receive}
use hydravpn.Client as C
use hydravpn.Client.Tests.{idle, client, client-IsTunnel}
use hydravpn.Server.Life.Handlers.{phase_of}
use hydravpn.Server.Stages.{Stages, Reach}
use hydravpn.Server.Stages.Tests.{half, half-IsStages}
use hydravpn.Client.Conversation.{IsLinked}
use hydravpn.Client.Early.{connect-refused_early}
use hydravpn.Client.Control.{disconnect-IsLeft}

pub linked : IsLinked one_client client 1 (subnet_base + 2)
unfolding be_value find_live
linked = record {
  sound = one_client-IsServer;
  session = first;
  found = refl;
  listed = refl;
  server_tun = refl;
  client_tun = refl;
  address_of = refl;
  tunnel = client-IsTunnel;
}

disconnect-IsLeft_example :
    (bytes : List ℕ) × ((disconnect client).1
      ≡ C.write_conn bytes ∷ C.close_conn ∷ C.close_tun ∷ [])
    × ((serve toy one_client first (ok bytes) 130).1 ≡ close_conn 1 ∷ [])
    × IsLeft one_client (serve toy one_client first (ok bytes) 130).0 first
disconnect-IsLeft_example =
    disconnect-IsLeft toy one_client first client 130 client-IsTunnel refl
      (unfold find_live in refl) one_client-IsServer

-- A packet for a client whose handshake the server has not answered.
connect-refused_early_example :
    (m : Stages (List ℕ)) × (early response : List ℕ) × Reach toy half m
      (write_conn 1 early ∷ write_conn 1 response ∷ [])
    × ((C.connect toy idle true (pos 1700) (some padding) true (ok early) true).2
        ≡ err "handshake failed")
connect-refused_early_example =
    connect-refused_early toy toy-IsDocumented half first idle for_client nonce_tail
      (λ c. some nonce_tail) (some padding) (pos 1700) (some padding) true half-IsStages
      (unfold phase_of in refl) (unfold find_live in refl) refl (omega arith) (omega arith)
      (omega arith) (unfold be_value in refl) refl refl
