-- ===== src/Server/Stages/Tests.antt =====
-- A handshake in stages under the transparent primitives of Crypto/Toy.
use hydravpn.Base.{◌≢◌, ◌⊎◌, ℕ, ◌+◌, ◌≤◌, ◌≡◌, refl, true, List, [], ◌∷◌, ◌++◌, some, ok}
use hydravpn.Base.Int.{pos, to_int64, to_uint64}
use hydravpn.Base.Bytes.{be_bytes, le_bytes, be_value, bytes_eq, read_full}
use hydravpn.Crypto.{clamp, compute_shared_secret, derive_session_keys}
use hydravpn.Crypto.Toy.{toy, pair_a, pair_b}
use hydravpn.Protocol.{
  unmarshal_packet, marshal, new_packet, marshal_handshake_init, unmarshal_handshake_init,
}
use hydravpn.Client.{init_bytes}
use hydravpn.Server.{subnet_base, new_server, delete_id, find_live, handshake_keys}
use hydravpn.Server.IpPool.{new_ip_pool, allocate, scan, candidate, contains, max_hosts}
use hydravpn.Server.Sessions.{ips}
use hydravpn.Server.Route.{has_entry}
use hydravpn.Server.Tests.{first, padding, one_client}
use hydravpn.Server.Life.Handlers.{phase_of, set_phase}
use hydravpn.Server.Stages.{
  Stages, made, listed, list_session, start_handler, publish, make, new_stages, Reach, here, next,
  connects, makes, publishes,
}
use hydravpn.Server.Stages.Table.{in_table}
use hydravpn.Server.Stages.Sound.{IsStages}
use hydravpn.Server.Stages.Addresses.{Reach-IsStages, Reach-staged_addresses}

-- The session is in the table, and its response is not yet written.
abbrev pub half : Stages (List ℕ)
half = record { server = one_client; handlers = (1, listed) ∷ [] }

abbrev with_session : Stages (List ℕ)
with_session = record { server = record one_client { sessions = [] }; handlers = (1, made) ∷ [] }

made_first :
    make toy
      (start_handler (new_stages pair_b true) 1)
      1
      (ok (init_bytes pair_a (pos 1700) (some padding)))
      100
      (some (0 ∷ 0 ∷ 0 ∷ 0 ∷ 0 ∷ 0 ∷ 0 ∷ 5 ∷ []))
    ≡ some (with_session, [])
unfolding make start_handler set_phase new_server new_ip_pool init_bytes handshake_keys allocate
    scan candidate contains max_hosts unmarshal_packet marshal new_packet be_bytes le_bytes be_value
    clamp compute_shared_secret derive_session_keys bytes_eq read_full marshal_handshake_init
    unmarshal_handshake_init delete_id to_int64 to_uint64
made_first = refl

pub to_half : Reach toy (new_stages pair_b true) half (([] ++ []) ++ [] ++ [])
unfolding start_handler publish list_session set_phase phase_of find_live delete_id
to_half =
    next
      (next (next here (connects 1 refl)) (
        makes 1 (ok (init_bytes pair_a (pos 1700) (some padding))) 100
          (some (0 ∷ 0 ∷ 0 ∷ 0 ∷ 0 ∷ 0 ∷ 0 ∷ 5 ∷ [])) {m = with_session} {out = []} refl
          made_first))
      (publishes first refl refl)

pub half-IsStages : IsStages half
half-IsStages = Reach-IsStages toy pair_b true to_half

Reach-staged_addresses_example :
    ((subnet_base + 2 ≢ subnet_base + 2) ⊎ (first.conn ≡ first.conn))
    × (subnet_base + 2 ≤ subnet_base + 2)
    × (subnet_base + 2 ≤ subnet_base + 254)
    × ((a : ℕ) → contains half.server.ip_pool.used a ≡ contains (ips half.server.live) a)
    × ((b : ℕ)
        → has_entry half.server.sessions b ≡ true
        → in_table (phase_of half.handlers b) ≡ true)
Reach-staged_addresses_example =
    Reach-staged_addresses toy pair_b true 1 1 {x = first} {y = first} to_half
      (unfold find_live in refl) (unfold find_live in refl)
