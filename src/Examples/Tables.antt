-- ===== src/Examples/Tables.antt =====
-- The UDP codec and the session table on concrete contents.
use clew_proxy.Prelude.{◌+◌, ◌≡◌, ◌↔◌, some, List, [], ◌∷◌, arith}
use clew_proxy.Udp.Codec.{encode, decode}
use clew_proxy.Udp.Codec.RoundTrip.{decode-encode}
use clew_proxy.Udp.SessionTable
use clew_proxy.Udp.SessionTable.{UdpSession, UdpSessionTable, dns_port, cleanup_expired, size}
use clew_proxy.Udp.SessionTable.Laws.{
  Operation, upserted, touched, removed, swept, perform_all, IsFresh, cleanup_expired_lem,
}

decode-encode_example :
    decode (encode 0x04030201 53 (1 ∷ 2 ∷ []))
    ≡ some (record { addr_net = 0x04030201; port_host = 53; payload = 1 ∷ 2 ∷ [] })
decode-encode_example = decode-encode 0x04030201 53 (1 ∷ 2 ∷ []) (omega arith) (omega arith)

abbrev session : UdpSession
session = record {
  orig_dst_addr = 1;
  orig_dst_port = dns_port;
  app_src_addr = 2;
  app_src_port = 4000;
  pid = 9;
  group_id = 0;
  ifidx = 0;
  subifidx = 0;
  last_active = 1000;
}

-- An upsert of two ports, a sweep that removes none, a touch and a removal.
abbrev operations : List Operation
operations =
    upserted 4000 session
    ∷ upserted 4001 session
    ∷ swept 9000 120
    ∷ touched 2000 4000
    ∷ removed 4001
    ∷ []

cleanup_expired_lem_example :
    let t = perform_all operations [] in
    let (kept, removed_count) = cleanup_expired 500000 120 t in
    ((clew_proxy.Udp.SessionTable.lookup 4000 kept ≡ some session)
      ↔ ((clew_proxy.Udp.SessionTable.lookup 4000 t ≡ some session) × IsFresh 500000 120 session))
    × (size kept + removed_count ≡ size t)
cleanup_expired_lem_example = cleanup_expired_lem operations 500000 120 4000 session
