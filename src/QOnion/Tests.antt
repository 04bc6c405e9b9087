-- ===== src/QOnion/Tests.antt =====
-- qonion/src/lib.rs: a pipeline with key bytes for one circuit, and requests.
use project_qlinux.Prelude.{
  ℕ, ◌≡◌, refl, true, false, none, List, [], ◌∷◌, ◌++◌, arith, replicate, length, ok, err,
}
use project_qlinux.KeyPool.{available, acquire, sum_available}
use project_qlinux.WcAuth.{new_session}
use project_qlinux.QTor.{SocketAddr, register_circuit, new_node}
use project_qlinux.QOnion.{
  QOnionPipeline, build_circuit, build_hops, send, connect, ipv4, domain, parse, auth_failed,
  init_failed,
}
use project_qlinux.QOnion.Socks.{domain_request, parse-domain_request}
use project_qlinux.QOnion.Pipeline.{send-build_circuit}

-- The bytes themselves stand for the text.
abbrev as_text : List ℕ → List ℕ
as_text name = name

ipv4_request :
    parse (List ℕ) as_text (5 ∷ 1 ∷ 0 ∷ 1 ∷ 93 ∷ 184 ∷ 216 ∷ 34 ∷ 0 ∷ 80 ∷ [])
    ≡ ok record { cmd = connect; addr = ipv4 (93 ∷ 184 ∷ 216 ∷ 34 ∷ []); port = 80 }
unfolding parse
ipv4_request = refl

parse-domain_request_example :
    parse (List ℕ) as_text (domain_request connect (97 ∷ 46 ∷ 98 ∷ []) 443)
    ≡ ok record { cmd = connect; addr = domain (97 ∷ 46 ∷ 98 ∷ []); port = 443 }
parse-domain_request_example =
    parse-domain_request (List ℕ) as_text connect (97 ∷ 46 ∷ 98 ∷ []) 443 (omega arith)

abbrev home : ℕ → SocketAddr
home port = record { ip = 127 ∷ 0 ∷ 0 ∷ 1 ∷ []; port = port }

abbrev pipeline : QOnionPipeline
pipeline = record {
  config = record {
    socks5_listen = home 9050;
    node_addrs = home 9001 ∷ home 9002 ∷ home 9003 ∷ [];
    min_key_bytes = 96;
  };
  pool = record {
    blocks =
        record { id = 0; bytes = replicate 32 1; state = available }
        ∷ record { id = 1; bytes = replicate 32 2; state = available }
        ∷ record { id = 2; bytes = replicate 64 3; state = available }
        ∷ [];
    next_id = 3;
    poisoned = false;
    low_water_mark = 64;
  };
  authenticated = true;
  node = none;
}

not_authenticated :
    (build_circuit (record pipeline { authenticated = false }) 7).0 ≡ err auth_failed
unfolding build_circuit
not_authenticated = refl

nothing_built : (send pipeline 7 (1 ∷ [])).0 ≡ err init_failed
unfolding send
nothing_built = refl

pipeline_built : (build_circuit pipeline 7).0 ≡ ok tt
unfolding build_circuit build_hops acquire sum_available new_session register_circuit new_node
pipeline_built = refl

send-build_circuit_example :
    (headers : List ℕ) × (p'' : QOnionPipeline) × (length headers ≡ 84)
    × (send (build_circuit pipeline 7).1 7 (1 ∷ 2 ∷ []) ≡ (ok (headers ++ (1 ∷ 2 ∷ [])), p''))
unfolding build_circuit build_hops acquire sum_available new_session register_circuit new_node
send-build_circuit_example =
    send-build_circuit pipeline (build_circuit pipeline 7).1 7 (1 ∷ 2 ∷ []) refl refl (omega arith)
      (omega arith)
