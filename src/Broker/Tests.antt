-- ===== src/Broker/Tests.antt =====
-- broker/mqtt: runs.
use kratos_transport_rpc.Prelude.{
  ◌≡◌, refl, none, some, List, [], ◌∷◌, map, index_byte, index_byte-none, arith,
}
use kratos_transport_rpc.Wire.{decimal}
use kratos_transport_rpc.Prelude.Text.{codes}
use kratos_transport_rpc.Io.{done}
use kratos_transport_rpc.Broker.{Cache, Empty, find_header, set_addrs, known_scheme}
use kratos_transport_rpc.Broker.Braces.{HeaderOf, find_header_lem}
use kratos_transport_rpc.Broker.Addresses.{
  Form, host, full, foreign, ssl, text_of, set_addrs-completed,
}

find_header_runs : find_header (codes "{a{b}c}rest") ≡ done 7
unfolding find_header
find_header_runs = refl

find_header_open : find_header (codes "{a{b}c") ≡ done 0
unfolding find_header
find_header_open = refl

set_addrs_runs :
    set_addrs
      (codes "tcp://host:1884" ∷ codes "ssl://secure" ∷ codes "http://no" ∷ codes "plain:99x" ∷ [])
    ≡ (codes "tcp://host:1884" ∷ codes "ssl://secure:8883" ∷ codes "tcp://plain:0" ∷ [])
unfolding set_addrs
set_addrs_runs = refl

set_addrs_default :
    set_addrs (codes "" ∷ codes "udp://x" ∷ []) ≡ (codes "tcp://127.0.0.1:1883" ∷ [])
unfolding set_addrs
set_addrs_default = refl

-- a port out of range becomes the largest one
set_addrs_clamps :
    set_addrs (codes "host:99999999999999999999" ∷ [])
    ≡ (codes "tcp://host:9223372036854775807" ∷ [])
unfolding set_addrs
set_addrs_clamps = refl

find_header_lem_example : HeaderOf (codes "{a{b}c}rest") (find_header (codes "{a{b}c}rest"))
find_header_lem_example = find_header_lem (codes "{a{b}c}rest")

abbrev forms : List Form
forms =
    full ssl (codes "secure") none
    ∷ foreign (codes "http") (codes "no")
    ∷ host (codes "plain") (some 99)
    ∷ []

set_addrs-completed_example :
    set_addrs (map text_of forms) ≡ codes "ssl://secure:8883" ∷ codes "tcp://plain:99" ∷ []
unfolding index_byte known_scheme decimal
set_addrs-completed_example = set_addrs-completed forms (
  (index_byte-none (codes "secure") b':' refl, tt),
  (
    (omega arith, index_byte-none (codes "http") b':' refl, refl),
    ((omega arith, index_byte-none (codes "plain") b':' refl, omega arith), tt),
  ),
)

abbrev cache : Cache Empty
cache = record { entries = []; timestamp = []; timeout = 5 }
