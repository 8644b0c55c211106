-- ===== src/Circuits/Address/Tests.antt =====
-- A server with a client in entry 1.
use spark_fun_lo_ra_serial.Base.{
  ℕ, ◌≡◌, refl, arith, inr, true, false, List, replicate, set, ap, sym, ◌∙◌, ℕ_discrete,
  get_or-set_ne, get_or-replicate,
}
use spark_fun_lo_ra_serial.Datagram.{Circuit, link_alive}
use spark_fun_lo_ra_serial.Serial.Sample.{idle, port}
use spark_fun_lo_ra_serial.Circuits.{Circuits, circuit, outside, vc_unassigned, erased_id}
use spark_fun_lo_ra_serial.Circuits.Tags.{tag}
use spark_fun_lo_ra_serial.Circuits.Address.{vc_id_to_address_byte}
use spark_fun_lo_ra_serial.Circuits.Address.Unique.{IsUnique, Assigned, vc_id_to_address_byte_lem}

abbrev id_of : ℕ → List ℕ
id_of n = replicate 16 n

abbrev client : Circuit
client = record outside { unique_id = id_of 7; valid = true; vc_state = link_alive }

abbrev server : Circuits
server = record {
  list = set (replicate 32 outside) 1 client;
  nvm = set (replicate 32 erased_id) 1 (id_of 7);
  connecting = replicate 32 false;
  serial = record idle { settings = record idle.settings { server = true } };
}

server-tag : (i : ℕ) (id : List ℕ) → tag (circuit server i) ≡ (true, id) → i ≡ 1
server-tag i id e = elim (ℕ_discrete 1 i) [
  | yes same ↦ sym same
  | no ne ↦ cc (
    ap (λ (c : Circuit). c.valid)
        (get_or-set_ne (replicate 32 outside) {i = 1} {j = i} client outside ne
          ∙ get_or-replicate 32 outside i),
    ap (λ q. q.0) e,
  )
]

server-IsUnique : IsUnique server
server-IsUnique = record {
  sized = refl;
  one = λ i j id a b. omega (arith, server-tag i id a, server-tag j id b);
}

vc_id_to_address_byte_lem_example :
    IsUnique (vc_id_to_address_byte port vc_unassigned (id_of 9) server).1
    × Assigned (id_of 9) server (vc_id_to_address_byte port vc_unassigned (id_of 9) server)
vc_id_to_address_byte_lem_example =
    vc_id_to_address_byte_lem port vc_unassigned (id_of 9) server server-IsUnique (inr refl)
