-- ===== src/Device/Tests.antt =====
-- A node's identity on concrete addresses.
use meshtastenstein_rs.Base.{◌≡◌, refl, [], ◌∷◌}
use meshtastenstein_rs.Device.{build_node_id_string, hex_byte}

-- "!deadbeef"
deadbeef : build_node_id_string 0xdeadbeef ≡ 33 ∷ 100 ∷ 101 ∷ 97 ∷ 100 ∷ 98 ∷ 101 ∷ 101 ∷ 102 ∷ []
unfolding build_node_id_string hex_byte
deadbeef = refl
