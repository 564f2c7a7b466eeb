-- ===== src/Keys/Enroll.antt =====
-- ghostbro-server/src/keys.rs: the clients that a key file enrolls.
use ghostbro.Base.{
  ℕ, suc, ◌+◌, ◌≤◌, ◌≡◌, refl, ap, Option, Bool, true, List, [], ◌∷◌, length, All, arith,
}
use ghostbro.Base.Result.{ok, >>=-eq-ok}
use ghostbro.Crypto.{Crypto}
use ghostbro.Packet.{key_id_for_public_key}
use ghostbro.Keys.{
  AuthorizedClientConfig, AuthorizedClient, decode_public_key, decode_noise_public_key, from_config,
  clients_from, into_clients, index_to_client_id,
}

client_id_range : (index : ℕ) → (1 ≤ index_to_client_id index) × (index_to_client_id index ≤ 65535)
unfolding index_to_client_id
client_id_range index = ground arith

module _ (c : Crypto) (base64_decode : List ℕ → Option (List ℕ)) (is_point : List ℕ → Bool) where
  -- What holds of every enrolled client.
  pub record IsEnrolled (client : AuthorizedClient) : Type 0 where
    pub keyed : client.key_id ≡ key_id_for_public_key c client.public_key
    pub sized : length client.public_key ≡ 32
    pub on_curve : is_point client.public_key ≡ true
    pub noise_sized : length client.noise_public_key ≡ 32
    pub above_zero : 1 ≤ client.client_id
    pub in_u16 : client.client_id ≤ 65535

  from_config-IsEnrolled :
      (config : AuthorizedClientConfig) (index : ℕ) (client : AuthorizedClient)
      → from_config c base64_decode is_point config (index_to_client_id index) ≡ ok client
      → IsEnrolled client
  unfolding from_config decode_public_key decode_noise_public_key
  from_config-IsEnrolled config index client e =
      let range = client_id_range index in
      record {
        keyed = ground (arith, e);
        sized = ground (arith, e);
        on_curve = ground (arith, e);
        noise_sized = ground (arith, e);
        above_zero = ground (arith, e, range);
        in_u16 = ground (arith, e, range);
      }

  clients_from-IsEnrolled :
      (index : ℕ) (configs : List AuthorizedClientConfig) (clients : List AuthorizedClient)
      → clients_from c base64_decode is_point index configs ≡ ok clients
      → (length clients ≡ length configs) × All IsEnrolled clients
  unfolding clients_from
  clients_from-IsEnrolled index [] clients e = let empty : clients ≡ [] = cc in rw empty (refl, tt)
  clients_from-IsEnrolled index (config ∷ configs) clients e =
      let (client, first, rest) =
        >>=-eq-ok (from_config c base64_decode is_point config (index_to_client_id index)) _ e in
      let (others, next, whole) =
        >>=-eq-ok (clients_from c base64_decode is_point (index + 1) configs) _ rest in
      let parts : clients ≡ client ∷ others = cc whole in
      let (size, all) = clients_from-IsEnrolled (index + 1) configs others next in
      rw parts (ap suc size, (from_config-IsEnrolled config index client first, all))

  -- A key file that is accepted enrolls as many clients as it lists, each under the hash of its key,
  -- with keys of 32 bytes, the first a point of the curve, and with an id from 1 to 65535.
  pub into_clients-IsEnrolled :
      (configs : List AuthorizedClientConfig) (clients : List AuthorizedClient)
      → into_clients c base64_decode is_point configs ≡ ok clients
      → (length clients ≡ length configs) × All IsEnrolled clients
  unfolding into_clients
  into_clients-IsEnrolled configs clients e = clients_from-IsEnrolled 0 configs clients e
