-- ===== src/Examples/Enrolling.antt =====
-- ghostbro-server/src/keys.rs: a key file with one client.
use ghostbro.Base.{ℕ, ◌≡◌, refl, Option, some, Bool, true, List, [], ◌∷◌, length, All, replicate}
use ghostbro.Base.Result.{ok}
use ghostbro.Keys.{
  AuthorizedClientConfig, AuthorizedClient, full, into_clients, clients_from, from_config,
  decode_public_key, decode_noise_public_key, index_to_client_id,
}
use ghostbro.Keys.Enroll.{IsEnrolled, into_clients-IsEnrolled}
use ghostbro.Packet.{key_id_for_public_key}
use ghostbro.Examples.Parts.{toy_crypto}

-- Text that stands for itself, and a curve with every point.
abbrev plain : List ℕ → Option (List ℕ)
plain text = some text

abbrev everywhere : List ℕ → Bool
everywhere point = true

abbrev config : AuthorizedClientConfig
config = record {
  name = 97 ∷ [];
  public_key = replicate 32 7;
  noise_public_key = replicate 32 8;
  tier = full;
  max_concurrent_sessions = some 3;
}

abbrev enrolled : AuthorizedClient
enrolled = record {
  name = 97 ∷ [];
  public_key = replicate 32 7;
  noise_public_key = replicate 32 8;
  key_id = key_id_for_public_key toy_crypto (replicate 32 7);
  client_id = 1;
  tier = full;
  max_concurrent_sessions = some 3;
}

accepted : into_clients toy_crypto plain everywhere (config ∷ []) ≡ ok (enrolled ∷ [])
unfolding into_clients clients_from from_config decode_public_key decode_noise_public_key
    index_to_client_id
accepted = refl

into_clients-IsEnrolled_example :
    (length {A = AuthorizedClient} (enrolled ∷ [])
      ≡ length {A = AuthorizedClientConfig} (config ∷ []))
    × All (IsEnrolled toy_crypto plain everywhere) (enrolled ∷ [])
into_clients-IsEnrolled_example =
    into_clients-IsEnrolled toy_crypto plain everywhere (config ∷ []) (enrolled ∷ []) accepted
