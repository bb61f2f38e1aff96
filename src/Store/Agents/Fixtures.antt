-- ===== src/Store/Agents/Fixtures.antt =====
-- Test data of the enrolments: a cipher that pads, texts of identifiers, and a node with a token.
use poly_fleet.Base.{
  ℕ, zero, suc, ◌≡◌, ◌≢◌, refl, false, Option, none, some, [], ◌∷◌, exists, ◌==◌, length, drop,
  arith,
}
use poly_fleet.Schema.{Text, Db, EnrollmentRow, bytes, native_hysteria2}
use poly_fleet.Store.Fixtures.{start}
use poly_fleet.Store.Secret.{Crypto, IsLawful}
use poly_fleet.Store.Agents.Tokens.{EnrollmentFacts, EnrollResponse, Codec}
use poly_fleet.Store.Agents.Known.{AreIds}

abbrev eight : ℕ → Text → Text
eight x s = x ∷ x ∷ x ∷ x ∷ x ∷ x ∷ x ∷ x ∷ s

abbrev digest : Text → Text
digest [] = eight 1 (eight 1 (eight 1 (eight 1 [])))
digest (x ∷ s) = eight x (eight x (eight x (eight x [])))

abbrev pub crypto : Crypto
crypto = record {
  sha256 = digest;
  random_token = λ n. n ∷ [];
  nonce = λ n. eight 0 (eight 0 (eight 0 []));
  aead_seal = λ key nonce plaintext associated. eight 0 (eight 0 plaintext);
  aead_open = λ key nonce payload associated. some (drop 16 payload);
}

pub crypto-IsLawful : IsLawful crypto
crypto-IsLawful = record {
  hash_size = digest_size;
  nonce_size = λ n. refl;
  overhead = λ key nonce plaintext associated. ground arith;
  open_sealed = λ key nonce plaintext associated. refl;
}
  where
    digest_size : (t : Text) → length (digest t) ≡ 32
    digest_size [] = refl
    digest_size (x ∷ s) = refl

-- Identifiers are written with one digit.
abbrev pub unary : ℕ → Text
unary zero = 48 ∷ []
unary (suc n) = 48 ∷ unary n

pub unary-AreIds : AreIds unary
unfolding exists
unary-AreIds = record {
  injective = unary_injective;
  not_empty = unary_filled;
  no_dot = unary_undotted;
}
  where
    unary_injective : (a b : ℕ) → unary a ≡ unary b → a ≡ b
    unary_injective zero zero h = refl
    unary_injective zero (suc zero) h = absurd (ground arith)
    unary_injective zero (suc (suc b)) h = absurd (ground arith)
    unary_injective (suc zero) zero h = absurd (ground arith)
    unary_injective (suc (suc a)) zero h = absurd (ground arith)
    unary_injective (suc a) (suc b) h = ground (arith, unary_injective a b)

    unary_filled : (a : ℕ) → unary a ≢ []
    unary_filled zero h = absurd (ground arith)
    unary_filled (suc a) h = absurd (ground arith)

    unary_undotted : (a : ℕ) → exists (λ (c : ℕ). c == 46) (unary a) ≡ false
    unary_undotted zero = refl
    unary_undotted (suc a) = unary_undotted a

abbrev of_numbers : Text → Option EnrollResponse
of_numbers (a ∷ b ∷ c ∷ d ∷ e ∷ s) = some (record {
  node_id = a;
  node_credential = s;
  protocol = b;
  heartbeat_seconds = c;
  desired_seconds = d;
  server_time = e;
})
of_numbers _ = none

abbrev pub codec : Codec
codec = record {
  id_text = unary;
  to_json = λ r.
      r.node_id ∷ r.protocol ∷ r.heartbeat_seconds ∷ r.desired_seconds ∷ r.server_time
      ∷ r.node_credential;
  of_json = of_numbers;
}

pub codec_reads : (x : EnrollResponse) → codec.of_json (codec.to_json x) ≡ some x
codec_reads x = refl

abbrev pub token : Text
token = 5 ∷ []

abbrev pub row : EnrollmentRow
row = record {
  id = 11;
  node_id = 1;
  token_hash = digest (5 ∷ []);
  expires_at = 900;
  consumed_at = none;
  bound_installation_id = none;
  bound_request_id = none;
  response_ciphertext = none;
  response_expires_at = none;
  created_by = 3;
  created_at = 0;
}

abbrev pub issued : Db
issued = record start { tokens = row ∷ [] }

abbrev pub facts : ℕ → ℕ → EnrollmentFacts
facts installation request = record {
  installation_id = installation;
  request_id = request;
  agent_version = bytes "1";
  os_name = [];
  os_version = [];
  architecture = [];
  adapter_type = native_hysteria2;
  core_name = [];
  capabilities = bytes "b" ∷ bytes "a" ∷ bytes "b" ∷ [];
}

abbrev pub master_key : Text
master_key = digest []
