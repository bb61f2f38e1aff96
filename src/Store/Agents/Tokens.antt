-- ===== src/Store/Agents/Tokens.antt =====
-- What `EnrollAgent` of internal/store/agent.go is given and answers, and `CreateEnrollmentToken`. The
-- text of an identifier is `id_text`, and `encoding/json` writes a response by `to_json` and reads it
-- by `of_json`.
use poly_fleet.Base.{
  ℕ, suc, ◌+◌, Bool, true, false, ◌&&◌, Option, none, some, List, ◌∷◌, ◌==◌, Result, ok, err,
  not_found, find, delete,
}
use poly_fleet.Schema.{
  Text, Db, Adapter, native_hysteria2, standalone_sing_box, s_ui, sing_box_vless_reality,
  EnrollmentRow, is_none, is_live_node,
}
use poly_fleet.Store.Texts.{same_text}
use poly_fleet.Store.Secret.{Crypto}

pub record EnrollmentToken : Type 0 where
  pub id : ℕ
  pub node_id : ℕ
  pub token : Text
  pub expires_at : ℕ

pub record EnrollmentFacts : Type 0 where
  pub installation_id : ℕ
  pub request_id : ℕ
  pub agent_version : Text
  pub os_name : Text
  pub os_version : Text
  pub architecture : Text
  pub adapter_type : Adapter
  pub core_name : Text
  pub capabilities : List Text

pub record EnrollResponse : Type 0 where
  pub node_id : ℕ
  pub node_credential : Text
  pub protocol : ℕ
  pub heartbeat_seconds : ℕ
  pub desired_seconds : ℕ
  pub server_time : ℕ

pub record Codec : Type 0 where
  pub id_text : ℕ → Text
  pub to_json : EnrollResponse → Text
  pub of_json : Text → Option EnrollResponse

-- Adapters are compared by number, as the code compares their names.
abbrev pub adapter_code : Adapter → ℕ
adapter_code native_hysteria2 = 0
adapter_code standalone_sing_box = 1
adapter_code s_ui = 2
adapter_code sing_box_vless_reality = 3

abbrev pub is_reality : Adapter → Bool
is_reality sing_box_vless_reality = true
is_reality _ = false

abbrev pub major_version : ℕ
major_version = 1

module _ (C : Crypto) (new_uuid : ℕ → ℕ) where
  abbrev issued_row : ℕ → ℕ → ℕ → ℕ → Db → EnrollmentRow
  issued_row node admin now lifetime db = record {
    id = new_uuid (suc db.drawn);
    node_id = node;
    token_hash = C.sha256 (C.random_token db.drawn);
    expires_at = now + lifetime;
    consumed_at = none;
    bound_installation_id = none;
    bound_request_id = none;
    response_ciphertext = none;
    response_expires_at = none;
    created_by = admin;
    created_at = now;
  }

  -- `id` and `token_hash` are new, as they are drawn.
  unfoldable pub create_enrollment_token : ℕ → ℕ → ℕ → ℕ → Db → Result (EnrollmentToken × Db)
  create_enrollment_token node admin now lifetime db = elim (find (is_live_node node) db.nodes) [
    | none ↦ err not_found
    | some n ↦ ok (
      record {
        id = new_uuid (suc db.drawn);
        node_id = node;
        token = C.random_token db.drawn;
        expires_at = now + lifetime;
      },
      record db {
        tokens =
            issued_row node admin now lifetime db
            ∷ delete (λ t. (t.node_id == node) && is_none t.consumed_at) db.tokens;
        drawn = suc (suc db.drawn);
      },
    )
  ]

abbrev pub is_token : Text → EnrollmentRow → Bool
is_token hash t = same_text t.token_hash hash
