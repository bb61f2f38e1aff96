-- ===== src/Store/Agents/Identity.antt =====
-- `AuthenticateAgent` of internal/store/agent.go.
use poly_fleet.Base.{
  ℕ, Bool, false, ◌&&◌, Option, none, some, [], ◌∷◌, ◌==◌, if◌then◌else◌, Result, ok, err,
  unauthorized, find, length, drop,
}
use poly_fleet.Schema.{Text, Db, Node, AgentIdentity, bytes, is_none}
use poly_fleet.Store.Texts.{same_text, has_prefix}

-- `strings.Cut(s, ".")`: what stands before the first dot, if there is one.
unfoldable pub cut_dot : Text → Option Text
cut_dot [] = none
cut_dot (x ∷ s) = let rest = cut_dot s in if x == 46 then some [] else put x rest
  where
    put : ℕ → Option Text → Option Text
    put x none = none
    put x (some s) = some (x ∷ s)

-- `WHERE id = ? AND archived_at IS NULL` for a text that need not be an identifier.
abbrev pub has_id_text : (ℕ → Text) → Text → Node → Bool
has_id_text id_text part n = same_text (id_text n.id) part && is_none n.archived_at

abbrev pub is_credential : Text → Option Text → Bool
is_credential actual none = false
is_credential actual (some expected) = (length expected == 32) && same_text actual expected

module _ (sha256 : Text → Text) (id_text : ℕ → Text) where
  unfoldable pub identify : Text → Node → Result AgentIdentity
  identify credential n =
      if is_credential (sha256 credential) n.agent_credential_hash
      then ok (record {
        node_id = n.id;
        installation_id = n.agent_installation_id;
        adapter_type = n.adapter_type;
        enabled = n.enabled;
      })
      else err unauthorized

  abbrev pub identified : Text → Option Node → Result AgentIdentity
  identified credential none = err unauthorized
  identified credential (some n) = identify credential n

  unfoldable pub authenticate_part : Text → Option Text → Db → Result AgentIdentity
  authenticate_part credential none db = err unauthorized
  authenticate_part credential (some []) db = err unauthorized
  authenticate_part credential (some (x ∷ s)) db =
      identified credential (find (has_id_text id_text (x ∷ s)) db.nodes)

  -- "hya_" has four bytes.
  unfoldable pub authenticate_agent : Text → Db → Result AgentIdentity
  authenticate_agent credential db =
      if has_prefix credential (bytes "hya_")
      then authenticate_part credential (cut_dot (drop 4 credential)) db
      else err unauthorized
