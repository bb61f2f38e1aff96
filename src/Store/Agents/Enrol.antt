-- ===== src/Store/Agents/Enrol.antt =====
-- `EnrollAgent` of internal/store/agent.go.
use poly_fleet.Base.{
  or_internal, ℕ, suc, Bool, false, ◌&&◌, not, Option, none, some, List, [], ◌∷◌, ◌++◌, ◌==◌, ltb,
  if◌then◌else◌, Result, ok, err, conflict, unsupported, expired, unauthorized, ◌>>=◌, find,
}
use poly_fleet.Schema.{Text, Db, Node, EnrollmentRow, bytes, is_none, is_live_node}
use poly_fleet.Store.Secret.{Crypto, seal, open_sealed}
use poly_fleet.Store.Agents.Capabilities.{
  normalize_agent_capabilities, contains_all_capabilities, replace_capabilities,
}
use poly_fleet.Store.Agents.Tokens.{
  EnrollmentFacts, EnrollResponse, Codec, adapter_code, is_reality, major_version, is_token,
}
use poly_fleet.Store.Agents.Invalidate.{
  bind_node, invalidate_credentials, invalidate_assignments, invalidate_reality, consume_token,
}

abbrev pub reality_capabilities : List Text
reality_capabilities =
    bytes "desired_state_v2" ∷ bytes "credential_material_v1" ∷ bytes "sing_box_vless_reality" ∷ []

abbrev is_bound : ℕ → Option ℕ → Bool
is_bound id none = false
is_bound id (some bound) = bound == id

abbrev is_open : ℕ → Option ℕ → Bool
is_open now none = false
is_open now (some expires_at) = not (ltb expires_at now)

-- A ciphertext that is not empty.
abbrev pub filled : Option Text → Option Text
filled none = none
filled (some []) = none
filled (some (x ∷ s)) = some (x ∷ s)

-- The response that is still kept for this request, if there is one.
abbrev pub capsule : EnrollmentFacts → ℕ → EnrollmentRow → Option Text
capsule facts now t =
    if is_bound facts.installation_id t.bound_installation_id
      && (is_bound facts.request_id t.bound_request_id && is_open now t.response_expires_at)
    then filled t.response_ciphertext
    else none

module _ (C : Crypto) (J : Codec) where
  -- `enrollmentAAD`
  abbrev pub enrollment_aad : ℕ → ℕ → ℕ → ℕ → Text
  enrollment_aad enrollment node installation request =
      J.id_text enrollment
      ++ (0 ∷ (J.id_text node ++ (0 ∷ (J.id_text installation ++ (0 ∷ J.id_text request)))))

  abbrev pub open_response :
      Text → EnrollmentRow → EnrollmentFacts → Option Text → Result EnrollResponse
  open_response key t facts none = err conflict
  open_response key t facts (some ciphertext) =
      open_sealed C key ciphertext
        (enrollment_aad t.id t.node_id facts.installation_id facts.request_id)
      >>= λ plaintext. or_internal (J.of_json plaintext)

  -- The answer to a request whose token has been used.
  unfoldable pub replay_enrollment :
      Text → EnrollmentRow → EnrollmentFacts → ℕ → Result EnrollResponse
  replay_enrollment key t facts now = open_response key t facts (capsule facts now t)

  abbrev pub response_of : ℕ → ℕ → Db → EnrollResponse
  response_of node now db = record {
    node_id = node;
    node_credential = bytes "hya_" ++ (J.id_text node ++ (46 ∷ C.random_token db.drawn));
    protocol = major_version;
    heartbeat_seconds = 15;
    desired_seconds = 10;
    server_time = now;
  }

  -- The writes of an enrolment, in the order of the code.
  unfoldable pub write_enrollment : EnrollmentRow → EnrollmentFacts → Text → ℕ → Db → Db
  write_enrollment t facts ciphertext now db =
      let node = t.node_id in
      let hash = C.sha256 (response_of node now db).node_credential in
      let bound = bind_node node facts hash now db in
      let credentials = invalidate_credentials node now bound in
      let assignments = invalidate_assignments node now credentials in
      let reality = invalidate_reality node now assignments in
      let replaced =
        replace_capabilities node (normalize_agent_capabilities facts.capabilities) now reality in
      let consumed = consume_token t.id facts ciphertext now replaced in
      record consumed { drawn = suc (suc db.drawn) }

  -- From the check of the token's age on.
  unfoldable pub enroll_node :
      Text → EnrollmentRow → Node → EnrollmentFacts → ℕ → Db → Result (EnrollResponse × Db)
  enroll_node key t n facts now db =
      if ltb t.expires_at now
      then err expired
      else if not (adapter_code n.adapter_type == adapter_code facts.adapter_type)
      then err conflict
      else if is_reality n.adapter_type
          && not (
              contains_all_capabilities (normalize_agent_capabilities facts.capabilities)
                reality_capabilities)
      then err unsupported
      else (seal C (suc db.drawn) key (J.to_json (response_of t.node_id now db))
            (enrollment_aad t.id t.node_id facts.installation_id facts.request_id)
          >>= λ ciphertext.
              ok (response_of t.node_id now db, write_enrollment t facts ciphertext now db))

  abbrev pub enroll_found :
      Text → EnrollmentRow → Node → EnrollmentFacts → ℕ → Db → Result (EnrollResponse × Db)
  enroll_found key t n facts now db =
      if is_none t.consumed_at
      then enroll_node key t n facts now db
      else (replay_enrollment key t facts now >>= λ response. ok (response, db))

  abbrev pub enroll_on :
      Text → EnrollmentRow → EnrollmentFacts → ℕ → Db → Option Node → Result (EnrollResponse × Db)
  enroll_on key t facts now db none = err unauthorized
  enroll_on key t facts now db (some n) = enroll_found key t n facts now db

  abbrev pub enroll_by :
      Text → EnrollmentFacts → ℕ → Db → Option EnrollmentRow → Result (EnrollResponse × Db)
  enroll_by key facts now db none = err unauthorized
  enroll_by key facts now db (some t) =
      enroll_on key t facts now db (find (is_live_node t.node_id) db.nodes)

  unfoldable pub enroll_agent :
      Text → EnrollmentFacts → Text → ℕ → Db → Result (EnrollResponse × Db)
  enroll_agent token facts key now db =
      enroll_by key facts now db (find (is_token (C.sha256 token)) db.tokens)
