-- ===== src/Store/Agents/Replay.antt =====
-- What a token does after `EnrollAgent` of internal/store/agent.go has taken it.
use poly_fleet.Base.{
  suc, ℕ, ◌+◌, ◌≤◌, ◌<◌, ◌≡◌, ◌≢◌, ◌⊎◌, ◌∙◌, refl, ap, subst, false, none, some, [], ◌∷◌,
  if◌then◌else◌, ok, err, conflict, ◌>>=◌, find, length, arith,
}
use poly_fleet.Schema.{Text, Db, Node, EnrollmentRow, is_none, is_live_node}
use poly_fleet.Store.Secret.{Crypto, IsLawful, seal, open_sealed-seal, seal-length}
use poly_fleet.Store.Agents.Tokens.{EnrollmentFacts, EnrollResponse, Codec, is_token}
use poly_fleet.Store.Agents.Invalidate.{replay_window, consumed_row}
use poly_fleet.Store.Agents.Enrol.{
  enrollment_aad, filled, capsule, open_response, replay_enrollment, write_enrollment, enroll_node,
  enroll_on, enroll_by, enroll_agent,
}
use poly_fleet.Store.Agents.Enrolled.{enroll_agent-Enrolled, token_after, node_after}

filled_text : (s : Text) → 1 ≤ length s → filled (some s) ≡ some s
filled_text [] h = absurd (ground arith)
filled_text (x ∷ s) h = refl

-- The kept response is there for the same request while the window lasts, and for no other.
capsule_same :
    (facts again : EnrollmentFacts) (ciphertext : Text) (now later : ℕ) (t : EnrollmentRow)
    → again.installation_id ≡ facts.installation_id
    → again.request_id ≡ facts.request_id
    → later ≤ now + replay_window
    → capsule again later (consumed_row facts ciphertext now t) ≡ filled (some ciphertext)
capsule_same facts again ciphertext now later t i r h = ground arith

capsule_other :
    (facts again : EnrollmentFacts) (ciphertext : Text) (now later : ℕ) (t : EnrollmentRow)
    → (again.installation_id ≢ facts.installation_id)
      ⊎ ((again.request_id ≢ facts.request_id) ⊎ (now + replay_window < later))
    → capsule again later (consumed_row facts ciphertext now t) ≡ none
capsule_other facts again ciphertext now later t h = ground arith

module _ (C : Crypto) (J : Codec) where
  -- What a request with a used token gets.
  used_token :
      (token : Text) (t u : EnrollmentRow) (n : Node) (facts : EnrollmentFacts) (key : Text)
      (now : ℕ) (db : Db)
      → find (is_token (C.sha256 token)) db.tokens ≡ some u
      → u.node_id ≡ t.node_id
      → find (is_live_node t.node_id) db.nodes ≡ some n
      → is_none u.consumed_at ≡ false
      → enroll_agent C J token facts key now db
        ≡ (replay_enrollment C J key u facts now >>= λ response. ok (response, db))
  unfolding enroll_agent
  used_token token t u n facts key now db found same live used =
      ap (enroll_by C J key facts now db) found
      ∙ ap (enroll_on C J key u facts now db) (ap (λ k. find (is_live_node k) db.nodes) same ∙ live)
      ∙ ap
          (λ b.
            if b
            then enroll_node C J key u n facts now db
            else (replay_enrollment C J key u facts now >>= λ response. ok (response, db)))
          used

  -- The kept response opens for the request that it was sealed for.
  open_response-seal :
      (lawful : IsLawful C) (t : EnrollmentRow) (facts again : EnrollmentFacts)
      (key ciphertext : Text) (draw now : ℕ) (r : EnrollResponse)
      → J.of_json (J.to_json r) ≡ some r
      → seal C draw key
          (J.to_json r)
          (enrollment_aad C J t.id t.node_id facts.installation_id facts.request_id)
        ≡ ok ciphertext
      → again.installation_id ≡ facts.installation_id
      → again.request_id ≡ facts.request_id
      → open_response C J key (consumed_row facts ciphertext now t) again (some ciphertext) ≡ ok r
  open_response-seal lawful t facts again key ciphertext draw now r json sealed installation
        request =
      let opened =
        open_sealed-seal C lawful draw key (J.to_json r)
          (enrollment_aad C J t.id t.node_id facts.installation_id facts.request_id) sealed in
      rw (installation, request, opened, json) refl

module _ (C : Crypto) (J : Codec) (token key : Text) (t : EnrollmentRow)
    (facts again : EnrollmentFacts) (now later : ℕ) (db db' : Db) (r : EnrollResponse)
    (found : find (is_token (C.sha256 token)) db.tokens ≡ some t) (fresh : t.consumed_at ≡ none)
    (enrolled : enroll_agent C J token facts key now db ≡ ok (r, db')) where
  -- A request with the token after the enrolment is answered from what the token keeps.
  answered : enroll_agent C J token again key later db' ≡ (
      open_response C J key
        (consumed_row facts
          (enroll_agent-Enrolled C J token t facts key now db r db' found fresh enrolled).ciphertext
          now
          t)
        again
        (capsule again later (
          consumed_row facts
            (enroll_agent-Enrolled C J token t facts key now db r db' found fresh
              enrolled).ciphertext
            now
            t))
      >>= λ response. ok (response, db'))
  unfolding replay_enrollment
  answered =
      let e = enroll_agent-Enrolled C J token t facts key now db r db' found fresh enrolled in
      let u = consumed_row facts e.ciphertext now t in
      subst
        (λ x. enroll_agent C J token again key later x ≡ (
          open_response C J key u again (capsule again later u) >>= λ response. ok (response, x)))
        e.written
        (used_token C J token t u _ again key later
          (write_enrollment C J t facts e.ciphertext now db)
          (token_after C J (C.sha256 token) t facts e.ciphertext now db found fresh) refl
          (node_after C J e.node t facts e.ciphertext now db e.live) refl)

  -- An Agent that sends its enrolment again within five minutes, with the same token, installation and
  -- request, gets the same response, and this changes nothing.
  pub enroll_replay :
      IsLawful C
      → ((x : EnrollResponse) → J.of_json (J.to_json x) ≡ some x)
      → again.installation_id ≡ facts.installation_id
      → again.request_id ≡ facts.request_id
      → later ≤ now + replay_window
      → enroll_agent C J token again key later db' ≡ ok (r, db')
  enroll_replay lawful json installation request soon =
      let e = enroll_agent-Enrolled C J token t facts key now db r db' found fresh enrolled in
      let u = consumed_row facts e.ciphertext now t in
      let kept : capsule again later u ≡ some e.ciphertext =
        capsule_same facts again e.ciphertext now later t installation request soon
        ∙ filled_text e.ciphertext
            (seal-length C lawful (suc db.drawn) key (J.to_json r) _ e.sealed) in
      let opened : open_response C J key u again (capsule again later u) ≡ ok r =
        ap (open_response C J key u again) kept
        ∙ open_response-seal C J lawful t facts again key e.ciphertext (suc db.drawn) now r (json r)
            e.sealed installation request in
      answered ∙ ap (λ m. m >>= λ response. ok (response, db')) opened

  -- After an enrolment its token enrols nobody else: a request of another installation or with another
  -- identifier, and any request after five minutes, is a conflict.
  pub enroll_single_use :
      (again.installation_id ≢ facts.installation_id)
        ⊎ ((again.request_id ≢ facts.request_id) ⊎ (now + replay_window < later))
      → enroll_agent C J token again key later db' ≡ err conflict
  enroll_single_use other =
      let e = enroll_agent-Enrolled C J token t facts key now db r db' found fresh enrolled in
      let u = consumed_row facts e.ciphertext now t in
      answered
      ∙ ap (λ o. open_response C J key u again o >>= λ response. ok (response, db'))
          (capsule_other facts again e.ciphertext now later t other)
