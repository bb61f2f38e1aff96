-- ===== src/Store/Agents/Enrolled.antt =====
-- What a success of `EnrollAgent` of internal/store/agent.go says, and the tables after it.
use poly_fleet.Base.{
  ◌⊎◌, ◌>>=◌, suc, ℕ, ◌≡◌, ◌∙◌, refl, ap, sym, subst, true, Bool, not, ◌&&◌, Option, none, some,
  inl, inr, ◌==◌, ltb, if◌then◌else◌, Result, ok, err, conflict, unsupported, expired, unauthorized,
  >>=-eq-ok, find, update, find-update, find_holds, patch_holds, &&-eq-true, Option-cases, eq_refl,
  arith,
}
use mathlib.Core.Option
use poly_fleet.Schema.{Text, Db, Node, EnrollmentRow, is_none, is_node, is_live_node}
use poly_fleet.Store.Secret.{Crypto, seal}
use poly_fleet.Store.Agents.Capabilities.{
  normalize_agent_capabilities, contains_all_capabilities, replace_capabilities,
}
use poly_fleet.Store.Agents.Tokens.{
  EnrollmentFacts, EnrollResponse, Codec, adapter_code, is_reality, is_token,
}
use poly_fleet.Store.Agents.Invalidate.{
  bound_node, bind_node, invalidate_credentials, invalidate_assignments, invalidate_reality,
  consumed_row, consume_token,
}
use poly_fleet.Store.Agents.Enrol.{
  enrollment_aad, response_of, replay_enrollment, write_enrollment, enroll_node, enroll_found,
  enroll_on, enroll_by, enroll_agent, reality_capabilities,
}

unanswered : {A : Type 0} {x : A} → ◌≡◌ {A = Result A} (err unauthorized) (ok x) → ⊥
unanswered h = ground arith

ok_pair :
    {a b : EnrollResponse} {x y : Db}
    → ◌≡◌ {A = Result (EnrollResponse × Db)} (ok (a, x)) (ok (b, y))
    → (a ≡ b) × (x ≡ y)
ok_pair h = (ground arith, ground arith)

if_fresh :
    {A : Type 0} (o : Option ℕ) (a b : Result A) {x : A}
    → o ≡ none
    → (if is_none o then a else b) ≡ ok x
    → a ≡ ok x
if_fresh none a b e h = h
if_fresh (some n) a b e h = absurd (ground arith)

if_used :
    {A : Type 0} (o : Option ℕ) (a b : Result A) {at : ℕ} {x : A}
    → o ≡ some at
    → (if is_none o then a else b) ≡ ok x
    → b ≡ ok x
if_used none a b e h = absurd (ground arith)
if_used (some n) a b e h = h

past_checks :
    {A : Type 0} (a b c : Bool) (m : Result A) {x : A}
    → (if a then err expired else if b then err conflict else if c then err unsupported else m)
      ≡ ok x
    → m ≡ ok x
past_checks a b c m h = ground arith

unused : (t : EnrollmentRow) → t.consumed_at ≡ none → (t.id == t.id && is_none t.consumed_at) ≡ true
unused t fresh = ground (arith, eq_refl t.id)

live_row : (node : ℕ) (n : Node) → is_live_node node n ≡ true → is_node node n ≡ true
live_row node n h = (&&-eq-true (n.id == node) (is_none n.archived_at) h).0

module _ (C : Crypto) (J : Codec) where
  -- What a first enrolment with a token says.
  pub record Enrolled (t : EnrollmentRow) (facts : EnrollmentFacts) (key : Text) (now : ℕ) (db : Db)
      (r : EnrollResponse) (db' : Db) : Type 0 where
    pub node : Node
    pub live : find (is_live_node t.node_id) db.nodes ≡ some node
    pub ciphertext : Text
    pub sealed :
        seal C
          (suc db.drawn)
          key
          (J.to_json r)
          (enrollment_aad C J t.id t.node_id facts.installation_id facts.request_id)
        ≡ ok ciphertext
    pub response : response_of C J t.node_id now db ≡ r
    pub written : write_enrollment C J t facts ciphertext now db ≡ db'

  pub enroll_agent-Enrolled :
      (token : Text) (t : EnrollmentRow) (facts : EnrollmentFacts) (key : Text) (now : ℕ) (db : Db)
      (r : EnrollResponse) (db' : Db)
      → find (is_token (C.sha256 token)) db.tokens ≡ some t
      → t.consumed_at ≡ none
      → enroll_agent C J token facts key now db ≡ ok (r, db')
      → Enrolled t facts key now db r db'
  unfolding enroll_agent enroll_node
  enroll_agent-Enrolled token t facts key now db r db' found fresh h =
      let by : enroll_on C J key t facts now db (find (is_live_node t.node_id) db.nodes)
          ≡ ok (r, db') =
        sym (ap (enroll_by C J key facts now db) found) ∙ h in
      elim (Option-cases (find (is_live_node t.node_id) db.nodes)) [
        | inl gone ↦ absurd (unanswered (sym (ap (enroll_on C J key t facts now db) gone) ∙ by))
        | inr (n, live) ↦
            let on : enroll_found C J key t n facts now db ≡ ok (r, db') =
              sym (ap (enroll_on C J key t facts now db) live) ∙ by in
            let taken : enroll_node C J key t n facts now db ≡ ok (r, db') =
              if_fresh t.consumed_at _ _ fresh on in
            let sealing =
              past_checks (ltb t.expires_at now)
                (not (adapter_code n.adapter_type == adapter_code facts.adapter_type))
                (is_reality n.adapter_type
                  && not (
                      contains_all_capabilities (normalize_agent_capabilities facts.capabilities)
                        reality_capabilities))
                _ taken in
            let (ciphertext, sealed, done) =
              >>=-eq-ok
                (seal C (suc db.drawn) key (J.to_json (response_of C J t.node_id now db))
                  (enrollment_aad C J t.id t.node_id facts.installation_id facts.request_id))
                _ sealing in
            let (answer, written) = ok_pair done in
            record {
              node = n;
              live = live;
              ciphertext = ciphertext;
              sealed =
                  subst
                    (λ x.
                      seal C (suc db.drawn) key (J.to_json x)
                        (enrollment_aad C J t.id t.node_id facts.installation_id facts.request_id)
                      ≡ ok ciphertext)
                    answer sealed;
              response = answer;
              written = written;
            }
      ]

  -- The tables after an enrolment.
  written_tokens :
      (t : EnrollmentRow) (facts : EnrollmentFacts) (ciphertext : Text) (now : ℕ) (db : Db)
      → (write_enrollment C J t facts ciphertext now db).tokens
        ≡ update
            (λ u. (u.id == t.id) && is_none u.consumed_at)
            (consumed_row facts ciphertext now)
            db.tokens
  unfolding write_enrollment bind_node invalidate_credentials invalidate_assignments
      invalidate_reality replace_capabilities consume_token
  written_tokens t facts ciphertext now db = refl

  pub written_nodes :
      (t : EnrollmentRow) (facts : EnrollmentFacts) (ciphertext : Text) (now : ℕ) (db : Db)
      → (write_enrollment C J t facts ciphertext now db).nodes
        ≡ update
            (is_node t.node_id)
            (bound_node facts (C.sha256 (response_of C J t.node_id now db).node_credential) now)
            db.nodes
  unfolding write_enrollment bind_node invalidate_credentials invalidate_assignments
      invalidate_reality replace_capabilities consume_token
  written_nodes t facts ciphertext now db = refl

  -- The token is found again, with what it is bound to.
  pub token_after :
      (hash : Text) (t : EnrollmentRow) (facts : EnrollmentFacts) (ciphertext : Text) (now : ℕ)
      (db : Db)
      → find (is_token hash) db.tokens ≡ some t
      → t.consumed_at ≡ none
      → find (is_token hash) (write_enrollment C J t facts ciphertext now db).tokens
        ≡ some (consumed_row facts ciphertext now t)
  token_after hash t facts ciphertext now db found fresh =
      rw (written_tokens t facts ciphertext now db) (
        find-update (is_token hash) _ (consumed_row facts ciphertext now) (λ u. refl) db.tokens
        ∙ ap (Option.map _) found
        ∙ ap some (
            patch_holds (λ u. (u.id == t.id) && is_none u.consumed_at)
              (consumed_row facts ciphertext now) t (unused t fresh)))

  pub node_after :
      (n : Node) (t : EnrollmentRow) (facts : EnrollmentFacts) (ciphertext : Text) (now : ℕ)
      (db : Db)
      → find (is_live_node t.node_id) db.nodes ≡ some n
      → find (is_live_node t.node_id) (write_enrollment C J t facts ciphertext now db).nodes
        ≡ some
            (bound_node facts (C.sha256 (response_of C J t.node_id now db).node_credential) now n)
  node_after n t facts ciphertext now db live =
      let f = bound_node facts (C.sha256 (response_of C J t.node_id now db).node_credential) now in
      rw (written_nodes t facts ciphertext now db) (
        find-update (is_live_node t.node_id) (is_node t.node_id) f (λ m. refl) db.nodes
        ∙ ap (Option.map _) live
        ∙ ap some (
            patch_holds (is_node t.node_id) f n
              (live_row t.node_id n (find_holds (is_live_node t.node_id) db.nodes live))))

  used_on :
      (key : Text) (t : EnrollmentRow) (facts : EnrollmentFacts) (now at : ℕ) (db : Db)
      (r : EnrollResponse) (db' : Db) (o : Option Node)
      → t.consumed_at ≡ some at
      → enroll_on C J key t facts now db o ≡ ok (r, db')
      → db ≡ db'
  used_on key t facts now at db r db' none used h = absurd (unanswered h)
  used_on key t facts now at db r db' (some n) used h =
      let replayed =
        if_used t.consumed_at (enroll_node C J key t n facts now db)
          (replay_enrollment C J key t facts now >>= λ response. ok (response, db)) used h in
      let (x, opened, done) = >>=-eq-ok (replay_enrollment C J key t facts now) _ replayed in
      (ok_pair done).1

  -- A success of any enrolment has changed nothing, or has written the enrolment.
  pub enroll_agent-Ends :
      (token : Text) (facts : EnrollmentFacts) (key : Text) (now : ℕ) (db : Db) (r : EnrollResponse)
      (db' : Db)
      → enroll_agent C J token facts key now db ≡ ok (r, db')
      → (db ≡ db')
        ⊎ ((t : EnrollmentRow) × (ciphertext : Text) × (write_enrollment C J t facts ciphertext now
                db
              ≡ db'))
  unfolding enroll_agent
  enroll_agent-Ends token facts key now db r db' h =
      elim (Option-cases (find (is_token (C.sha256 token)) db.tokens)) [
        | inl unknown ↦ absurd (unanswered (sym (ap (enroll_by C J key facts now db) unknown) ∙ h))
        | inr (t, found) ↦ elim (Option-cases t.consumed_at) [
          | inl fresh ↦
              let e = enroll_agent-Enrolled token t facts key now db r db' found fresh h in
              inr (t, e.ciphertext, e.written)
          | inr (at, used) ↦
              let on : enroll_on C J key t facts now db (find (is_live_node t.node_id) db.nodes)
                  ≡ ok (r, db') =
                sym (ap (enroll_by C J key facts now db) found) ∙ h in
              inl (
                used_on key t facts now at db r db' (find (is_live_node t.node_id) db.nodes) used
                  on)
        ]
      ]
