-- ===== src/Store/Agents/Known.antt =====
-- An Agent that `EnrollAgent` of internal/store/agent.go has taken is known to `AuthenticateAgent`.
use poly_fleet.Base.{
  ℕ, ◌≡◌, ◌≢◌, ◌∙◌, refl, sym, ap, subst, true, false, ◌&&◌, none, some, List, [], ◌∷◌, ◌++◌, inl,
  inr, ◌==◌, ok, find, find_ext, exists, Bool-cases, length, arith,
}
use poly_fleet.Schema.{Text, Db, Node, EnrollmentRow, bytes, is_none, is_live_node}
use poly_fleet.Store.Texts.{same_text, has_prefix}
use poly_fleet.Store.Texts.Same.{same_text_refl, same_text_eq}
use poly_fleet.Store.Secret.{Crypto, IsLawful}
use poly_fleet.Store.Agents.Tokens.{EnrollmentFacts, EnrollResponse, Codec, is_token}
use poly_fleet.Store.Agents.Invalidate.{bound_node}
use poly_fleet.Store.Agents.Enrol.{response_of, write_enrollment, enroll_agent}
use poly_fleet.Store.Agents.Enrolled.{enroll_agent-Enrolled, node_after}
use poly_fleet.Store.Agents.Identity.{
  cut_dot, has_id_text, identify, identified, authenticate_part, authenticate_agent,
}

-- Texts of identifiers differ, are not empty, and have no dot.
pub record AreIds (id_text : ℕ → Text) : Type 0 where
  pub injective : (a b : ℕ) → id_text a ≡ id_text b → a ≡ b
  pub not_empty : (a : ℕ) → id_text a ≢ []
  pub no_dot : (a : ℕ) → exists (λ (c : ℕ). c == 46) (id_text a) ≡ false

cut_dot-append :
    (s rest : Text) → exists (λ (c : ℕ). c == 46) s ≡ false → cut_dot (s ++ (46 ∷ rest)) ≡ some s
unfolding cut_dot exists
cut_dot-append [] rest h = refl
cut_dot-append (x ∷ s) rest h = ground (arith, cut_dot-append s rest)

module _ (id_text : ℕ → Text) (ids : AreIds id_text) where
  same_id : (a b : ℕ) → same_text (id_text a) (id_text b) ≡ (a == b)
  same_id a b = elim (Bool-cases (a == b)) [
    | inl hit ↦
        let is : a ≡ b = ground arith in
        rw hit
          (subst (λ k. same_text (id_text a) (id_text k) ≡ true) is (same_text_refl (id_text a)))
    | inr miss ↦ elim (Bool-cases (same_text (id_text a) (id_text b))) [
      | inl same ↦
          let is = ids.injective a b (same_text_eq (id_text a) (id_text b) same) in
          absurd (ground arith)
      | inr other ↦ rw (miss, other) refl
    ]
  ]

  -- The node with the text of an identifier is the one with the identifier.
  find-has_id_text :
      (k : ℕ) (nodes : List Node)
      → find (has_id_text id_text (id_text k)) nodes ≡ find (is_live_node k) nodes
  find-has_id_text k nodes =
      find_ext _ _ (λ n. ap (λ b. b && is_none n.archived_at) (same_id n.id k)) nodes

  authenticate_part-id :
      (sha256 : Text → Text) (credential : Text) (k : ℕ) (db : Db)
      → authenticate_part sha256 id_text credential (some (id_text k)) db
        ≡ identified sha256 id_text credential (find (is_live_node k) db.nodes)
  unfolding authenticate_part
  authenticate_part-id sha256 credential k db =
      go (id_text k) (ids.not_empty k)
      ∙ ap (identified sha256 id_text credential) (find-has_id_text k db.nodes)
    where
      go :
          (part : Text)
          → part ≢ []
          → authenticate_part sha256 id_text credential (some part) db
            ≡ identified sha256 id_text credential (find (has_id_text id_text part) db.nodes)
      go [] h = absurd (h refl)
      go (x ∷ s) h = refl

  -- A credential names the node whose identifier stands between "hya_" and the first dot.
  authenticate_agent-id :
      (sha256 : Text → Text) (k : ℕ) (secret : Text) (db : Db)
      → authenticate_agent sha256 id_text (bytes "hya_" ++ (id_text k ++ (46 ∷ secret))) db
        ≡ identified sha256 id_text
            (bytes "hya_" ++ (id_text k ++ (46 ∷ secret)))
            (find (is_live_node k) db.nodes)
  unfolding authenticate_agent has_prefix
  authenticate_agent-id sha256 k secret db =
      let credential = bytes "hya_" ++ (id_text k ++ (46 ∷ secret)) in
      ap (λ o. authenticate_part sha256 id_text credential o db)
        (cut_dot-append (id_text k) secret (ids.no_dot k))
      ∙ authenticate_part-id sha256 credential k db

identify_bound :
    (C : Crypto) (id_text : ℕ → Text) (credential : Text) (facts : EnrollmentFacts) (now : ℕ)
    (n : Node)
    → IsLawful C
    → identify C.sha256 id_text credential (bound_node facts (C.sha256 credential) now n)
      ≡ ok (record {
        node_id = n.id;
        installation_id = facts.installation_id;
        adapter_type = n.adapter_type;
        enabled = n.enabled;
      })
unfolding identify
identify_bound C id_text credential facts now n lawful =
    let size : (length (C.sha256 credential) == 32) ≡ true =
      rw (lawful.hash_size credential) refl in
    rw (size, same_text_refl (C.sha256 credential)) refl

-- The credential of the response to a first enrolment authenticates the Agent as the token's node, with
-- the installation that enrolled.
pub enroll-authenticate :
    (C : Crypto) (J : Codec) (token : Text) (t : EnrollmentRow) (n : Node) (facts : EnrollmentFacts)
    (key : Text) (now : ℕ) (db : Db) (r : EnrollResponse) (db' : Db)
    → IsLawful C
    → AreIds J.id_text
    → find (is_token (C.sha256 token)) db.tokens ≡ some t
    → t.consumed_at ≡ none
    → find (is_live_node t.node_id) db.nodes ≡ some n
    → enroll_agent C J token facts key now db ≡ ok (r, db')
    → authenticate_agent C.sha256 J.id_text r.node_credential db'
      ≡ ok (record {
        node_id = n.id;
        installation_id = facts.installation_id;
        adapter_type = n.adapter_type;
        enabled = n.enabled;
      })
enroll-authenticate C J token t n facts key now db r db' lawful ids found fresh live enrolled =
    let e = enroll_agent-Enrolled C J token t facts key now db r db' found fresh enrolled in
    let credential = (response_of C J t.node_id now db).node_credential in
    let W = write_enrollment C J t facts e.ciphertext now db in
    let known =
      authenticate_agent-id J.id_text ids C.sha256 t.node_id (C.random_token db.drawn) W
      ∙ ap (identified C.sha256 J.id_text credential)
          (node_after C J n t facts e.ciphertext now db live)
      ∙ identify_bound C J.id_text credential facts now n lawful in
    ap (λ (x : EnrollResponse). authenticate_agent C.sha256 J.id_text x.node_credential db')
      (sym e.response)
    ∙ ap (authenticate_agent C.sha256 J.id_text credential) (sym e.written)
    ∙ known
