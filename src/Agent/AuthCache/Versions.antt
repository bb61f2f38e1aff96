-- ===== src/Agent/AuthCache/Versions.antt =====
-- Snapshots that `Apply` of internal/agent/auth_cache.go takes never go back.
use poly_fleet.Base.{
  ℕ, ◌≡◌, ◌≢◌, refl, sym, ap, ◌∙◌, subst, true, false, ◌&&◌, ◌||◌, not, Bool, ok, arith,
}
use poly_fleet.Schema.{Text, ℤ, pos, negsuc}
use poly_fleet.Store.Texts.{same_text, is_empty}
use poly_fleet.Store.Texts.Same.{same_text_eq}
use poly_fleet.Agent.AuthCache.{
  JsonCodec, AuthCacheDocument, AuthCache, DesiredSnapshot, document_of, apply, ltb_ℤ, same_ℤ,
}
use poly_fleet.Agent.AuthCache.Admits.{apply-Applied}

-- The caches that an Agent comes to by taking snapshots.
pub data Takes (valid_uuid : ℕ → Bool) (J : JsonCodec) : AuthCache → AuthCache → Type 0 where
  here : {c : AuthCache} → Takes valid_uuid J c c
  then :
      (saved : Bool) (s : DesiredSnapshot) (hash : Text) (applied_at : ℕ) (b c : AuthCache)
      {d : AuthCache}
      → apply valid_uuid J saved s hash applied_at b ≡ ok c
      → Takes valid_uuid J c d
      → Takes valid_uuid J b d

-- The second document belongs to the node of the first, if it has one, and is not older; of the same
-- version it is the same, by its hash.
pub record Later (b c : AuthCacheDocument) : Type 0 where
  pub node : b.node_id ≢ 0 → c.node_id ≡ b.node_id
  pub version : ltb_ℤ c.desired_version b.desired_version ≡ false
  pub content :
      same_ℤ c.desired_version b.desired_version ≡ true
      → is_empty b.snapshot_hash ≡ false
      → c.snapshot_hash ≡ b.snapshot_hash

ltb_ℤ_irrefl : (a : ℤ) → ltb_ℤ a a ≡ false
ltb_ℤ_irrefl (pos n) = ground arith
ltb_ℤ_irrefl (negsuc n) = ground arith

ltb_ℤ_trans : (a b c : ℤ) → ltb_ℤ b a ≡ false → ltb_ℤ c b ≡ false → ltb_ℤ c a ≡ false
ltb_ℤ_trans (pos a) (pos b) (pos c) h g = ground arith
ltb_ℤ_trans (pos a) (pos b) (negsuc c) h g = absurd (ground arith)
ltb_ℤ_trans (pos a) (negsuc b) c h g = absurd (ground arith)
ltb_ℤ_trans (negsuc a) (pos b) (pos c) h g = refl
ltb_ℤ_trans (negsuc a) (pos b) (negsuc c) h g = absurd (ground arith)
ltb_ℤ_trans (negsuc a) (negsuc b) (pos c) h g = refl
ltb_ℤ_trans (negsuc a) (negsuc b) (negsuc c) h g = ground arith

same_ℤ_between :
    (a b c : ℤ)
    → ltb_ℤ b a ≡ false
    → ltb_ℤ c b ≡ false
    → same_ℤ c a ≡ true
    → (same_ℤ b a ≡ true) × (same_ℤ c b ≡ true)
same_ℤ_between (pos a) (pos b) (pos c) h g e = ground arith
same_ℤ_between (pos a) b (negsuc c) h g e = absurd (ground arith)
same_ℤ_between (pos a) (negsuc b) c h g e = absurd (ground arith)
same_ℤ_between (negsuc a) b (pos c) h g e = absurd (ground arith)
same_ℤ_between (negsuc a) (pos b) (negsuc c) h g e = absurd (ground arith)
same_ℤ_between (negsuc a) (negsuc b) (negsuc c) h g e = ground arith

Later-refl : (b : AuthCacheDocument) → Later b b
Later-refl b = record {
  node = λ h. refl;
  version = ltb_ℤ_irrefl b.desired_version;
  content = λ h e. refl;
}

Later-trans : (b c d : AuthCacheDocument) → Later b c → Later c d → Later b d
Later-trans b c d f g = record {
  node = λ h. (g.node (λ e. h (sym (f.node h) ∙ e))) ∙ f.node h;
  version = ltb_ℤ_trans b.desired_version c.desired_version d.desired_version f.version g.version;
  content = λ e filled.
      let (lower, upper) =
        same_ℤ_between b.desired_version c.desired_version d.desired_version f.version g.version
          e in
      let same = f.content lower filled in g.content upper (ap is_empty same ∙ filled) ∙ same;
}

same_of_fresh :
    (older same filled : Bool) (s t : Text)
    → (older || (same && (not filled && not (same_text s t)))) ≡ false
    → same ≡ true
    → filled ≡ false
    → t ≡ s
same_of_fresh older same filled s t h e f = sym (same_text_eq s t (ground arith))

module _ (valid_uuid : ℕ → Bool) (J : JsonCodec) where
  apply-Later :
      (saved : Bool) (s : DesiredSnapshot) (hash : Text) (applied_at : ℕ) (b c : AuthCache)
      → apply valid_uuid J saved s hash applied_at b ≡ ok c
      → Later b.document c.document
  unfolding document_of
  apply-Later saved s hash at b c h =
      let a = apply-Applied valid_uuid J saved s hash at b c h in
      subst (λ x. Later b.document x.document) a.is
        (record {
          node = λ h. ground arith;
          version = ground arith;
          content = λ e filled. same_of_fresh _ _ _ b.document.snapshot_hash hash a.fresh e filled;
        })

  -- The snapshots that an Agent takes belong to its node, never go back to an older version, and of a
  -- version it takes one content, by its hash.
  pub Takes-Later : (b c : AuthCache) → Takes valid_uuid J b c → Later b.document c.document
  Takes-Later b c here = Later-refl b.document
  Takes-Later b d (then saved s hash at b' c h rest) =
      Later-trans b.document c.document d.document (apply-Later saved s hash at b c h)
        (Takes-Later c d rest)
