-- ===== src/Store/Secret.antt =====
-- internal/cryptoutil/secretbox.go: `Seal` and `Open` around the AEAD of golang.org/x/crypto, whose
-- operations are the fields of `Crypto`, with SHA-256 and the random source.
use poly_fleet.Base.{
  Bool, ℕ, ◌+◌, ◌≤◌, ◌≡◌, refl, ap, ◌∙◌, Option, some, [], ◌∷◌, ◌++◌, ◌==◌, ltb, if◌then◌else◌,
  Result, ok, err, internal, or_internal, length, take, drop, arith, not, true, Bool-cases, inl,
  inr, subst,
}
use poly_fleet.Schema.{Text}

-- `XChaCha20-Poly1305`: the key, the nonce, the text and the associated data. `random_token` and
-- `nonce` are what the n-th draw gives.
pub record Crypto : Type 0 where
  pub sha256 : Text → Text
  pub random_token : ℕ → Text
  pub nonce : ℕ → Text
  pub aead_seal : Text → Text → Text → Text → Text
  pub aead_open : Text → Text → Text → Text → Option Text

pub record IsLawful (C : Crypto) : Type 0 where
  pub hash_size : (t : Text) → length (C.sha256 t) ≡ 32
  pub nonce_size : (n : ℕ) → length (C.nonce n) ≡ 24
  pub overhead :
      (key nonce plaintext associated : Text)
      → 16 ≤ length (C.aead_seal key nonce plaintext associated)
  pub open_sealed :
      (key nonce plaintext associated : Text)
      → C.aead_open key nonce (C.aead_seal key nonce plaintext associated) associated
        ≡ some plaintext

module _ (C : Crypto) where
  unfoldable pub seal : ℕ → Text → Text → Text → Result Text
  seal draw key plaintext associated =
      if not (length key == 32)
      then err internal
      else ok (C.nonce draw ++ C.aead_seal key (C.nonce draw) plaintext associated)

  unfoldable pub open_sealed : Text → Text → Text → Result Text
  open_sealed key ciphertext associated =
      if not (length key == 32)
      then err internal
      else if ltb (length ciphertext) (24 + 16)
      then err internal
      else or_internal (C.aead_open key (take 24 ciphertext) (drop 24 ciphertext) associated)

length-append : (s t : Text) → length (s ++ t) ≡ length s + length t
length-append [] t = ground arith
length-append (x ∷ s) t = ground (arith, length-append s t)

pub take_append : (s t : Text) → take (length s) (s ++ t) ≡ s
take_append [] t = refl
take_append (x ∷ s) t = ap (λ (r : Text). x ∷ r) (take_append s t)

pub drop_append : (s t : Text) → drop (length s) (s ++ t) ≡ t
drop_append [] t = refl
drop_append (x ∷ s) t = drop_append s t

sealed_text :
    (b : Bool) (s : Text) {t : Text} → (if not b then err internal else ok s) ≡ ok t → s ≡ t
sealed_text b s h = ground arith

opens :
    (C : Crypto) (key c associated plaintext head tail : Text)
    → (length key == 32) ≡ true
    → 40 ≤ length c
    → take 24 c ≡ head
    → drop 24 c ≡ tail
    → C.aead_open key head tail associated ≡ some plaintext
    → open_sealed C key c associated ≡ ok plaintext
unfolding open_sealed
opens C key c associated plaintext head tail fits long h t opened =
    let there : C.aead_open key (take 24 c) (drop 24 c) associated ≡ some plaintext =
      rw (h, t) opened in
    rw (fits, there) (ground arith)

module _ (C : Crypto) (lawful : IsLawful C) where
  -- What has been sealed opens, under the same key and associated data.
  pub open_sealed-seal :
      (draw : ℕ) (key plaintext associated : Text) {ciphertext : Text}
      → seal C draw key plaintext associated ≡ ok ciphertext
      → open_sealed C key ciphertext associated ≡ ok plaintext
  unfolding seal open_sealed
  open_sealed-seal draw key plaintext associated {ciphertext} h =
      elim (Bool-cases (length key == 32)) [
        | inr wrong ↦ absurd (ground arith)
        | inl fits ↦
            let n = C.nonce draw in
            let p = C.aead_seal key n plaintext associated in
            let is : n ++ p ≡ ciphertext = ground arith in
            let long : length (n ++ p) ≡ 24 + length p =
              length-append n p ∙ ap (λ k. k + length p) (lawful.nonce_size draw) in
            let head : take 24 (n ++ p) ≡ n =
              subst (λ k. take k (n ++ p) ≡ n) (lawful.nonce_size draw) (take_append n p) in
            let tail : drop 24 (n ++ p) ≡ p =
              subst (λ k. drop k (n ++ p) ≡ p) (lawful.nonce_size draw) (drop_append n p) in
            let opened = lawful.open_sealed key n plaintext associated in
            let wide = lawful.overhead key n plaintext associated in
            subst (λ c. open_sealed C key c associated ≡ ok plaintext) is
              (opens C key (n ++ p) associated plaintext n p fits (omega (arith, long, wide)) head
                tail opened)
      ]

  pub seal-length :
      (draw : ℕ) (key plaintext associated : Text) {ciphertext : Text}
      → seal C draw key plaintext associated ≡ ok ciphertext
      → 1 ≤ length ciphertext
  unfolding seal
  seal-length draw key plaintext associated {ciphertext} h =
      let n = C.nonce draw in
      let p = C.aead_seal key n plaintext associated in
      let is : n ++ p ≡ ciphertext = sealed_text (length key == 32) _ h in
      subst (λ c. 1 ≤ length c) is
        (omega (arith, length-append n p, lawful.overhead key n plaintext associated))
