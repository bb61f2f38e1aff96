-- ===== src/Store/Operation/BackupPath.antt =====
-- Paths that `validConfigBackupPath` of internal/store/operation.go accepts.
use poly_fleet.Base.{
  ℕ, ◌≡◌, ◌⊎◌, refl, sym, ◌∙◌, true, false, List, [], ◌∷◌, inl, inr, ◌==◌, All, Bool-cases,
  &&-eq-true, ||-eq-true, arith,
}
use poly_fleet.Schema.{Text, bytes}
use poly_fleet.Store.Texts.{
  same_text, has_prefix, push_byte, split_slash, join_slash, dot_dot, is_skipped, step_back,
  clean_elements, reverse_words, clean,
}
use poly_fleet.Store.Operation.Result.{valid_config_backup_path}
use poly_fleet.Store.Texts.Same.{same_text_eq}

-- A word of a path that is already clean: it has no slash, and is neither empty nor "." nor "..".
pub record PlainWord (w : Text) : Type 0 where
  pub slashless : All (λ x. (x == 47) ≡ false) w
  pub kept : is_skipped w ≡ false
  pub not_up : same_text w dot_dot ≡ false

abbrev Slashless : Text → Type 0
Slashless = All (λ x. (x == 47) ≡ false)

push-Slashless : (x : ℕ) (ws : List Text) → All Slashless ws → All Slashless (push_byte x ws)
unfolding push_byte
push-Slashless x [] h = elim (Bool-cases (x == 47)) [
  | inl hit ↦ rw hit (tt, (tt, tt))
  | inr miss ↦ rw miss ((miss, tt), tt)
]
push-Slashless x (w ∷ ws) h = elim (Bool-cases (x == 47)) [
  | inl hit ↦ rw hit (tt, h)
  | inr miss ↦ rw miss ((miss, h.0), h.1)
]

split-Slashless : (s : Text) → All Slashless (split_slash s)
unfolding split_slash
split-Slashless [] = (tt, tt)
split-Slashless (x ∷ s) = push-Slashless x (split_slash s) (split-Slashless s)

step_back-Plain : (kept : List Text) → All PlainWord kept → All PlainWord (step_back true kept)
step_back-Plain [] h = tt
step_back-Plain (w ∷ ws) h = rw h.0.not_up h.1

clean_elements-Plain :
    (ws kept : List Text)
    → All Slashless ws
    → All PlainWord kept
    → All PlainWord (clean_elements true ws kept)
unfolding clean_elements
clean_elements-Plain [] kept h k = k
clean_elements-Plain (w ∷ ws) kept h k =
    clean_elements-Plain ws _ h.1 (elim (Bool-cases (is_skipped w)) [
      | inl skip ↦ rw skip k
      | inr word ↦ elim (Bool-cases (same_text w dot_dot)) [
        | inl up ↦ rw (word, up) (step_back-Plain kept k)
        | inr down ↦ rw (word, down) (record { slashless = h.0; kept = word; not_up = down }, k)
      ]
    ])

reverse_words-Plain :
    (ws done : List Text)
    → All PlainWord ws
    → All PlainWord done
    → All PlainWord (reverse_words ws done)
unfolding reverse_words
reverse_words-Plain [] done h k = k
reverse_words-Plain (w ∷ ws) done h k = reverse_words-Plain ws (w ∷ done) h.1 (h.0, k)

rooted-Plain :
    (x : ℕ) (s : Text)
    → (x == 47) ≡ true
    → clean (x ∷ s) ≡ x ∷ s
    → (ws : List Text) × ◌≡◌ {A = Text} (x ∷ s) (47 ∷ join_slash ws) × All PlainWord ws
unfolding clean
rooted-Plain x s hit same =
    let ws = clean_elements true (split_slash s) [] in
    (
      reverse_words ws [],
      sym same ∙ rw hit refl,
      reverse_words-Plain ws [] (clean_elements-Plain (split_slash s) [] (split-Slashless s) tt) tt,
    )

prefix_rooted : (x : ℕ) (s t : Text) → has_prefix (x ∷ s) (47 ∷ t) ≡ true → (x == 47) ≡ true
unfolding has_prefix
prefix_rooted x s t h = (&&-eq-true (x == 47) _ h).0

abbrev pub InBackupDirectory : Text → Type 0
InBackupDirectory p =
    (has_prefix p (bytes "/var/lib/hyfleet-backups/") ≡ true)
    ⊎ (has_prefix p (bytes "/var/lib/hyfleet-backups-lab/") ≡ true)

rooted : (x : ℕ) (s : Text) → InBackupDirectory (x ∷ s) → (x == 47) ≡ true
rooted x s (inl h) = prefix_rooted x s _ h
rooted x s (inr h) = prefix_rooted x s _ h

empty_path : ¬ (valid_config_backup_path [] ≡ true)
unfolding valid_config_backup_path clean same_text
empty_path h = ground arith

-- A path that is accepted for a backup starts in one of the two backup directories and is a slash
-- before words without slashes, joined by slashes, of which none is empty, "." or "..".
pub valid_path-Plain :
    (p : Text)
    → valid_config_backup_path p ≡ true
    → InBackupDirectory p × ((ws : List Text) × (p ≡ 47 ∷ join_slash ws) × All PlainWord ws)
unfolding valid_config_backup_path
valid_path-Plain [] h = absurd (empty_path h)
valid_path-Plain (x ∷ s) h =
    let parts = &&-eq-true (same_text (clean (x ∷ s)) (x ∷ s)) _ h in
    let prefixes = ||-eq-true (has_prefix (x ∷ s) (bytes "/var/lib/hyfleet-backups/")) _ parts.1 in
    (
      prefixes,
      rooted-Plain x s (rooted x s prefixes) (same_text_eq (clean (x ∷ s)) (x ∷ s) parts.0),
    )
