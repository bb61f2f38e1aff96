-- ===== src/Store/Agents/Capabilities.antt =====
-- `normalizeAgentCapabilities` and `containsAllCapabilities` of internal/store/reality.go, and the
-- rows of node_agent_capabilities that internal/store/agent.go writes.
use poly_fleet.Base.{
  ℕ, Bool, true, false, ◌&&◌, ◌||◌, not, List, [], ◌∷◌, ◌++◌, ◌==◌, leb, ltb, if◌then◌else◌, exists,
  delete, length, map,
}
use poly_fleet.Schema.{Text, Db}
use poly_fleet.Store.Texts.{same_text, is_empty}

-- `<` on strings.
unfoldable pub ltb_text : Text → Text → Bool
ltb_text s [] = false
ltb_text [] (y ∷ t) = true
ltb_text (x ∷ s) (y ∷ t) = ltb x y || ((x == y) && ltb_text s t)

-- Into a list without repetition, in order.
unfoldable pub insert_capability : Text → List Text → List Text
insert_capability c [] = c ∷ []
insert_capability c (x ∷ xs) =
    let rest = insert_capability c xs in
    if same_text c x then x ∷ xs else if ltb_text c x then c ∷ x ∷ xs else x ∷ rest

unfoldable pub normalize_agent_capabilities : List Text → List Text
normalize_agent_capabilities [] = []
normalize_agent_capabilities (c ∷ cs) =
    let rest = normalize_agent_capabilities cs in
    if not (is_empty c) && leb (length c) 64 then insert_capability c rest else rest

unfoldable pub contains_all_capabilities : List Text → List Text → Bool
contains_all_capabilities have [] = true
contains_all_capabilities have (c ∷ required) =
    exists (same_text c) have && contains_all_capabilities have required

-- The primary key (node_id, capability) is free: the node's rows go first, and the texts differ.
unfoldable pub replace_capabilities : ℕ → List Text → ℕ → Db → Db
replace_capabilities node capabilities now db = record db {
  capabilities =
      map (λ c. record { node_id = node; capability = c; reported_at = now }) capabilities
      ++ delete (λ r. r.node_id == node) db.capabilities;
}
