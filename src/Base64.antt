-- ===== src/Base64.antt =====
-- `base64.RawURLEncoding` of Go, on the bytes of a text: line ends are skipped, there is
-- no padding, and the bits that are left over at the end are dropped.
use poly_fleet.Base.{
  ℕ, ◌+◌, ◌-◌, ◌*◌, ◌/◌, ◌%◌, Bool, ◌&&◌, ◌||◌, Option, none, some, List, [], ◌∷◌, ◌==◌, leb, ltb,
  if◌then◌else◌,
}
use mathlib.Core.Option
use poly_fleet.Schema.{Text}

unfoldable pub sextet : ℕ → Option ℕ
sextet c =
    if leb 65 c && leb c 90
    then some (c - 65)
    else if leb 97 c && leb c 122
    then some (c - 71)
    else if leb 48 c && leb c 57
    then some (c + 4)
    else if c == 45
    then some 62
    else if c == 95
    then some 63
    else none

abbrev is_line_end : ℕ → Bool
is_line_end c = (c == 10) || (c == 13)

abbrev push_sextet : Option ℕ → Option (List ℕ) → Option (List ℕ)
push_sextet (some d) (some ds) = some (d ∷ ds)
push_sextet _ _ = none

unfoldable pub sextets : Text → Option (List ℕ)
sextets [] = some []
sextets (c ∷ s) =
    let rest = sextets s in if is_line_end c then rest else push_sextet (sextet c) rest

-- The three bytes of four sextets.
abbrev first_byte : ℕ → ℕ → ℕ
first_byte a b = a * 4 + b / 16

abbrev second_byte : ℕ → ℕ → ℕ
second_byte b c = (b % 16) * 16 + c / 4

abbrev third_byte : ℕ → ℕ → ℕ
third_byte c d = (c % 4) * 64 + d

unfoldable pub join_sextets : List ℕ → Option Text
join_sextets [] = some []
join_sextets (a ∷ []) = none
join_sextets (a ∷ b ∷ []) = some (first_byte a b ∷ [])
join_sextets (a ∷ b ∷ c ∷ []) = some (first_byte a b ∷ second_byte b c ∷ [])
join_sextets (a ∷ b ∷ c ∷ d ∷ ds) =
    Option.map (λ (s : Text). first_byte a b ∷ second_byte b c ∷ third_byte c d ∷ s)
      (join_sextets ds)

abbrev join_all : Option (List ℕ) → Option Text
join_all none = none
join_all (some ds) = join_sextets ds

unfoldable pub decode : Text → Option Text
decode s = join_all (sextets s)

-- `base64.RawURLEncoding.EncodeToString`
abbrev letter : ℕ → ℕ
letter d =
    if ltb d 26
    then d + 65
    else if ltb d 52
    then d + 71
    else if ltb d 62
    then d - 4
    else if d == 62
    then 45
    else 95

unfoldable pub encode : Text → Text
encode [] = []
encode (x ∷ []) = letter (x / 4) ∷ letter ((x % 4) * 16) ∷ []
encode (x ∷ y ∷ []) = letter (x / 4) ∷ letter ((x % 4) * 16 + y / 16) ∷ letter ((y % 16) * 4) ∷ []
encode (x ∷ y ∷ z ∷ s) =
    letter (x / 4)
    ∷ letter ((x % 4) * 16 + y / 16)
    ∷ letter ((y % 16) * 4 + z / 64)
    ∷ letter (z % 64)
    ∷ encode s
