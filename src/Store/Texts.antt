-- ===== src/Store/Texts.antt =====
-- What internal/store/operation.go uses of Go's `strings` and `path`, on the bytes of UTF-8 texts.
pub mod Same
use poly_fleet.Base.{
  ℕ, zero, suc, Bool, true, false, ◌&&◌, ◌||◌, List, [], ◌∷◌, ◌++◌, ◌==◌, leb, if◌then◌else◌,
}
use poly_fleet.Schema.{Text}

unfoldable pub same_text : Text → Text → Bool
same_text [] [] = true
same_text [] (y ∷ t) = false
same_text (x ∷ s) [] = false
same_text (x ∷ s) (y ∷ t) = (x == y) && same_text s t

abbrev pub is_empty : Text → Bool
is_empty [] = true
is_empty (x ∷ s) = false

-- `strings.HasPrefix`
unfoldable pub has_prefix : Text → Text → Bool
has_prefix s [] = true
has_prefix [] (y ∷ t) = false
has_prefix (x ∷ s) (y ∷ t) = (x == y) && has_prefix s t

abbrev is_ascii_space : ℕ → Bool
is_ascii_space x = (leb 9 x && leb x 13) || (x == 32)

-- The white space of Unicode that takes two or three bytes.
abbrev is_space_2 : ℕ → ℕ → Bool
is_space_2 x y = (x == 194) && ((y == 133) || (y == 160))

abbrev is_space_3 : ℕ → ℕ → ℕ → Bool
is_space_3 x y z =
    ((x == 225) && ((y == 154) && (z == 128)))
    || (((x == 226)
          && (((y == 128)
                && ((leb 128 z && leb z 138) || ((z == 168) || ((z == 169) || (z == 175)))))
              || ((y == 129) && (z == 159))))
        || ((x == 227) && ((y == 128) && (z == 128))))

-- How many bytes the white space at the start takes, if there is one.
unfoldable pub space_width : Text → ℕ
space_width [] = 0
space_width (x ∷ []) = if is_ascii_space x then 1 else 0
space_width (x ∷ y ∷ []) = if is_ascii_space x then 1 else if is_space_2 x y then 2 else 0
space_width (x ∷ y ∷ z ∷ s) =
    if is_ascii_space x then 1 else if is_space_2 x y then 2 else if is_space_3 x y z then 3 else 0

-- The same at the end of a text whose bytes are in reverse.
unfoldable pub space_width_back : Text → ℕ
space_width_back [] = 0
space_width_back (x ∷ []) = if is_ascii_space x then 1 else 0
space_width_back (y ∷ x ∷ []) = if is_ascii_space y then 1 else if is_space_2 x y then 2 else 0
space_width_back (z ∷ y ∷ x ∷ s) =
    if is_ascii_space z then 1 else if is_space_2 y z then 2 else if is_space_3 x y z then 3 else 0

-- The first argument counts the bytes that are left of a white space.
unfoldable pub trim_by : (Text → ℕ) → ℕ → Text → Text
trim_by width skip [] = []
trim_by width (suc skip) (x ∷ s) = trim_by width skip s
trim_by width zero (x ∷ s) =
    let shorter = λ (k : ℕ). trim_by width k s in trim_step (width (x ∷ s)) (x ∷ s) shorter
  where
    trim_step : ℕ → Text → (ℕ → Text) → Text
    trim_step zero t shorter = t
    trim_step (suc k) t shorter = shorter k

unfoldable pub reverse_onto : Text → Text → Text
reverse_onto [] t = t
reverse_onto (x ∷ s) t = reverse_onto s (x ∷ t)

-- `strings.TrimSpace`
abbrev pub trim_space : Text → Text
trim_space s =
    reverse_onto (trim_by space_width_back 0 (reverse_onto (trim_by space_width 0 s) [])) []

-- '/' is 47 and '.' is 46.
unfoldable pub push_byte : ℕ → List Text → List Text
push_byte x [] = if x == 47 then [] ∷ [] ∷ [] else (x ∷ []) ∷ []
push_byte x (w ∷ ws) = if x == 47 then [] ∷ w ∷ ws else (x ∷ w) ∷ ws

unfoldable pub split_slash : Text → List Text
split_slash [] = [] ∷ []
split_slash (x ∷ s) = push_byte x (split_slash s)

unfoldable pub join_slash : List Text → Text
join_slash [] = []
join_slash (w ∷ []) = w
join_slash (w ∷ v ∷ ws) = w ++ (47 ∷ join_slash (v ∷ ws))

abbrev pub dot_dot : Text
dot_dot = 46 ∷ 46 ∷ []

abbrev pub is_skipped : Text → Bool
is_skipped w = is_empty w || same_text w (46 ∷ [])

-- Back over the element before; above the root there is none, and above a relative path ".." stays.
abbrev pub step_back : Bool → List Text → List Text
step_back true [] = []
step_back false [] = dot_dot ∷ []
step_back rooted (w ∷ ws) = if same_text w dot_dot then dot_dot ∷ w ∷ ws else ws

-- The elements that are kept, the last one first.
unfoldable pub clean_elements : Bool → List Text → List Text → List Text
clean_elements rooted [] kept = kept
clean_elements rooted (w ∷ ws) kept =
    clean_elements rooted ws (
      if is_skipped w
      then kept
      else if same_text w dot_dot
      then step_back rooted kept
      else w ∷ kept)

unfoldable pub reverse_words : List Text → List Text → List Text
reverse_words [] done = done
reverse_words (w ∷ ws) done = reverse_words ws (w ∷ done)

abbrev pub or_dot : Text → Text
or_dot s = if is_empty s then 46 ∷ [] else s

-- `path.Clean`
unfoldable pub clean : Text → Text
clean [] = 46 ∷ []
clean (x ∷ s) =
    if x == 47
    then 47 ∷ join_slash (reverse_words (clean_elements true (split_slash s) []) [])
    else or_dot (join_slash (reverse_words (clean_elements false (split_slash (x ∷ s)) []) []))
