-- ===== src/Header.antt =====
-- Go's `http.Header` as a list of keys with their values, keys as the map stores them, and the
-- header functions of internal/gateway/http_helpers.go. The order of the list stands for the order
-- in which `range` meets the keys.
pub mod Lookup
use gem_gate.Prelude.{
  ℕ, ◌+◌, ◌-◌, Bool, true, false, not, ◌&&◌, ◌||◌, List, [], ◌∷◌, ◌++◌, leb, ◌==◌, if◌then◌else◌,
}
use gem_gate.Text.{
  Text, codes, text_eq, is_empty, contains, to_lower, trim_space, split, lower_byte, upper_byte,
}

abbrev pub Header : Type 0
Header = List (Text × List Text)

-- The bytes that `textproto` admits in a header name.
unfoldable pub is_name_byte : ℕ → Bool
is_name_byte c =
    (leb b'0' c && leb c b'9')
    || (leb b'A' c && leb c b'Z')
    || (leb b'a' c && leb c b'z')
    || c == 0x21
    || c == 0x23
    || c == 0x24
    || c == 0x25
    || c == 0x26
    || c == 0x27
    || c == 0x2A
    || c == 0x2B
    || c == 0x2D
    || c == 0x2E
    || c == 0x5E
    || c == 0x5F
    || c == 0x60
    || c == 0x7C
    || c == 0x7E

unfoldable pub all_name_bytes : Text → Bool
unfolding is_name_byte
all_name_bytes [] = true
all_name_bytes (c ∷ s) = is_name_byte c && all_name_bytes s

-- Upper case at the front and after a dash, lower case elsewhere.
unfoldable pub capitalize : Bool → Text → Text
unfolding upper_byte lower_byte
capitalize upper [] = []
capitalize upper (c ∷ s) = (if upper then upper_byte c else lower_byte c) ∷ capitalize (c == 0x2D) s

-- `http.CanonicalHeaderKey`
unfoldable pub canonical_key : Text → Text
unfolding all_name_bytes capitalize
canonical_key s = if all_name_bytes s then capitalize true s else s

-- The values under a key as it is stored.
unfoldable pub stored : Header → Text → List Text
stored [] k = []
stored ((j, vs) ∷ h) k = if text_eq j k then vs else stored h k

unfoldable pub header_values : Header → Text → List Text
header_values h k = stored h (canonical_key k)

abbrev first_or_empty : List Text → Text
first_or_empty [] = []
first_or_empty (v ∷ vs) = v

unfoldable pub header_get : Header → Text → Text
header_get h k = first_or_empty (header_values h k)

unfoldable pub store_values : Header → Text → List Text → Header
store_values [] k vs = (k, vs) ∷ []
store_values ((j, ws) ∷ h) k vs = if text_eq j k then (k, vs) ∷ h else (j, ws) ∷ store_values h k vs

unfoldable pub header_set : Header → Text → Text → Header
header_set h k v = store_values h (canonical_key k) (v ∷ [])

unfoldable pub header_add : Header → Text → Text → Header
header_add h k v = store_values h (canonical_key k) (stored h (canonical_key k) ++ v ∷ [])

unfoldable pub remove_key : Header → Text → Header
remove_key [] k = []
remove_key ((j, ws) ∷ h) k =
    let rest = remove_key h k in if text_eq j k then rest else (j, ws) ∷ rest

unfoldable pub header_del : Header → Text → Header
header_del h k = remove_key h (canonical_key k)
