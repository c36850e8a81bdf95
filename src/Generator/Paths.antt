-- ===== src/Generator/Paths.antt =====
-- The paths of cmd/protoc-gen-go-mqtt/mqtt.go: buildPathVars, replacePath, and the loop of
-- buildMethodDesc over the variables of a path.
pub mod Vars
pub mod Replace
pub mod NameChars
mod Tests
use kratos_transport_rpc.Prelude.{
  ℕ, zero, suc, ◌+◌, ◌-◌, Bool, true, false, ◌&&◌, ◌||◌, not, Option, none, some, List, [], ◌∷◌,
  ◌++◌, Bytes, map, length, ltb, leb, ◌==◌, if◌then◌else◌,
}
use kratos_transport_rpc.Prelude.Maps.{TextMap, store, equal_bytes}
use kratos_transport_rpc.Generator.{split_dots}
use kratos_transport_rpc.Generator.Regexp.{Item, once, many, perhaps, find_all, find}

-- `\s` of a pattern
unfoldable pub is_white : ℕ → Bool
is_white c = leb 9 c && leb c 10 || (leb 12 c && leb c 13 || c == b' ')

-- what `strings.TrimSpace` drops
unfoldable pub is_space : ℕ → Bool
is_space c = leb 9 c && leb c 13 || c == b' '

unfoldable pub is_lower : ℕ → Bool
is_lower c = leb b'a' c && leb c b'z'

unfoldable pub is_upper : ℕ → Bool
is_upper c = leb b'A' c && leb c b'Z'

unfoldable pub is_digit : ℕ → Bool
is_digit c = leb b'0' c && leb c b'9'

-- `[a-z.0-9_\s]` under `(?i)`
unfoldable pub name_char : ℕ → Bool
unfolding is_white is_lower is_upper is_digit
name_char c = is_lower c || (is_upper c || (c == b'.' || (is_digit c || (c == b'_' || is_white c))))

-- `[^{}]`
unfoldable pub no_brace : ℕ → Bool
no_brace c = not (c == b'{') && not (c == b'}')

-- `(?i){([a-z.0-9_\s]*)=?([^{}]*)}`
unfoldable pub vars_pattern : List Item
unfolding name_char no_brace
vars_pattern =
    once (◌==◌ b'{') ∷ many name_char ∷ perhaps (◌==◌ b'=') ∷ many no_brace ∷ once (◌==◌ b'}') ∷ []

-- `strings.TrimSpace`
unfoldable pub trim_left : Bytes → Bytes
unfolding is_space
trim_left [] = []
trim_left (c ∷ s) = if is_space c then trim_left s else c ∷ s

-- `strings.TrimSpace`: a byte before what is kept at the end
unfoldable pub before_kept : ℕ → Bytes → Bytes
unfolding is_space
before_kept c [] = if is_space c then [] else c ∷ []
before_kept c (d ∷ t) = c ∷ d ∷ t

unfoldable pub trim_right : Bytes → Bytes
unfolding before_kept
trim_right [] = []
trim_right (c ∷ s) = before_kept c (trim_right s)

unfoldable pub trim_space : Bytes → Bytes
unfolding trim_left trim_right
trim_space s = trim_right (trim_left s)

-- `res`: the value of a variable, if it has one
abbrev pub Vars : Type 0
Vars = TextMap (Option Bytes)

-- the value that a match has in `res`
unfoldable pub var_value : Bytes → Bytes → Option Bytes
var_value name value = if ltb 1 (length name) && ltb 0 (length value) then some value else none

-- one match, with m[1] and m[2] among what the items have taken
unfoldable pub add_var : List Bytes → Vars → Vars
unfolding store trim_space var_value
add_var (brace ∷ m1 ∷ eq ∷ m2 ∷ pieces) res =
    let name = trim_space m1 in store name (var_value name m2) res
add_var _ res = res

unfoldable pub add_vars : List (List Bytes) → Vars → Vars
unfolding add_var
add_vars [] res = res
add_vars (m ∷ matches) res = add_vars matches (add_var m res)

-- `buildPathVars`, without its warning
unfoldable pub build_path_vars : Bytes → Vars
build_path_vars path = add_vars (find_all vars_pattern 0 path) []

-- A byte of a name as a pattern under `(?i)`: "." stands for any byte but the end of a line.
unfoldable pub name_item : ℕ → ℕ → Bool
unfolding is_lower is_upper
name_item n c =
    if n == b'.'
    then not (c == 10)
    else c == n || (is_lower n && c + 32 == n || is_upper n && c == n + 32)

-- `(?i){([\s]*%s[\s]*)=?([^{}]*)}`
unfoldable pub name_pattern : Bytes → List Item
unfolding name_item is_white no_brace
name_pattern name =
    once (◌==◌ b'{') ∷ many is_white ∷ map (λ n. once (name_item n)) name
    ++ (many is_white ∷ perhaps (◌==◌ b'=') ∷ many no_brace ∷ once (◌==◌ b'}') ∷ [])

-- `strings.ReplaceAll(value, "*", ".*")`
unfoldable pub stars : Bytes → Bytes
stars [] = []
stars (c ∷ s) = if c == b'*' then b'.' ∷ b'*' ∷ stars s else c ∷ stars s

-- `{name:value}`
unfoldable pub braced : Bytes → Bytes → Bytes
unfolding stars
braced name value = b'{' ∷ name ++ (b':' ∷ stars value ++ (b'}' ∷ []))

-- the path with a match replaced, by the texts before and behind it
abbrev pub replaced : Bytes → Bytes → Option (Bytes × Bytes) → Bytes
replaced path text none = path
replaced path text (some (before, rest)) = before ++ (text ++ rest)

-- `[a-z.0-9_\s]*`, the names that buildPathVars looks for. In a pattern their characters stand for
-- themselves, but for ".".
unfoldable pub all_name : Bytes → Bool
unfolding name_char
all_name [] = true
all_name (c ∷ s) = name_char c && all_name s

-- `replacePath`; none for a name with other bytes, which a pattern may read in other ways
-- (NameChars says which names buildPathVars gives)
unfoldable pub replace_path : Bytes → Bytes → Bytes → Option Bytes
unfolding all_name
replace_path name value path =
    if all_name name
    then some (replaced path (braced name value) (find (name_pattern name) [] path))
    else none

-- What the descriptor of a message says of its fields
mutual
  pub data Field : Type 0 where
    scalar map_field list_field : Field
    message : Fields → Field

  pub data Fields : Type 0 where
    empty : Fields
    field : Bytes → Field → Fields → Fields

-- `fields.ByName`
unfoldable pub by_name : Bytes → Fields → Option Field
unfolding equal_bytes
by_name name empty = none
by_name name (field key f fields) = if equal_bytes key name then some f else by_name name fields

-- `strings.Split(field, ":")[0]`
unfoldable pub before_colon : Bytes → Bytes
before_colon [] = []
before_colon (c ∷ s) = if c == b':' then [] else c ∷ before_colon s

-- the fields for the next part of a name; none where the program exits
abbrev pub fields_of : Fields → Option Field → Option Fields
fields_of fields none = none
fields_of fields (some (message inner)) = some inner
fields_of fields (some f) = some fields

-- the loop over the parts of a name
unfoldable pub check_parts : List Bytes → Fields → Option Fields
unfolding trim_space by_name before_colon
check_parts [] fields = some fields
check_parts (part ∷ parts) fields =
    if length (trim_space part) == 0
    then check_parts parts fields
    else elim (fields_of fields (by_name (before_colon part) fields)) [
      | none ↦ none
      | some next ↦ check_parts parts next
    ]

abbrev pub replace_var : Bytes → Option Bytes → Bytes → Option Bytes
unfolding replace_path
replace_var name none path = some path
replace_var name (some value) path = replace_path name value path

-- the fields that a name ends in, and the path with its value, if there are both
abbrev pub both_found : Option Fields → Option Bytes → Option Bytes
both_found none path = none
both_found (some fields) path = path

abbrev pub and_then : Option Bytes → (Bytes → Option Bytes) → Option Bytes
and_then none f = none
and_then (some path) f = f path

-- the loop over the variables, in the order that the map gives; none where the program exits
unfoldable pub check_vars : Fields → List (Bytes × Option Bytes) → Bytes → Option Bytes
unfolding check_parts split_dots
check_vars input [] path = some path
check_vars input ((name, value) ∷ vars) path =
    and_then (both_found (check_parts (split_dots [] name) input) (replace_var name value path))
      (check_vars input vars)
