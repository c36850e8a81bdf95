-- ===== src/Generator.antt =====
-- cmd/protoc-gen-go-mqtt/mqtt.go: which methods of a service get a binding, their descriptions,
-- and the names of fields in Go. What a path turns into is the parameter `rewrite`; its variables
-- are in Generator.Paths. A rule's additional bindings are read without their own additional
-- bindings, so a rule is given here with a list of plain rules.
pub mod Names
pub mod Numbers
pub mod Files
pub mod Regexp
pub mod Paths
mod Tests
use kratos_transport_rpc.Prelude.{
  ℕ, zero, suc, ◌+◌, bit_xor, Bool, true, false, ◌&&◌, ◌||◌, not, Option, none, some, List, [], ◌∷◌,
  ◌++◌, Bytes, length, leb, ◌==◌, if◌then◌else◌,
}
use kratos_transport_rpc.Prelude.Text.{codes}
use kratos_transport_rpc.Prelude.Maps.{TextMap, lookup, store, equal_bytes}
use kratos_transport_rpc.Broker.{cut}

unfoldable pub is_ascii_lower : ℕ → Bool
is_ascii_lower c = leb b'a' c && leb c b'z'

unfoldable pub is_ascii_digit : ℕ → Bool
is_ascii_digit c = leb b'0' c && leb c b'9'

-- `i+1 < len(s) && isASCIILower(s[i+1])`, of what is behind i
unfoldable pub lower_next : Bytes → Bool
unfolding is_ascii_lower
lower_next [] = false
lower_next (c ∷ s) = is_ascii_lower c

-- "Make it a capital letter."
unfoldable pub capital : ℕ → ℕ
unfolding is_ascii_lower
capital c = if is_ascii_lower c then bit_xor c b' ' else c

-- the loop of `camelCase`; `inside` while it accepts the lower case sequence behind a letter
unfoldable pub camel_loop : Bool → Bytes → Bytes
unfolding lower_next is_ascii_digit capital
camel_loop inside [] = []
camel_loop inside (c ∷ s) =
    let word = camel_loop true s in
    let skip = camel_loop false s in
    if inside && is_ascii_lower c
    then c ∷ word
    else if c == b'_' && lower_next s
    then skip
    else if is_ascii_digit c
    then c ∷ skip
    else capital c ∷ word

unfoldable pub camel_case : Bytes → Bytes
unfolding camel_loop
camel_case [] = []
camel_case (c ∷ s) = if c == b'_' then b'X' ∷ camel_loop false s else camel_loop false (c ∷ s)

-- `strings.Split(s, ".")`, with the part that is under way
unfoldable pub split_dots : Bytes → Bytes → List Bytes
split_dots part [] = part ∷ []
split_dots part (c ∷ s) =
    let next = split_dots [] s in
    let more = split_dots (part ++ (c ∷ [])) s in if c == b'.' then part ∷ next else more

unfoldable pub join_dots : List Bytes → Bytes
unfolding camel_case
join_dots [] = []
join_dots (p ∷ []) = camel_case p
join_dots (p ∷ q ∷ ps) = camel_case p ++ (b'.' ∷ join_dots (q ∷ ps))

unfoldable pub camel_case_vars : Bytes → Bytes
unfolding join_dots split_dots
camel_case_vars s = join_dots (split_dots [] s)

pub data Pattern : Type 0 where
  req : Bytes → Pattern
  upload : Bytes → Pattern
  unset : Pattern

pub record Rule : Type 0 where
  pub pattern : Pattern
  pub body : Bytes
  pub response_body : Bytes

-- `rule` is the extension of the method's options, with its additional bindings.
pub record Method : Type 0 where
  pub go_name : Bytes
  pub name : Bytes
  pub streaming_client : Bool
  pub streaming_server : Bool
  pub rule : Option (Rule × List Rule)

pub record Service : Type 0 where
  pub full_name : Bytes
  pub methods : List Method

pub record MethodDesc : Type 0 where
  pub name : Bytes
  pub original_name : Bytes
  pub num : ℕ
  pub path : Bytes
  pub method : Bytes
  pub has_vars : Bool
  pub has_body : Bool
  pub body : Bytes
  pub response_body : Bytes

-- `methodSets`
abbrev pub MethodSets : Type 0
MethodSets = TextMap ℕ

-- `methodSets[name]`
unfoldable pub used : Bytes → MethodSets → ℕ
unfolding lookup
used name sets = elim (lookup name sets) [ none ↦ 0 | some n ↦ n ]

abbrev pub is_streaming : Method → Bool
is_streaming m = m.streaming_client || m.streaming_server

abbrev pub pattern_path : Pattern → Bytes
pattern_path (req p) = p
pattern_path (upload p) = p
pattern_path unset = []

abbrev pub pattern_method : Pattern → Bytes
pattern_method (req p) = codes "REQ"
pattern_method (upload p) = codes "UPLOAD"
pattern_method unset = []

-- `Body` and `ResponseBody`: "*" is the whole message
unfoldable pub body_field : Bytes → Bytes
unfolding equal_bytes camel_case_vars
body_field b =
    if equal_bytes b (codes "*") then [] else if length b == 0 then [] else b'.' ∷ camel_case_vars b

module _ (rewrite : Bytes → Bytes × Bool) where
  unfoldable pub build_method_desc : Method → Bytes → Bytes → MethodSets → MethodDesc × MethodSets
  unfolding used store
  build_method_desc m method path sets =
      let (path1, has_vars) = rewrite path in
      (
        record {
          name = m.go_name;
          original_name = m.name;
          num = used m.go_name sets;
          path = path1;
          method = method;
          has_vars = has_vars;
          has_body = false;
          body = [];
          response_body = [];
        },
        store m.go_name (used m.go_name sets + 1) sets,
      )

  unfoldable pub build_mqtt_rule : Method → Rule → MethodSets → MethodDesc × MethodSets
  unfolding build_method_desc body_field
  build_mqtt_rule m rule sets =
      let (md, sets1) =
        build_method_desc m (pattern_method rule.pattern) (pattern_path rule.pattern) sets in
      (
        record md {
          has_body = not (length rule.body == 0);
          body = body_field rule.body;
          response_body = body_field rule.response_body;
        },
        sets1,
      )

  -- the loop over the additional bindings, and the rule itself behind it
  unfoldable pub build_rules : Method → List Rule → MethodSets → List MethodDesc × MethodSets
  unfolding build_mqtt_rule
  build_rules m [] sets = ([], sets)
  build_rules m (r ∷ rules) sets =
      let (md, sets1) = build_mqtt_rule m r sets in
      let (mds, sets2) = build_rules m rules sets1 in (md ∷ mds, sets2)

  -- a method that does not stream
  unfoldable pub build_unary :
      Bool → Bytes → Method → Option (Rule × List Rule) → MethodSets → List MethodDesc × MethodSets
  unfolding build_rules build_method_desc
  build_unary omitempty service m (some (rule, more)) sets =
      build_rules m (more ++ (rule ∷ [])) sets
  build_unary omitempty service m none sets =
      if not omitempty
      then (let (md, sets1) =
            build_method_desc m (codes "REQ") (b'/' ∷ service ++ (b'/' ∷ m.name ++ codes "aaaaaa"))
              sets in
          (md ∷ [], sets1))
      else ([], sets)

  unfoldable pub build_method : Bool → Bytes → Method → MethodSets → List MethodDesc × MethodSets
  unfolding build_unary
  build_method omitempty service m sets =
      if is_streaming m then ([], sets) else build_unary omitempty service m m.rule sets

  -- `sd.Methods` of `genService`
  unfoldable pub gen_methods :
      Bool → Bytes → List Method → MethodSets → List MethodDesc × MethodSets
  unfolding build_method
  gen_methods omitempty service [] sets = ([], sets)
  gen_methods omitempty service (m ∷ ms) sets =
      let (mds, sets1) = build_method omitempty service m sets in
      let (rest, sets2) = gen_methods omitempty service ms sets1 in (mds ++ rest, sets2)

abbrev pub has_rule : Option (Rule × List Rule) → Bool
has_rule none = false
has_rule (some r) = true

-- the inner loop of `hasMQTTRule`
unfoldable pub method_has_rule : List Method → Bool
method_has_rule [] = false
method_has_rule (m ∷ ms) = not (is_streaming m) && has_rule m.rule || method_has_rule ms

unfoldable pub has_mqtt_rule : List Service → Bool
unfolding method_has_rule
has_mqtt_rule [] = false
has_mqtt_rule (s ∷ services) = method_has_rule s.methods || has_mqtt_rule services

-- the guard of `generateFile`: whether a file is generated
unfoldable pub generates : Bool → List Service → Bool
unfolding has_mqtt_rule
generates omitempty services =
    not (length services == 0 || omitempty && not (has_mqtt_rule services))
