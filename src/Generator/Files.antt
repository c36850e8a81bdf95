-- ===== src/Generator/Files.antt =====
-- When a file is generated.
use kratos_transport_rpc.Prelude.{
  suc, ◌≡◌, refl, ap, ap₂, sym, ◌∙◌, inl, inr, Bool, Bool-cases, true, false, not, ◌&&◌, ◌||◌,
  Option, none, some, List, [], ◌∷◌, ◌++◌, Bytes, length, ==_false, arith,
}
use kratos_transport_rpc.Generator.{
  Rule, Method, Service, MethodDesc, MethodSets, is_streaming, build_rules, build_unary,
  build_method, gen_methods, has_rule, method_has_rule, has_mqtt_rule, generates,
}

abbrev pub some_of : List MethodDesc → Bool
some_of [] = false
some_of (d ∷ ds) = true

some_of-append : (ds es : List MethodDesc) → some_of (ds ++ es) ≡ (some_of ds || some_of es)
some_of-append [] es = refl
some_of-append (d ∷ ds) es = refl

module _ (rewrite : Bytes → Bytes × Bool) where
  -- `genService` for each service: whether one of them has a binding.
  unfoldable pub any_methods : Bool → List Service → MethodSets → Bool
  unfolding gen_methods
  any_methods omitempty [] sets = false
  any_methods omitempty (s ∷ services) sets =
      let (mds, sets1) = gen_methods rewrite omitempty s.full_name s.methods sets in
      some_of mds || any_methods omitempty services sets1

  rules_some :
      (m : Method) (more : List Rule) (r : Rule) (sets : MethodSets)
      → some_of (build_rules rewrite m (more ++ (r ∷ [])) sets).0 ≡ true
  unfolding build_rules
  rules_some m [] r sets = refl
  rules_some m (q ∷ more) r sets = refl

  unary_some :
      (service : Bytes) (m : Method) (o : Option (Rule × List Rule)) (sets : MethodSets)
      → some_of (build_unary rewrite true service m o sets).0 ≡ has_rule o
  unfolding build_unary
  unary_some service m none sets = refl
  unary_some service m (some (rule, more)) sets = rules_some m more rule sets

  method_some :
      (service : Bytes) (m : Method) (sets : MethodSets)
      → some_of (build_method rewrite true service m sets).0
        ≡ (not (is_streaming m) && has_rule m.rule)
  unfolding build_method
  method_some service m sets = elim (Bool-cases (is_streaming m)) [
    | inl streams ↦ rw streams refl
    | inr unary ↦ rw unary (unary_some service m m.rule sets)
  ]

  methods_some :
      (service : Bytes) (ms : List Method) (sets : MethodSets)
      → some_of (gen_methods rewrite true service ms sets).0 ≡ method_has_rule ms
  unfolding gen_methods method_has_rule
  methods_some service [] sets = refl
  methods_some service (m ∷ ms) sets =
      let (mds, sets1) = build_method rewrite true service m sets in
      some_of-append mds (gen_methods rewrite true service ms sets1).0
      ∙ ap₂ ◌||◌ (method_some service m sets) (methods_some service ms sets1)

  any_some :
      (services : List Service) (sets : MethodSets)
      → any_methods true services sets ≡ has_mqtt_rule services
  unfolding any_methods has_mqtt_rule
  any_some [] sets = refl
  any_some (s ∷ services) sets =
      ap₂ ◌||◌ (methods_some s.full_name s.methods sets)
        (any_some services (gen_methods rewrite true s.full_name s.methods sets).1)

  double_not : (b : Bool) → not (not b) ≡ b
  double_not true = refl
  double_not false = refl

  -- With omitempty a file is generated exactly if some service of it gets a binding:
  -- `hasMQTTRule`, which decides it, and `genService`, which collects the bindings, agree on
  -- every file and from whatever numbers used before.
  pub generates_lem :
      (services : List Service) (sets : MethodSets)
      → generates true services ≡ any_methods true services sets
  unfolding generates any_methods
  generates_lem [] sets = refl
  generates_lem (s ∷ services) sets =
      ap (λ b. not (b || not (has_mqtt_rule (s ∷ services))))
        (==_false (suc (length services)) 0 (omega arith))
      ∙ double_not (has_mqtt_rule (s ∷ services))
      ∙ sym (any_some (s ∷ services) sets)
