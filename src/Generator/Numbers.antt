-- ===== src/Generator/Numbers.antt =====
-- The numbers that keep bindings of one method apart.
use kratos_transport_rpc.Prelude.{
  ℕ, ◌+◌, ◌≤◌, ◌<◌, ◌≡◌, ◌≢◌, refl, ap, sym, subst, ◌∙◌, inl, inr, Bool, Bool-cases, true, false,
  Option, none, some, List, [], ◌∷◌, ◌++◌, Bytes, arith,
}
use kratos_transport_rpc.Prelude.Maps.{
  store, lookup-store, lookup-store_other, equal_bytes, equal_bytes-true, equal_bytes_refl,
}
use kratos_transport_rpc.Generator.{
  Rule, Method, MethodDesc, MethodSets, used, is_streaming, build_method_desc, build_mqtt_rule,
  build_rules, build_unary, build_method, gen_methods,
}

-- The numbers of the name of `d` from those used in `before` up to those used in `after`.
abbrev Within : MethodSets → MethodSets → MethodDesc → Type 0
Within before after d = (used d.name before ≤ d.num) × (d.num < used d.name after)

abbrev AllWithin : MethodSets → MethodSets → List MethodDesc → Type 0
AllWithin before after [] = Unit
AllWithin before after (d ∷ ds) = Within before after d × AllWithin before after ds

abbrev pub Apart : MethodDesc → List MethodDesc → Type 0
Apart d [] = Unit
Apart d (e ∷ es) = (d.name ≡ e.name → d.num ≢ e.num) × Apart d es

-- No two descriptions have one name and one number.
abbrev pub AllApart : List MethodDesc → Type 0
AllApart [] = Unit
AllApart (d ∷ ds) = Apart d ds × AllApart ds

record Numbered (before : MethodSets) (ds : List MethodDesc) (after : MethodSets) : Type 0 where
  within : AllWithin before after ds
  grows : (name : Bytes) → used name before ≤ used name after
  apart : AllApart ds

used-store : (name : Bytes) (n : ℕ) (sets : MethodSets) → used name (store name n sets) ≡ n
unfolding used
used-store name n sets = ap (λ o. elim o [ none ↦ 0 | some k ↦ k ]) (lookup-store name n sets)

used-other :
    (name other : Bytes) (n : ℕ) (sets : MethodSets)
    → name ≢ other
    → used other (store name n sets) ≡ used other sets
unfolding used
used-other name other n sets h =
    ap (λ o. elim o [ none ↦ 0 | some k ↦ k ]) (lookup-store_other name other n sets h)

store-grows :
    (name other : Bytes) (sets : MethodSets)
    → used other sets ≤ used other (store name (used name sets + 1) sets)
store-grows name other sets = elim (Bool-cases (equal_bytes name other)) [
  | inl same ↦
      let e = equal_bytes-true name other same in
      subst (λ o. used o sets ≤ used o (store name (used name sets + 1) sets)) e
        (omega (arith, used-store name (used name sets + 1) sets))
  | inr apart ↦ omega (
    arith,
    used-other name other (used name sets + 1) sets (λ e. absurd (
        let t : true ≡ false = sym (equal_bytes_refl name) ∙ ap (equal_bytes name) e ∙ apart in
        cc)),
  )
]

AllWithin-wider :
    (a b c d : MethodSets) (ds : List MethodDesc)
    → ((name : Bytes) → used name a ≤ used name b)
    → ((name : Bytes) → used name c ≤ used name d)
    → AllWithin b c ds
    → AllWithin a d ds
AllWithin-wider a b c d [] low high w = tt
AllWithin-wider a b c d (x ∷ ds) low high ((from, to), w) =
    ((omega (arith, low x.name), omega (arith, high x.name)), AllWithin-wider a b c d ds low high w)

AllWithin-append :
    (a b : MethodSets) (ds es : List MethodDesc)
    → AllWithin a b ds
    → AllWithin a b es
    → AllWithin a b (ds ++ es)
AllWithin-append a b [] es w v = v
AllWithin-append a b (d ∷ ds) es w v = (w.0, AllWithin-append a b ds es w.1 v)

Apart-later :
    (a b c : MethodSets) (d : MethodDesc) (es : List MethodDesc)
    → Within a b d
    → AllWithin b c es
    → Apart d es
Apart-later a b c d [] w v = tt
Apart-later a b c d (e ∷ es) w (v, vs) =
    (λ same num. omega (arith, w.1, v.0, num, ap (λ n. used n b) same), Apart-later a b c d es w vs)

Apart-append :
    (d : MethodDesc) (ds es : List MethodDesc) → Apart d ds → Apart d es → Apart d (ds ++ es)
Apart-append d [] es p q = q
Apart-append d (x ∷ ds) es p q = (p.0, Apart-append d ds es p.1 q)

AllApart-append :
    (a b c : MethodSets) (ds es : List MethodDesc)
    → AllWithin a b ds
    → AllWithin b c es
    → AllApart ds
    → AllApart es
    → AllApart (ds ++ es)
AllApart-append a b c [] es w v p q = q
AllApart-append a b c (d ∷ ds) es w v p q = (
  Apart-append d ds es p.0 (Apart-later a b c d es w.0 v),
  AllApart-append a b c ds es w.1 v p.1 q,
)

Numbered-then :
    {a b c : MethodSets} {ds es : List MethodDesc}
    → Numbered a ds b
    → Numbered b es c
    → Numbered a (ds ++ es) c
Numbered-then {a} {b} {c} {ds} {es} x y = record {
  within =
      AllWithin-append a c ds es (AllWithin-wider a a b c ds (λ name. omega arith) y.grows x.within)
        (AllWithin-wider a b c c es x.grows (λ name. omega arith) y.within);
  grows = λ name. omega (arith, x.grows name, y.grows name);
  apart = AllApart-append a b c ds es x.within y.within x.apart y.apart;
}

Numbered-none : {a : MethodSets} → Numbered a [] a
Numbered-none = record { within = tt; grows = λ name. omega arith; apart = tt }

module _ (rewrite : Bytes → Bytes × Bool) where
  one-Numbered :
      (m : Method) (sets : MethodSets) (d : MethodDesc)
      → d.name ≡ m.go_name
      → d.num ≡ used m.go_name sets
      → Numbered sets (d ∷ []) (store m.go_name (used m.go_name sets + 1) sets)
  one-Numbered m sets d e n = record {
    within = (
      (
        omega (arith, n, ap (λ k. used k sets) e),
        omega (
          arith,
          n,
          ap (λ k. used k (store m.go_name (used m.go_name sets + 1) sets)) e,
          used-store m.go_name (used m.go_name sets + 1) sets,
        ),
      ),
      tt,
    );
    grows = λ name. store-grows m.go_name name sets;
    apart = (tt, tt);
  }

  build_rules-Numbered :
      (m : Method) (rules : List Rule) (sets : MethodSets)
      → Numbered sets (build_rules rewrite m rules sets).0 (build_rules rewrite m rules sets).1
  unfolding build_rules build_mqtt_rule build_method_desc
  build_rules-Numbered m [] sets = Numbered-none
  build_rules-Numbered m (r ∷ rules) sets =
      let (md, sets1) = build_mqtt_rule rewrite m r sets in
      Numbered-then (one-Numbered m sets md refl refl) (build_rules-Numbered m rules sets1)

  build_unary-Numbered :
      (omitempty : Bool) (service : Bytes) (m : Method) (o : Option (Rule × List Rule))
      (sets : MethodSets)
      → Numbered sets
          (build_unary rewrite omitempty service m o sets).0
          (build_unary rewrite omitempty service m o sets).1
  unfolding build_unary build_method_desc
  build_unary-Numbered omitempty service m (some (rule, more)) sets =
      build_rules-Numbered m (more ++ (rule ∷ [])) sets
  build_unary-Numbered true service m none sets = Numbered-none
  build_unary-Numbered false service m none sets = one-Numbered m sets _ refl refl

  build_method-Numbered :
      (omitempty : Bool) (service : Bytes) (m : Method) (sets : MethodSets)
      → Numbered sets
          (build_method rewrite omitempty service m sets).0
          (build_method rewrite omitempty service m sets).1
  unfolding build_method
  build_method-Numbered omitempty service m sets = elim (Bool-cases (is_streaming m)) [
    | inl streams ↦ rw streams Numbered-none
    | inr unary ↦ rw unary (build_unary-Numbered omitempty service m m.rule sets)
  ]

  gen_methods-Numbered :
      (omitempty : Bool) (service : Bytes) (ms : List Method) (sets : MethodSets)
      → Numbered sets
          (gen_methods rewrite omitempty service ms sets).0
          (gen_methods rewrite omitempty service ms sets).1
  unfolding gen_methods
  gen_methods-Numbered omitempty service [] sets = Numbered-none
  gen_methods-Numbered omitempty service (m ∷ ms) sets =
      Numbered-then (build_method-Numbered omitempty service m sets) (
        gen_methods-Numbered omitempty service ms (build_method rewrite omitempty service m sets).1)

  -- Among the bindings of a service, whatever rules its methods have and from whatever numbers
  -- used before, no two have the same name and the same number, so that the handlers that the
  -- template names after both do not clash.
  pub gen_methods-apart :
      (omitempty : Bool) (service : Bytes) (ms : List Method) (sets : MethodSets)
      → AllApart (gen_methods rewrite omitempty service ms sets).0
  gen_methods-apart omitempty service ms sets =
      (gen_methods-Numbered omitempty service ms sets).apart
