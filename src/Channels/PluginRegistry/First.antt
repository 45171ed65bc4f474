-- ===== src/Channels/PluginRegistry/First.antt =====
-- The first factory of an id stays (src/channels/plugin_registry.cpp).
use mathlib.Core.Bool.{false≢true}
use ghostclaw.Base.{
  ◌≡◌, refl, ap, sym, ◌∙◌, true, false, List, [], ◌∷◌, Option, none, some, if◌then◌else◌, null, inl,
  inr, Bool-cases, Option-cases,
}
use ghostclaw.Base.Text.{Bytes, equal, equal_iff}
use ghostclaw.Security.ToolPolicy.Names.{lookup}
use ghostclaw.Channels.PluginRegistry.{
  normalize_id, insert_new, register_set, register_factory, create,
}

empty_other : (id key : Bytes) → null id ≡ true → null key ≡ false → equal id key ≡ false
empty_other id key empty there = elim (Bool-cases (equal id key)) [
  | inr other ↦ other
  | inl same ↦ absurd (false≢true (sym there ∙ ap null (sym ((equal_iff id key).0 same)) ∙ empty))
]

module _ {F : Type 0} where
  abbrev pub register_all : List (Bytes × Option F) → List (Bytes × F) → List (Bytes × F)
  register_all [] factories = factories
  register_all ((id, factory) ∷ rest) factories =
      register_all rest (register_factory id factory factories).1

  abbrev pub or_first : Option F → Option F → Option F
  or_first (some factory) later = some factory
  or_first none later = later

  -- The first factory that is given for an id, however the id is spelled.
  abbrev pub first_of : Bytes → List (Bytes × Option F) → Option F
  first_of normalized [] = none
  first_of normalized ((id, factory) ∷ rest) =
      let later = first_of normalized rest in
      if equal (normalize_id id) normalized then or_first factory later else later

  or_first-none : (o : Option F) → or_first o none ≡ o
  or_first-none none = refl
  or_first-none (some factory) = refl

  or_first_assoc : (a b c : Option F) → or_first (or_first a b) c ≡ or_first a (or_first b c)
  or_first_assoc none b c = refl
  or_first_assoc (some factory) b c = refl

  lookup-insert :
      (id key : Bytes) (factory : F) (factories : List (Bytes × F))
      → lookup key (insert_new id factory factories (lookup id factories)).1
        ≡ or_first (lookup key factories) (if equal id key then some factory else none)
  unfolding lookup
  lookup-insert id key factory factories = elim (Bool-cases (equal id key)) [
    | inr other ↦ elim (Option-cases (lookup id factories)) [
      | inr (old, there) ↦ rw (other, there) (sym (or_first-none (lookup key factories)))
      | inl missing ↦ rw (other, missing) (rw other (sym (or_first-none (lookup key factories))))
    ]
    | inl same ↦
        let at : lookup key factories ≡ lookup id factories =
          ap (λ k. lookup k factories) (sym ((equal_iff id key).0 same)) in
        elim (Option-cases (lookup id factories)) [
          | inr (old, there) ↦ rw (same, there, at ∙ there) refl
          | inl missing ↦ rw (same, missing, at ∙ missing) (rw same refl)
        ]
  ]

  set-lookup :
      (id key : Bytes) (factory : Option F) (factories : List (Bytes × F))
      → lookup key (register_set id factory factories).1
        ≡ or_first (lookup key factories) (if equal id key then factory else none)
  set-lookup id key none factories = elim (Bool-cases (equal id key)) [
    | inl same ↦ rw same (sym (or_first-none (lookup key factories)))
    | inr other ↦ rw other (sym (or_first-none (lookup key factories)))
  ]
  set-lookup id key (some factory) factories = lookup-insert id key factory factories

  register-lookup :
      (id key : Bytes) (factory : Option F) (factories : List (Bytes × F))
      → null key ≡ false
      → lookup key (register_factory id factory factories).1
        ≡ or_first (lookup key factories) (if equal (normalize_id id) key then factory else none)
  unfolding register_factory
  register-lookup id key factory factories there = elim (Bool-cases (null (normalize_id id))) [
    | inl empty ↦
        rw (empty, empty_other (normalize_id id) key empty there)
          (sym (or_first-none (lookup key factories)))
    | inr full ↦ rw full (set-lookup (normalize_id id) key factory factories)
  ]

  step :
      (id key : Bytes) (factory : Option F) (rest : List (Bytes × Option F))
      → or_first (if equal (normalize_id id) key then factory else none) (first_of key rest)
        ≡ first_of key ((id, factory) ∷ rest)
  step id key factory rest = elim (Bool-cases (equal (normalize_id id) key)) [
    | inl same ↦ rw same refl
    | inr other ↦ rw other refl
  ]

  register_all-lookup :
      (calls : List (Bytes × Option F)) (key : Bytes) (factories : List (Bytes × F))
      → null key ≡ false
      → lookup key (register_all calls factories)
        ≡ or_first (lookup key factories) (first_of key calls)
  register_all-lookup [] key factories there = sym (or_first-none (lookup key factories))
  register_all-lookup ((id, factory) ∷ rest) key factories there =
      register_all-lookup rest key (register_factory id factory factories).1 there
      ∙ ap (λ o. or_first o (first_of key rest)) (register-lookup id key factory factories there)
      ∙ or_first_assoc (lookup key factories)
          (if equal (normalize_id id) key then factory else none) (first_of key rest)
      ∙ ap (or_first (lookup key factories)) (step id key factory rest)

  -- After any calls of register_factory on an empty registry, an id that is not blank creates its
  -- channel by the first factory that was given for it, in whatever case and with whatever spaces
  -- around it; where none was given, nothing is created.
  pub create-register_all :
      (calls : List (Bytes × Option F)) (id : Bytes)
      → null (normalize_id id) ≡ false
      → create (register_all calls []) id ≡ first_of (normalize_id id) calls
  unfolding create lookup
  create-register_all calls id there =
      rw there (register_all-lookup calls (normalize_id id) [] there)
