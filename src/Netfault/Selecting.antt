-- ===== src/Netfault/Selecting.antt =====
-- core/src/netfault/mod.rs: `Selector::matches`, and the conditions that a selector states.
use redsuite.Prelude.{
  ◌≡◌, refl, ◌↔◌, ◌⊎◌, inl, inr, Bool, true, ◌&&◌, ◌||◌, List, [], ◌∷◌, Option, none, some,
  PartialEq, ◌==◌, string_eq, contains, arith, Bool-cases,
}
use redsuite.Netfault.{Operation, Selector, is_none_or, is_empty, matches, transport_eq, stage_eq}

module _ {A : Type 0} where
  -- The value stands in the list.
  abbrev pub Occurs : A → List A → Type 0
  Occurs a [] = ⊥
  Occurs a (x ∷ xs) = (x ≡ a) ⊎ Occurs a xs

  -- An empty list of choices leaves the choice open.
  abbrev pub Allows : List A → A → Type 0
  Allows [] a = Unit
  Allows (x ∷ xs) a = Occurs a (x ∷ xs)

  abbrev pub Requires : Option A → (A → Type 0) → Type 0
  Requires none P = Unit
  Requires (some a) P = P a

  contains→Occurs : ⦃e : PartialEq A⦄ (xs : List A) (a : A) → contains xs a ≡ true → Occurs a xs
  contains→Occurs ⦃e⦄ [] a h = absurd (cc)
  contains→Occurs ⦃e⦄ (x ∷ xs) a h = elim (Bool-cases (x == a)) [
    | inl hit ↦ inl ((e.eq_iff x a).0 hit)
    | inr miss ↦ inr (contains→Occurs xs a (rw miss at h))
  ]

  Occurs→contains : ⦃e : PartialEq A⦄ (xs : List A) (a : A) → Occurs a xs → contains xs a ≡ true
  Occurs→contains ⦃e⦄ [] a h = absurd h
  Occurs→contains ⦃e⦄ (x ∷ xs) a (inl p) = rw ((e.eq_iff x a).1 p)
  Occurs→contains ⦃e⦄ (x ∷ xs) a (inr h) = elim (Bool-cases (x == a)) [
    | inl hit ↦ rw hit
    | inr miss ↦ rw miss (Occurs→contains xs a h)
  ]

  contains_iff : ⦃e : PartialEq A⦄ (xs : List A) (a : A) → (contains xs a ≡ true) ↔ Occurs a xs
  contains_iff xs a = (contains→Occurs xs a, Occurs→contains xs a)

  allows_iff :
      ⦃e : PartialEq A⦄ (xs : List A) (a : A)
      → ((is_empty xs || contains xs a) ≡ true) ↔ Allows xs a
  allows_iff [] a = (λ h. tt, λ h. refl)
  allows_iff (x ∷ xs) a = (contains→Occurs (x ∷ xs) a, Occurs→contains (x ∷ xs) a)

-- A selector selects an operation when each of its conditions that is set holds of it.
pub record Selects (s : Selector) (o : Operation) : Type 0 where
  pub transport : Requires s.transport (λ t. t ≡ o.transport)
  pub stages : Allows s.stages o.stage
  pub methods : Allows s.methods o.method
  pub signature : Requires s.signature (λ g. Occurs g o.signatures)
  pub account : Requires s.account (λ a. Occurs a o.accounts)

module _ {A : Type 0} where
  requires_iff :
      (v : Option A) (p : A → Bool) (P : A → Type 0)
      → ((a : A) → (p a ≡ true) ↔ P a)
      → (is_none_or v p ≡ true) ↔ Requires v P
  requires_iff none p P h = (λ _. tt, λ _. refl)
  requires_iff (some a) p P h = h a

and_iff :
    (a b c d e : Bool)
    → ((a && b && c && d && e) ≡ true)
      ↔ ((a ≡ true) × (b ≡ true) × (c ≡ true) × (d ≡ true) × (e ≡ true))
and_iff a b c d e = (λ h. ground arith, λ h. ground arith)

-- `matches` answers true exactly for the operations that `Selects` describes.
pub matches_iff : (s : Selector) (o : Operation) → (matches s o ≡ true) ↔ Selects s o
unfolding matches
matches_iff s o =
    let on_transport =
      requires_iff s.transport (λ t. t == o.transport) (λ t. t ≡ o.transport)
        (λ t. transport_eq.eq_iff t o.transport) in
    let on_signature =
      requires_iff s.signature (λ g. contains o.signatures g) (λ g. Occurs g o.signatures)
        (contains_iff o.signatures) in
    let on_account =
      requires_iff s.account (λ a. contains o.accounts a) (λ a. Occurs a o.accounts)
        (contains_iff o.accounts) in
    let on_stage = allows_iff s.stages o.stage in
    let on_method = allows_iff s.methods o.method in
    (
      λ h.
          let (t, st, m, g, a) = (and_iff _ _ _ _ _).0 h in
          record {
            transport = on_transport.0 t;
            stages = on_stage.0 st;
            methods = on_method.0 m;
            signature = on_signature.0 g;
            account = on_account.0 a;
          },
      λ h. (and_iff _ _ _ _ _).1 (
        on_transport.1 h.transport,
        on_stage.1 h.stages,
        on_method.1 h.methods,
        on_signature.1 h.signature,
        on_account.1 h.account,
      ),
    )
