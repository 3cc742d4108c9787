-- ===== src/Subscription/Numbers.antt =====
-- core/src/transport/subscription.rs: the tables of a connection that share the numbers of requests.
use redsuite.Prelude.{
  eqb, eqb_iff, sym, ℕ, ◌≤◌, ◌<◌, ◌≡◌, subst, ◌⊎◌, inl, inr, [], ◌∷◌, none, some, arith,
  if◌then◌else◌, Bool-cases, PartialEq, Table, get, remove, insert, tally, Below, Unique,
  get-remove, get-insert, get-Below, remove-Below, remove-Unique,
}
use redsuite.Subscription.{Request}
use redsuite.Subscription.Connection.{subscribes_to, withdrawn}
use redsuite.Subscription.Scope.{is_subscribe}
use redsuite.Subscription.Frames.{Answered}

-- An unsubscription that waits for the lock has no pending request under its number.
abbrev pub Apart : {U V : Type 0} → Table U → Table V → Type 0
Apart leaving requests = (j : ℕ) → (get j leaving ≡ none) ⊎ (get j requests ≡ none)

module _ {U V : Type 0} where
  pub Apart-remove :
      (leaving : Table U) (m : Table V) (id : ℕ) → Apart leaving m → Apart leaving (remove id m)
  Apart-remove leaving m id h j = elim (h j) [
    | inl away ↦ inl away
    | inr gone ↦ inr (ground (arith, get-remove j id m))
  ]

  pub Apart-Answered :
      (leaving : Table U) (before after : Table V)
      → Answered before after
      → Apart leaving before
      → Apart leaving after
  Apart-Answered leaving before after (inl e) h = subst (Apart leaving) (sym e) h
  Apart-Answered leaving before after (inr (id, e)) h =
      subst (Apart leaving) (sym e) (Apart-remove leaving before id h)

  pub Apart-fresh-left :
      (leaving : Table U) (m : Table V) (id : ℕ) (v : U)
      → Below id m
      → Apart leaving m
      → Apart (insert id v leaving) m
  Apart-fresh-left leaving m id v u h j = elim (Bool-cases (eqb id j)) [
    | inl same ↦ inr (subst (λ k. get k m ≡ none) ((eqb_iff id j).0 same) (get-Below id m u))
    | inr new ↦ elim (h j) [
      | inl away ↦ inl (ground (arith, get-insert j id v leaving))
      | inr gone ↦ inr gone
    ]
  ]

  pub Apart-fresh-right :
      (leaving : Table U) (m : Table V) (id : ℕ) (v : V)
      → Below id leaving
      → Apart leaving m
      → Apart leaving (insert id v m)
  Apart-fresh-right leaving m id v u h j = elim (Bool-cases (eqb id j)) [
    | inl same ↦
        inl (subst (λ k. get k leaving ≡ none) ((eqb_iff id j).0 same) (get-Below id leaving u))
    | inr new ↦ elim (h j) [
      | inl away ↦ inl away
      | inr gone ↦ inr (ground (arith, get-insert j id v m))
    ]
  ]

  pub Apart-move :
      (leaving : Table U) (m : Table V) (id : ℕ) (v : V)
      → Apart leaving m
      → Apart (remove id leaving) (insert id v m)
  Apart-move leaving m id v h j = elim (Bool-cases (eqb id j)) [
    | inl same ↦ inl (ground (arith, get-remove j id leaving))
    | inr new ↦ elim (h j) [
      | inl away ↦ inl (ground (arith, get-remove j id leaving))
      | inr gone ↦ inr (ground (arith, get-insert j id v m))
    ]
  ]

  pub get-Apart :
      (leaving : Table U) (m : Table V) (id : ℕ) (u : U)
      → Apart leaving m
      → get id leaving ≡ some u
      → get id m ≡ none
  get-Apart leaving m id u h e = elim (h id) [ inl away ↦ absurd (cc) | inr gone ↦ gone ]

module _ {V : Type 0} where
  pub lt_of_get :
      (bound id : ℕ) (m : Table V) (v : V) → Below bound m → get id m ≡ some v → id < bound
  unfolding get
  lt_of_get bound id [] v u e = absurd (cc)
  lt_of_get bound id ((j, w) ∷ m) v u e = elim (Bool-cases (eqb j id)) [
    | inl same ↦ let at : j ≡ id = (eqb_iff j id).0 same in omega (arith, u.0)
    | inr other ↦ lt_of_get bound id m v u.1 (ground arith)
  ]

  pub Unique-Answered :
      (before after : Table V) → Answered before after → Unique before → Unique after
  Unique-Answered before after (inl e) u = subst Unique (sym e) u
  Unique-Answered before after (inr (id, e)) u = subst Unique (sym e) (remove-Unique id before u)

  pub Below-Answered :
      (bound : ℕ) (before after : Table V)
      → Answered before after
      → Below bound before
      → Below bound after
  Below-Answered bound before after (inl e) u = subst (Below bound) (sym e) u
  Below-Answered bound before after (inr (id, e)) u =
      subst (Below bound) (sym e) (remove-Below bound id before u)

-- What a withdrawal leaves of a table of requests.
pub record Withdrawn {K : Type 0} (before after : Table (Request K)) : Type 0 where
  pub fewer : tally is_subscribe after ≤ tally is_subscribe before
  pub unique : Unique before → Unique after
  pub below : (bound : ℕ) → Below bound before → Below bound after
  pub gone : (j : ℕ) → get j before ≡ none → get j after ≡ none

module _ {K : Type 0} ⦃e : PartialEq K⦄ where
  pub withdrawn-Withdrawn : (key : K) (m : Table (Request K)) → Withdrawn m (withdrawn key m)
  unfolding withdrawn tally get
  withdrawn-Withdrawn key [] = record {
    fewer = omega arith;
    unique = λ u. u;
    below = λ bound u. u;
    gone = λ j a. a;
  }
  withdrawn-Withdrawn key ((id, request) ∷ rest) =
      let ih = withdrawn-Withdrawn key rest in
      elim (Bool-cases (subscribes_to key request)) [
        | inl named ↦
            rw (named, if◌then◌else◌)
              record {
                fewer = omega (arith, ih.fewer);
                unique = λ u. ih.unique u.1;
                below = λ bound u. ih.below bound u.1;
                gone = λ j a. ih.gone j (ground arith);
              }
        | inr kept ↦
            rw (kept, if◌then◌else◌)
              record {
                fewer = omega (arith, ih.fewer);
                unique = λ u. (ih.gone id u.0, ih.unique u.1);
                below = λ bound u. (u.0, ih.below bound u.1);
                gone = λ j a. ground (arith, ih.gone j);
              }
      ]

pub Apart-Withdrawn :
    {U K : Type 0} (leaving : Table U) (before after : Table (Request K))
    → Withdrawn before after
    → Apart leaving before
    → Apart leaving after
Apart-Withdrawn leaving before after w h j = elim (h j) [
  | inl away ↦ inl away
  | inr gone ↦ inr (w.gone j gone)
]
