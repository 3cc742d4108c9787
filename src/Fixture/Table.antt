-- ===== src/Fixture/Table.antt =====
-- programs/fixture/src/build.rs: the places in the account table of a batch.
use redsuite.Prelude.{
  ℕ, zero, suc, ◌%◌, ◌^◌, ◌≤◌, ◌<◌, ◌≡◌, refl, ap, subst, ◌∙◌, inl, inr, Bool, true, ◌||◌, List, [],
  ◌∷◌, ◌++◌, some, arith, length, length-append, get_elem?, ltb, ltb→lt, eqb, eqb_iff, Bool-cases,
  Option-cases,
}
use redsuite.Fixture.{Key}
use redsuite.Fixture.Build.{Meta, position, raise, account}

-- The entry names the same key and allows at least as much.
pub record Raised (m m' : Meta) : Type 0 where
  pub key : m'.pubkey ≡ m.pubkey
  pub signer : m.is_signer ≡ true → m'.is_signer ≡ true
  pub writable : m.is_writable ≡ true → m'.is_writable ≡ true

-- The place holds an entry for what was asked.
abbrev pub Granted : List Meta → Meta → ℕ → Type 0
Granted ms meta i = (m : Meta) × (get_elem? ms i ≡ some m) × Raised meta m

-- Every place keeps its key and its privileges.
abbrev pub Extends : List Meta → List Meta → Type 0
Extends ms ms' = (j : ℕ) (m : Meta) → get_elem? ms j ≡ some m → Granted ms' m j

pub Raised-refl : (m : Meta) → Raised m m
Raised-refl m = record { key = refl; signer = λ h. h; writable = λ h. h }

Raised-trans : (a b c : Meta) → Raised a b → Raised b c → Raised a c
Raised-trans a b c p q = record {
  key = q.key ∙ p.key;
  signer = λ h. q.signer (p.signer h);
  writable = λ h. q.writable (p.writable h);
}

pub Extends-refl : (ms : List Meta) → Extends ms ms
Extends-refl ms j m e = (m, e, Raised-refl m)

pub Granted-Extends :
    (ms ms' : List Meta) (meta : Meta) (i : ℕ)
    → Extends ms ms'
    → Granted ms meta i
    → Granted ms' meta i
Granted-Extends ms ms' meta i ext (m, e, r) =
    let (m', e', r') = ext i m e in (m', e', Raised-trans meta m m' r r')

pub Extends-trans : (a b c : List Meta) → Extends a b → Extends b c → Extends a c
Extends-trans a b c p q j m e = Granted-Extends b c m j q (p j m e)

pub some-inj : {A : Type 0} (a b : A) → some a ≡ some b → a ≡ b
some-inj a b e = cc

-- The place is in the table, and its entry has the key.
abbrev Found : Key → List Meta → ℕ → Type 0
Found k ms i = (m : Meta) × (get_elem? ms i ≡ some m) × (m.pubkey ≡ k) × (i < length ms)

position-some : (k : Key) (ms : List Meta) (i : ℕ) → position k ms ≡ some i → Found k ms i
unfolding position
position-some k [] i e = absurd (cc)
position-some k (m ∷ ms) i e = elim (Bool-cases (eqb m.pubkey k)) [
  | inl hit ↦
      subst (Found k (m ∷ ms)) (some-inj 0 i (rw hit at e))
        (m, refl, (eqb_iff m.pubkey k).0 hit, omega arith)
  | inr miss ↦ elim (Option-cases (position k ms)) [
    | inl nothing ↦ absurd (cc (rw (miss, nothing) at e))
    | inr (j, found) ↦
        let (n, at, key, lt) = position-some k ms j found in
        subst (Found k (m ∷ ms)) (some-inj (suc j) i (rw (miss, found) at e))
          (n, at, key, omega arith)
  ]
]

or-left : (a b : Bool) → a ≡ true → (a || b) ≡ true
or-left a b h = ground arith

or-right : (a b : Bool) → b ≡ true → (a || b) ≡ true
or-right a b h = ground arith

raise-Extends : (i : ℕ) (meta : Meta) (ms : List Meta) → Extends ms (raise i meta ms)
unfolding raise
raise-Extends i meta [] j m e = absurd (cc)
raise-Extends zero meta (x ∷ ms) zero m e =
    subst (λ y. Granted (raise zero meta (x ∷ ms)) y zero) (some-inj x m e)
      (
        _,
        refl,
        record {
          key = refl;
          signer = or-left x.is_signer meta.is_signer;
          writable = or-left x.is_writable meta.is_writable;
        },
      )
raise-Extends zero meta (x ∷ ms) (suc j) m e = (m, e, Raised-refl m)
raise-Extends (suc i) meta (x ∷ ms) zero m e = (m, e, Raised-refl m)
raise-Extends (suc i) meta (x ∷ ms) (suc j) m e = raise-Extends i meta ms j m e

raise-Granted :
    (i : ℕ) (meta : Meta) (ms : List Meta) (m : Meta)
    → get_elem? ms i ≡ some m
    → m.pubkey ≡ meta.pubkey
    → Granted (raise i meta ms) meta i
unfolding raise
raise-Granted i meta [] m e k = absurd (cc)
raise-Granted zero meta (x ∷ ms) m e k = (
  _,
  refl,
  record {
    key = ap Meta.pubkey (some-inj x m e) ∙ k;
    signer = or-right x.is_signer meta.is_signer;
    writable = or-right x.is_writable meta.is_writable;
  },
)
raise-Granted (suc i) meta (x ∷ ms) m e k = raise-Granted i meta ms m e k

length-raise : (i : ℕ) (meta : Meta) (ms : List Meta) → length (raise i meta ms) ≡ length ms
unfolding raise
length-raise i meta [] = refl
length-raise zero meta (x ∷ ms) = refl
length-raise (suc i) meta (x ∷ ms) = ap suc (length-raise i meta ms)

-- A table that a `u16` can address.
abbrev pub Addressable : List Meta → Type 0
Addressable ms = length ms ≤ 2 ^ 16

-- What naming an account does to the table: the place named holds what was asked, and every place
-- keeps its key and its privileges.
abbrev pub Named : List Meta → Meta → ℕ × List Meta → Type 0
Named ms meta (i, ms') = Addressable ms' × Extends ms ms' × Granted ms' meta i

snoc-Extends : (ms : List Meta) (meta : Meta) → Extends ms (ms ++ meta ∷ [])
snoc-Extends [] meta j m e = absurd (cc)
snoc-Extends (x ∷ ms) meta zero m e = (m, e, Raised-refl m)
snoc-Extends (x ∷ ms) meta (suc j) m e = snoc-Extends ms meta j m e

get_elem?-snoc :
    (ms : List Meta) (meta : Meta) → get_elem? (ms ++ meta ∷ []) (length ms) ≡ some meta
get_elem?-snoc [] meta = refl
get_elem?-snoc (x ∷ ms) meta = get_elem?-snoc ms meta

pub account-Named :
    (meta : Meta) (ms : List Meta) (r : ℕ × List Meta)
    → account meta ms ≡ some r
    → Addressable ms
    → Named ms meta r
unfolding account
account-Named meta ms r e fits = elim (Option-cases (position meta.pubkey ms)) [
  | inl nothing ↦ elim (Bool-cases (ltb (length ms) (2 ^ 16))) [
    | inl room ↦
        let lt = ltb→lt (length ms) (2 ^ 16) room in
        let long = length-append ms (meta ∷ []) in
        subst (Named ms meta)
          (some-inj (length ms, ms ++ meta ∷ []) r (rw (nothing, room, account) at e))
          (omega arith, snoc-Extends ms meta, (meta, get_elem?-snoc ms meta, Raised-refl meta))
    | inr full ↦ absurd (cc (rw (nothing, full, account) at e))
  ]
  | inr (i, found) ↦
      let (m, at, key, lt) = position-some meta.pubkey ms i found in
      let long = length-raise i meta ms in
      let same : i ≡ i % 2 ^ 16 = omega arith in
      subst (Named ms meta) (some-inj (i % 2 ^ 16, raise i meta ms) r (rw (found, account) at e)) (
        omega arith,
        raise-Extends i meta ms,
        subst (Granted (raise i meta ms) meta) same (raise-Granted i meta ms m at key),
      )
]
