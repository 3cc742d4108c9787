-- ===== src/Causal/Steps.antt =====
-- core/src/redline/causal.rs: the batch that a step sends, run on the chain, against the model of the pair.
use redsuite.Prelude.{
  ℕ, ◌+◌, ◌≤◌, ◌<◌, ◌≡◌, sym, ap, subst, ◌∙◌, inl, inr, Bool, true, false, Bool-cases, List, [],
  ◌∷◌, ◌++◌, nat_eq, some, ok, err, >>=-eq-ok, length, length-append, drop, take,
  take-length-append, arith, eqb, eqb_iff, if◌then◌else◌, u64_mod, leb,
}
use redsuite.Fixture.{
  Key, ProgramError, account_data_too_small, Fallible, CellHeader, size, Account, Ledger, Codec,
}
use redsuite.Fixture.Cell.{update, set_value, put_bytes}
use redsuite.Fixture.Cells.{update-Updated, set_value-IsTame, put_bytes-IsTame}
use redsuite.Fixture.Execute.{write_payload}
use redsuite.Fixture.Batches.{each_key}
use redsuite.Causal.{hash_size}
use redsuite.Causal.Holding.{Holds}

some-inj : (a b : CellHeader) → some a ≡ some b → a ≡ b
some-inj a b h = cc

ok-inj : (l l' : Ledger) → ◌≡◌ {A = Fallible Ledger} (ok l) (ok l') → l ≡ l'
ok-inj l l' h = cc

pair-ok :
    (a c : CellHeader) (us vs : List ℕ)
    → ◌≡◌ {A = Fallible (CellHeader × List ℕ)} (ok (a, us)) (ok (c, vs))
    → (a ≡ c) × (us ≡ vs)
pair-ok a c us vs h = (cc, cc)

if-pair-ok :
    (b : Bool) (a c : CellHeader) (us vs : List ℕ) (e : ProgramError)
    → ◌≡◌ {A = Fallible (CellHeader × List ℕ)} (if b then ok (a, us) else err e) (ok (c, vs))
    → (a ≡ c) × (us ≡ vs)
if-pair-ok true a c us vs e h = pair-ok a c us vs h
if-pair-ok false a c us vs e h = absurd (cc)

module _ (codec : Codec) where
  -- Setting the value of a cell leaves its hash.
  set-Holds :
      (k : Key) (v : ℕ) (l l' : Ledger) (hash : List ℕ) (id : ℕ)
      → v < u64_mod
      → update codec (set_value v) k l ≡ ok l'
      → Holds codec (l k) hash id
      → Holds codec (l' k) hash v
  unfolding set_value
  set-Holds k v l l' hash id small e h =
      let u = update-Updated codec (set_value v) k l l' (set_value-IsTame v small) e in
      let (after, same) =
        pair-ok (record u.before { value = v }) u.after (drop size (l k).bytes)
          (drop size (l' k).bytes) u.changed in
      record {
        header = record u.after { revision = u.before.revision + 1 };
        read = u.written;
        value = ap CellHeader.value (sym after);
        room = subst (λ r. hash_size ≤ length r) same h.room;
        chunk = subst (λ r. take hash_size r ≡ hash) same h.chunk;
      }

  -- Writing a hash over the payload of a cell leaves its value.
  put-Holds :
      (k : Key) (bytes : List ℕ) (l l' : Ledger) (hash : List ℕ) (id : ℕ)
      → length bytes ≡ hash_size
      → write_payload codec bytes k l ≡ ok l'
      → Holds codec (l k) hash id
      → Holds codec (l' k) bytes id
  unfolding write_payload put_bytes
  put-Holds k bytes l l' hash id full e h =
      let u = update-Updated codec (put_bytes bytes) k l l' (put_bytes-IsTame bytes) e in
      let rest = drop (length bytes) (drop size (l k).bytes) in
      let (after, same) =
        if-pair-ok (leb (length bytes) (length (drop size (l k).bytes))) u.before u.after
          (bytes ++ rest) (drop size (l' k).bytes) account_data_too_small u.changed in
      let before = some-inj u.before h.header (sym u.read ∙ h.read) in
      record {
        header = record u.after { revision = u.before.revision + 1 };
        read = u.written;
        value = ap CellHeader.value (sym after ∙ before) ∙ h.value;
        room =
            subst (λ r. hash_size ≤ length r) same (omega (arith, length-append bytes rest, full));
        chunk =
            subst (λ r. take hash_size r ≡ bytes) same
              (subst (λ n. take n (bytes ++ rest) ≡ bytes) full (take-length-append bytes rest));
      }

-- Whether a key is marked already, or is among those that come.
abbrev pub marked : Bool → List Key → Key → Bool
marked m [] j = m
marked m (k ∷ ks) j = marked (if eqb k j then true else m) ks j

-- What a step on some keys in turn does to one account.
each_key-marked :
    (R : Bool → Account → Type 0) (f : Key → Ledger → Fallible Ledger) (j : Key)
    → ((k : Key) (m : Bool) (l l' : Ledger)
        → f k l ≡ ok l'
        → R m (l j)
        → R (if eqb k j then true else m) (l' j))
    → (ks : List Key) (m : Bool) (l l' : Ledger) → each_key ks f l ≡ ok l'
    → R m (l j)
    → R (marked m ks j) (l' j)
unfolding each_key
each_key-marked R f j one [] m l l' e h = subst (λ n. R m (n j)) (ok-inj l l' e) h
each_key-marked R f j one (k ∷ ks) m l l' e h =
    let (n, first, e₁) = >>=-eq-ok (f k l) _ e in
    each_key-marked R f j one ks (if eqb k j then true else m) n l' e₁ (one k m l n first h)

-- A step on one key that leaves the other accounts.
at_key :
    (R : Bool → Account → Type 0) (k j : Key) (m : Bool) (l l' : Ledger)
    → ((i : Key) → eqb k i ≡ false → l' i ≡ l i)
    → (R m (l k) → R true (l' k))
    → R m (l j)
    → R (if eqb k j then true else m) (l' j)
at_key R k j m l l' frame hit held = elim (Bool-cases (eqb k j)) [
  | inl found ↦
      let same = (eqb_iff k j).0 found in
      rw (found, if◌then◌else◌)
        (subst (λ i. R true (l' i)) same (hit (subst (λ i. R m (l i)) (sym same) held)))
  | inr miss ↦ rw (miss, if◌then◌else◌) (subst (R m) (sym (frame j miss)) held)
]

module _ (codec : Codec) where
  abbrev ValueSet : List ℕ → ℕ → ℕ → Bool → Account → Type 0
  ValueSet hash id v m account = Holds codec account hash (if m then v else id)

  abbrev HashPut : List ℕ → ℕ → List ℕ → Bool → Account → Type 0
  HashPut hash id bytes m account = Holds codec account (if m then bytes else hash) id

  pub set_keys-Holds :
      (ks : List Key) (v : ℕ) (j : Key) (l l' : Ledger) (hash : List ℕ) (id : ℕ)
      → v < u64_mod
      → each_key ks (update codec (set_value v)) l ≡ ok l'
      → Holds codec (l j) hash id
      → Holds codec (l' j) hash (if marked false ks j then v else id)
  set_keys-Holds ks v j l l' hash id small e h =
      each_key-marked (ValueSet hash id v) (update codec (set_value v)) j
        (λ k m n n' done held.
          let u = update-Updated codec (set_value v) k n n' (set_value-IsTame v small) done in
          at_key (ValueSet hash id v) k j m n n' u.frame
            (set-Holds codec k v n n' hash (if m then v else id) small done) held)
        ks false l l' e h

  pub put_keys-Holds :
      (ks : List Key) (bytes : List ℕ) (j : Key) (l l' : Ledger) (hash : List ℕ) (id : ℕ)
      → length bytes ≡ hash_size
      → each_key ks (write_payload codec bytes) l ≡ ok l'
      → Holds codec (l j) hash id
      → Holds codec (l' j) (if marked false ks j then bytes else hash) id
  unfolding write_payload
  put_keys-Holds ks bytes j l l' hash id full e h =
      each_key-marked (HashPut hash id bytes) (write_payload codec bytes) j
        (λ k m n n' done held.
          let u = update-Updated codec (put_bytes bytes) k n n' (put_bytes-IsTame bytes) done in
          at_key (HashPut hash id bytes) k j m n n' u.frame
            (put-Holds codec k bytes n n' (if m then bytes else hash) id full done) held)
        ks false l l' e h
