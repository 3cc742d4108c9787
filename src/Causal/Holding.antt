-- ===== src/Causal/Holding.antt =====
-- core/src/redline/causal.rs: what a comparison with an account comes to, and what the operations of the
-- fixture do to it.
use redsuite.Prelude.{
  ℕ, ◌≤◌, ◌≡◌, refl, sym, ap, subst, ◌∙◌, Bool, true, false, ◌&&◌, List, [], ◌∷◌, some, none,
  Option, ok, err, Result, >>=-eq-ok, ensure, ok_or, length, length-take, length-drop, take, drop,
  arith, leb, leb→le, le→leb, eqb, eqb_iff, if◌then◌else◌,
}
use redsuite.Fixture.{
  Key, ProgramError, account_data_too_small, CellHeader, size, Account, Ledger, Codec,
}
use redsuite.Fixture.Cell.{payload}
use redsuite.Fixture.Folds.{hash_at}
use redsuite.Causal.{
  hash_size, Mismatch, unreadable, short, differs, bytes_beq, first_chunk, unreadable_error,
  read_payload, compare_account,
}

bytes_beq_refl : (us : List ℕ) → bytes_beq us us ≡ true
bytes_beq_refl [] = refl
bytes_beq_refl (u ∷ us) = rw ((eqb_iff u u).1 refl, ◌&&◌) (bytes_beq_refl us)

bytes_beq-eq : (us vs : List ℕ) → bytes_beq us vs ≡ true → us ≡ vs
bytes_beq-eq [] [] h = refl
bytes_beq-eq [] (v ∷ vs) h = absurd (cc)
bytes_beq-eq (u ∷ us) [] h = absurd (cc)
bytes_beq-eq (u ∷ us) (v ∷ vs) h = ground (arith, eqb_iff u v, bytes_beq-eq us vs)

ok_or-ok : {A : Type 0} (o : Option A) (a : A) → ok_or o unreadable ≡ ok a → o ≡ some a
ok_or-ok none a h = absurd (cc)
ok_or-ok (some b) a h = cc

if-ok :
    (b : Bool) (us vs : List ℕ)
    → ◌≡◌ {A = Result Mismatch (List ℕ)} (if b then ok us else err short) (ok vs)
    → (b ≡ true) × (us ≡ vs)
if-ok true us vs h = (refl, cc)
if-ok false us vs h = absurd (cc)

payload_of :
    (b : Bool) (us vs : List ℕ) (e : ProgramError)
    → unreadable_error (if b then ok us else err e) ≡ ok vs
    → vs ≡ us
payload_of true us vs e h = cc
payload_of false us vs e h = absurd (cc)

ensure-both : (p q : Bool) → ensure (p && q) differs ≡ ok tt → (p ≡ true) × (q ≡ true)
ensure-both true true h = (refl, refl)
ensure-both true false h = absurd (cc)
ensure-both false q h = absurd (cc)

read_payload-ok : (bytes rest : List ℕ) → read_payload bytes ≡ ok rest → rest ≡ drop size bytes
unfolding read_payload
read_payload-ok bytes rest h =
    payload_of (leb size (length bytes)) (drop size bytes) rest account_data_too_small h

first_chunk-ok :
    (rest found : List ℕ)
    → first_chunk rest ≡ ok found
    → (hash_size ≤ length rest) × (take hash_size rest ≡ found)
unfolding first_chunk
first_chunk-ok rest found h =
    let (fits, same) = if-ok (leb hash_size (length rest)) (take hash_size rest) found h in
    (leb→le hash_size (length rest) fits, same)

-- An account with a cell of a value, whose payload starts with a hash.
pub record Holds (codec : Codec) (account : Account) (hash : List ℕ) (id : ℕ) : Type 0 where
  pub header : CellHeader
  pub read : codec.decode account.bytes ≡ some header
  pub value : header.value ≡ id
  pub room : hash_size ≤ length (drop size account.bytes)
  pub chunk : take hash_size (drop size account.bytes) ≡ hash

module _ (codec : Codec) where
  pub length-Holds :
      (account : Account) (hash : List ℕ) (id : ℕ)
      → Holds codec account hash id
      → length hash ≡ hash_size
  length-Holds account hash id h =
      omega (arith, ap length h.chunk, length-take hash_size (drop size account.bytes), h.room)

  payload-Holds :
      (account : Account) (hash : List ℕ) (id : ℕ)
      → Holds codec account hash id
      → payload account.bytes ≡ ok (drop size account.bytes)
  unfolding payload
  payload-Holds account hash id h =
      let room = h.room in
      let fits : size ≤ length account.bytes = omega (arith, length-drop size account.bytes) in
      rw (le→leb size (length account.bytes) fits) refl

  -- The hash that a fold reads.
  pub hash_at-Holds :
      (l : Ledger) (k : Key) (hash : List ℕ) (id : ℕ)
      → Holds codec (l k) hash id
      → hash_at l k ≡ ok hash
  unfolding hash_at
  hash_at-Holds l k hash id h =
      rw (payload-Holds (l k) hash id h, le→leb hash_size (length (drop size (l k).bytes)) h.room)
        (ap ok h.chunk)

  first_chunk-Holds :
      (account : Account) (hash : List ℕ) (id : ℕ)
      → Holds codec account hash id
      → first_chunk (drop size account.bytes) ≡ ok hash
  unfolding first_chunk
  first_chunk-Holds account hash id h =
      rw (le→leb hash_size (length (drop size account.bytes)) h.room) (ap ok h.chunk)

  pub compare-Holds :
      (account : Account) (hash : List ℕ) (id : ℕ)
      → Holds codec account hash id
      → compare_account codec (some account) hash id ≡ ok tt
  unfolding compare_account read_payload
  compare-Holds account hash id h =
      rw
        (
          h.read,
          payload-Holds account hash id h,
          first_chunk-Holds account hash id h,
          bytes_beq_refl hash,
          (eqb_iff h.header.value id).1 h.value,
        )
        refl

  pub Holds-compare :
      (account : Account) (hash : List ℕ) (id : ℕ)
      → compare_account codec (some account) hash id ≡ ok tt
      → Holds codec account hash id
  unfolding compare_account
  Holds-compare account hash id e =
      let (header, read, e₁) = >>=-eq-ok (ok_or (codec.decode account.bytes) unreadable) _ e in
      let (rest, all, e₂) = >>=-eq-ok (read_payload account.bytes) _ e₁ in
      let (found, first, e₃) = >>=-eq-ok (first_chunk rest) _ e₂ in
      let cut = read_payload-ok account.bytes rest all in
      let (room, chunk) = first_chunk-ok rest found first in
      let (same, value) = ensure-both (bytes_beq found hash) (eqb header.value id) e₃ in
      record {
        header = header;
        read = ok_or-ok (codec.decode account.bytes) header read;
        value = (eqb_iff header.value id).0 value;
        room = subst (λ r. hash_size ≤ length r) cut room;
        chunk = ap (take hash_size) (sym cut) ∙ chunk ∙ bytes_beq-eq found hash same;
      }
