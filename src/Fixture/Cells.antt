-- ===== src/Fixture/Cells.antt =====
-- programs/fixture/src/execute/mod.rs: what `update` does to the ledger, for each change that the
-- operations make.
use redsuite.Prelude.{
  ℕ, suc, ◌+◌, ◌<◌, ◌≡◌, refl, ap, sym, subst, ◌∙◌, inl, inr, Bool, true, false, List, ◌++◌, Option,
  none, some, arith, length, take, drop, length-append, length-take, length-drop, drop-append, min,
  ℤ, pos, negsuc, Result, ok, err, ok_or, >>=-eq-ok, u64_mod, checked_add, checked_add-some, ltb,
  leb, eqb, leb→le, if◌then◌else◌, Bool-cases, ltb→lt,
}
use redsuite.Fixture.{
  Key, CellId, CellHeader, size, ProgramError, account_data_too_small, invalid_account_data,
  arithmetic_overflow, Fallible, Ledger, Codec, IsHeader, write_account, UndelegationOutcome,
}
use redsuite.Fixture.Cell.{
  payload, write, Change, update_bytes, update, set_value, add_value, fill_words, set_undelegation,
  touch, put_bytes, copy_bytes,
}
use redsuite.Fixture.Fill.{length-fill}

-- A change that succeeds keeps the identity, the revision and the length of a cell, and its value in
-- range.
abbrev pub IsKept : CellHeader → List ℕ → Fallible (CellHeader × List ℕ) → Type 0
IsKept h p (err e) = Unit
IsKept h p (ok (h', p')) =
    (h'.id ≡ h.id) × (h'.revision ≡ h.revision) × (h'.value < u64_mod) × (length p' ≡ length p)

unfoldable pub IsTame : Change → Type 0
IsTame f = (h : CellHeader) (p : List ℕ) → IsHeader h → IsKept h p (f h p)

-- What an update does to the ledger: the cell of the account at `k` goes from `before` to `after`
-- with one revision more, and nothing else changes.
pub record Updated (codec : Codec) (f : Change) (k : Key) (l l' : Ledger) : Type 0 where
  pub before : CellHeader
  pub after : CellHeader
  pub read : codec.decode (l k).bytes ≡ some before
  pub changed : f before (drop size (l k).bytes) ≡ ok (after, drop size (l' k).bytes)
  pub written : codec.decode (l' k).bytes ≡ some (record after { revision = before.revision + 1 })
  pub same_id : after.id ≡ before.id
  pub same_length : length (l' k).bytes ≡ length (l k).bytes
  pub same_owner : (l' k).owner ≡ (l k).owner
  pub same_lamports : (l' k).lamports ≡ (l k).lamports
  pub frame : (j : Key) → eqb k j ≡ false → l' j ≡ l j

leb-ok :
    {A : Type 0} (b : Bool) (a c : A) (e : ProgramError)
    → (if b then ok a else err e) ≡ ok c
    → (b ≡ true) × (a ≡ c)
leb-ok true a c e h = (refl, cc)
leb-ok false a c e h = absurd (cc)

ok-inj : {A : Type 0} (a b : A) → ◌≡◌ {A = Result ProgramError A} (ok a) (ok b) → a ≡ b
ok-inj a b e = cc

ok_or-ok : {A : Type 0} (o : Option A) (a : A) (e : ProgramError) → ok_or o e ≡ ok a → o ≡ some a
ok_or-ok none a e h = absurd (cc)
ok_or-ok (some b) a e h = cc

pub set_value-IsTame : (v : ℕ) → v < u64_mod → IsTame (set_value v)
unfolding IsTame set_value
set_value-IsTame v lt h p r = (refl, refl, lt, refl)

pub add_value-IsTame : (c : ℤ) → IsTame (add_value c)
unfolding IsTame add_value
add_value-IsTame (pos n) h p r = elim (Bool-cases (ltb (h.value + n) u64_mod)) [
  | inl fits ↦ rw fits (refl, refl, ltb→lt (h.value + n) u64_mod fits, refl)
  | inr over ↦ rw over tt
]
add_value-IsTame (negsuc n) h p r = elim (Bool-cases (leb (suc n) h.value)) [
  | inl fits ↦ let lt = r.value in rw fits (refl, refl, omega arith, refl)
  | inr over ↦ rw over tt
]

pub fill_words-IsTame : (seed step : ℕ) → IsTame (fill_words seed step)
unfolding IsTame fill_words
fill_words-IsTame seed step h p r = (refl, refl, r.value, length-fill p seed step)

pub set_undelegation-IsTame : (o : UndelegationOutcome) → IsTame (set_undelegation o)
unfolding IsTame set_undelegation
set_undelegation-IsTame o h p r = (refl, refl, r.value, refl)

pub touch-IsTame : IsTame touch
unfolding IsTame touch
touch-IsTame h p r = (refl, refl, r.value, refl)

pub put_bytes-IsTame : (bytes : List ℕ) → IsTame (put_bytes bytes)
unfolding IsTame put_bytes
put_bytes-IsTame bytes h p r = elim (Bool-cases (leb (length bytes) (length p))) [
  | inl fits ↦
      let le = leb→le (length bytes) (length p) fits in
      rw fits (
        refl,
        refl,
        r.value,
        omega (arith, length-append bytes (drop (length bytes) p), length-drop (length bytes) p),
      )
  | inr over ↦ rw over tt
]

pub copy_bytes-IsTame : (source : List ℕ) → IsTame (copy_bytes source)
unfolding IsTame copy_bytes
copy_bytes-IsTame source h p r =
    let n = min (length source) (length p) in
    (
      refl,
      refl,
      r.value,
      omega
          (arith, length-append (take n source) (drop n p), length-take n source, length-drop n p),
    )

drop-at : (n : ℕ) (xs ys : List ℕ) → length xs ≡ n → drop n (xs ++ ys) ≡ ys
drop-at n xs ys e = ap (λ m. drop m (xs ++ ys)) (sym e) ∙ drop-append xs ys

-- The steps of `update_bytes` that succeeds.
record Steps (codec : Codec) (f : Change) (d d' : List ℕ) : Type 0 where
  before : CellHeader
  after : CellHeader
  rest : List ℕ
  rest' : List ℕ
  revision : ℕ
  read : codec.decode d ≡ some before
  room : payload d ≡ ok rest
  change : f before rest ≡ ok (after, rest')
  counted : checked_add after.revision 1 ≡ some revision
  stored : write codec (record after { revision = revision }) (take size d ++ rest') ≡ ok d'

eqb_refl : (k : ℕ) → eqb k k ≡ true
eqb_refl k = ground arith

module _ (codec : Codec) where
  steps : (f : Change) (d d' : List ℕ) → update_bytes codec f d ≡ ok d' → Steps codec f d d'
  unfolding update_bytes
  steps f d d' e =
      let (before, read, e₁) = >>=-eq-ok (ok_or (codec.decode d) invalid_account_data) _ e in
      let (rest, room, e₂) = >>=-eq-ok (payload d) _ e₁ in
      let ((after, rest'), change, e₃) = >>=-eq-ok (f before rest) _ e₂ in
      let (revision, counted, stored) =
        >>=-eq-ok (ok_or (checked_add after.revision 1) arithmetic_overflow) _ e₃ in
      record {
        before = before;
        after = after;
        rest = rest;
        rest' = rest';
        revision = revision;
        read = ok_or-ok (codec.decode d) before invalid_account_data read;
        room = room;
        change = change;
        counted = ok_or-ok (checked_add after.revision 1) revision arithmetic_overflow counted;
        stored = stored;
      }

  room-drop : (d rest : List ℕ) → payload d ≡ ok rest → rest ≡ drop size d
  unfolding payload
  room-drop d rest e =
      sym (leb-ok (leb size (length d)) (drop size d) rest account_data_too_small e).1

  -- The data that a successful update leaves.
  Left : (h : CellHeader) (d d' rest' : List ℕ) → Type 0
  Left h d d' rest' = (codec.decode d' ≡ some h) × (drop size d' ≡ rest') × (length d' ≡ length d)

  left :
      (h : CellHeader) (d d' rest rest' : List ℕ)
      → IsHeader h
      → payload d ≡ ok rest
      → length rest' ≡ length rest
      → write codec h (take size d ++ rest') ≡ ok d'
      → Left h d d' rest'
  unfolding Left payload write
  left h d d' rest rest' r room same stored =
      let (fits, dropped) =
        leb-ok (leb size (length d)) (drop size d) rest account_data_too_small room in
      let le = leb→le size (length d) fits in
      let all = take size d ++ rest' in
      let head = length-take size d in
      let tail = length-drop size d in
      let joined = length-append (take size d) rest' in
      let total : length all ≡ length d = omega (arith, ap length dropped) in
      let (_, made) =
        leb-ok (leb size (length all)) (codec.encode h ++ drop size all) d' account_data_too_small
          stored in
      let enc = codec.length_encode h in
      let encoded = length-append (codec.encode h) rest' in
      let cut : drop size all ≡ rest' = drop-at size (take size d) rest' (omega arith) in
      let data' : codec.encode h ++ rest' ≡ d' = rw (sym cut) made in
      let back = codec.decode_encode h rest' r in
      rw (sym data')
        (back, drop-at size (codec.encode h) rest' enc, omega (arith, ap length dropped))

  -- The new header is in range.
  in_range :
      (before after : CellHeader) (revision : ℕ)
      → IsHeader before
      → after.id ≡ before.id
      → after.value < u64_mod
      → checked_add after.revision 1 ≡ some revision
      → IsHeader (record after { revision = revision }) × (revision ≡ after.revision + 1)
  in_range before after revision r id value counted =
      let e = ap CellId.authority id in
      let e' = ap CellId.index id in
      let ra = r.authority in
      let ri = r.index in
      let (fits, next) = checked_add-some after.revision 1 revision counted in
      (
        record { authority = rw e ra; index = rw e' ri; value = value; revision = rw next fits },
        next,
      )

  updated :
      (f : Change) (k : Key) (l : Ledger) (d' : List ℕ)
      → IsTame f
      → Steps codec f (l k).bytes d'
      → Updated codec f k l (write_account k (record (l k) { bytes = d' }) l)
  unfolding IsTame Left
  updated f k l d' tame s =
      let range = codec.decode_range (l k).bytes s.before s.read in
      let kept = subst (IsKept s.before s.rest) s.change (tame s.before s.rest range) in
      let (good, next) = in_range s.before s.after s.revision range kept.0 kept.2 s.counted in
      let done =
        left (record s.after { revision = s.revision }) (l k).bytes d' s.rest s.rest' good s.room
          kept.3 s.stored in
      let same = eqb_refl k in
      let rest : s.rest ≡ drop size (l k).bytes = room-drop (l k).bytes s.rest s.room in
      let change : f s.before (drop size (l k).bytes) ≡ ok (s.after, s.rest') =
        subst (λ p. f s.before p ≡ ok (s.after, s.rest')) rest s.change in
      record {
        before = s.before;
        after = s.after;
        read = s.read;
        changed = rw (same, done.1) change;
        written = rw (same, done.0, sym kept.1, sym next) refl;
        same_id = kept.0;
        same_length = rw same done.2;
        same_owner = rw same refl;
        same_lamports = rw same refl;
        frame = λ j e. rw e refl;
      }

  -- An update by a tame change that succeeds replaces the cell of its account by the changed one, with one
  -- revision more and the payload changed in place, and leaves every other account and the account's
  -- owner, lamports and size as they were.
  pub update-Updated :
      (f : Change) (k : Key) (l l' : Ledger)
      → IsTame f
      → update codec f k l ≡ ok l'
      → Updated codec f k l l'
  unfolding update
  update-Updated f k l l' tame e =
      let (bytes, made, stored) = >>=-eq-ok (update_bytes codec f (l k).bytes) _ e in
      subst (Updated codec f k l) (ok-inj _ _ stored)
        (updated f k l bytes tame (steps f (l k).bytes bytes made))
