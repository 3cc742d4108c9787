-- ===== src/Fixture/Callback.antt =====
-- programs/fixture/src/execute/settlement.rs: the callback with a failed action's result.
use redsuite.Prelude.{
  ℕ, ◌+◌, ◌-◌, ◌≤◌, ◌≡◌, refl, ap, sym, subst, ◌∙◌, inl, inr, Bool, true, false, ◌&&◌, List, [],
  ◌∷◌, Option, none, some, arith, ok, err, ok_or, ensure, >>=-eq-ok, eqb, eqb_iff, Bool-cases,
  checked_sub, checked_add, checked_sub-some, checked_add-some, pos,
}
use redsuite.Fixture.{
  Key, CellHeader, ProgramError, Fallible, Account, Ledger, Info, Codec, write_account,
  insufficient_funds, arithmetic_overflow, invalid_argument, missing_required_signature,
}
use redsuite.Fixture.Cell.{adjust, add_value}
use redsuite.Fixture.Cells.{Updated, update-Updated, add_value-IsTame}
use redsuite.Fixture.Syntax.{Refund, Runtime, MagicResponse, ResultCallback}
use redsuite.Fixture.Process.{refund_to, settle_refund, run_handle_result}

-- The lamports of the refund go from the cell to the recipient, and nothing else changes.
pub record Refunded (cell recipient : Key) (amount : ℕ) (l l' : Ledger) : Type 0 where
  pub enough : amount ≤ (l cell).lamports
  pub debit : (l' cell).lamports ≡ (l cell).lamports - amount
  pub credit : (l' recipient).lamports ≡ (l recipient).lamports + amount
  pub frame :
      (j : Key) → eqb cell j ≡ false → eqb recipient j ≡ false → (l' j).lamports ≡ (l j).lamports

ensure-ok : (b : Bool) (e : ProgramError) (u : Unit {0}) → ensure b e ≡ ok u → b ≡ true
ensure-ok true e u h = refl
ensure-ok false e u h = absurd (cc)

ok-inj : (l l' : Ledger) → ◌≡◌ {A = Fallible Ledger} (ok l) (ok l') → l ≡ l'
ok-inj l l' e = cc

ok_or-ok : {A : Type 0} (o : Option A) (a : A) (e : ProgramError) → ok_or o e ≡ ok a → o ≡ some a
ok_or-ok none a e h = absurd (cc)
ok_or-ok (some b) a e h = cc

set_lamports : Key → ℕ → Ledger → Ledger
set_lamports k n l = write_account k (record (l k) { lamports = n }) l

set_lamports-bytes :
    (k : Key) (n : ℕ) (l : Ledger) (j : Key) → (set_lamports k n l j).bytes ≡ (l j).bytes
unfolding set_lamports
set_lamports-bytes k n l j = elim (Bool-cases (eqb k j)) [
  | inl hit ↦ rw hit (ap (λ i. (l i).bytes) ((eqb_iff k j).0 hit))
  | inr miss ↦ rw miss refl
]

paid :
    (cell recipient : Key) (amount debit credit : ℕ) (l : Ledger)
    → eqb cell recipient ≡ false
    → checked_sub (l cell).lamports amount ≡ some debit
    → checked_add (l recipient).lamports amount ≡ some credit
    → Refunded cell recipient amount l (set_lamports recipient credit (set_lamports cell debit l))
unfolding set_lamports
paid cell recipient amount debit credit l apart d c =
    let (enough, lower) = checked_sub-some (l cell).lamports amount debit d in
    let (_, higher) = checked_add-some (l recipient).lamports amount credit c in
    let other : eqb recipient cell ≡ false = ground arith in
    let self : eqb cell cell ≡ true = ground arith in
    let self' : eqb recipient recipient ≡ true = ground arith in
    let m = set_lamports cell debit l in
    record {
      enough = enough;
      debit = rw (other, self) lower;
      credit = rw self' higher;
      frame = λ j a b. rw (b, a) refl;
    }

-- A refund that succeeds goes to the recipient it names.
refund_to-Refunded :
    (cell : Key) (recipient : Info) (refund : Refund) (l l' : Ledger)
    → eqb cell recipient.key ≡ false
    → refund_to cell (recipient ∷ []) refund l ≡ ok l'
    → (recipient.key ≡ refund.recipient)
      × Refunded cell recipient.key refund.amount l l'
      × ((j : Key) → (l' j).bytes ≡ (l j).bytes)
unfolding refund_to set_lamports
refund_to-Refunded cell recipient refund l l' apart e =
    let (u, named, e₁) =
      >>=-eq-ok (ensure (eqb recipient.key refund.recipient) invalid_argument) _ e in
    let (debit, d, e₂) =
      >>=-eq-ok (ok_or (checked_sub (l cell).lamports refund.amount) insufficient_funds) _ e₁ in
    let (credit, c, stored) =
      >>=-eq-ok (ok_or (checked_add (l recipient.key).lamports refund.amount) arithmetic_overflow) _
        e₂ in
    let m = set_lamports cell debit l in
    let final = ok-inj (set_lamports recipient.key credit m) l' stored in
    (
      (eqb_iff recipient.key refund.recipient).0
          (ensure-ok (eqb recipient.key refund.recipient) invalid_argument u named),
      subst (Refunded cell recipient.key refund.amount l) final (
          paid cell recipient.key refund.amount debit credit l apart
            (ok_or-ok (checked_sub (l cell).lamports refund.amount) debit insufficient_funds d)
            (ok_or-ok (checked_add (l recipient.key).lamports refund.amount) credit
              arithmetic_overflow c)),
      λ j.
          subst (λ n. (n j).bytes ≡ (l j).bytes) final
            (set_lamports-bytes recipient.key credit m j ∙ set_lamports-bytes cell debit l j),
    )

-- The callback of a failed action: it is signed by the runtime's key, the deposit goes from the cell
-- to the recipient that the refund names, and the cell's value goes up by one.
pub record Failed (codec : Codec) (rt : Runtime) (signer cell recipient : Info)
    (effect : ResultCallback) (refund : Refund) (l l' : Ledger) : Type 0 where
  pub authentic : signer.key ≡ rt.callback_signer
  pub signed : signer.is_signer ≡ true
  pub target : cell.key ≡ effect.cell
  pub named : recipient.key ≡ refund.recipient
  pub refunded : Refunded cell.key recipient.key refund.amount l l'
  pub before : CellHeader
  pub after : CellHeader
  pub read : codec.decode (l cell.key).bytes ≡ some before
  pub written : codec.decode (l' cell.key).bytes ≡ some after
  pub counted : after.value ≡ before.value + 1
  pub bytes : (j : Key) → eqb cell.key j ≡ false → (l' j).bytes ≡ (l j).bytes

adjust-lamports :
    (codec : Codec) (k : Key) (l l' : Ledger)
    → Updated codec (add_value (pos 1)) k l l'
    → (j : Key) → (l' j).lamports ≡ (l j).lamports
adjust-lamports codec k l l' u j = elim (Bool-cases (eqb k j)) [
  | inl hit ↦ subst (λ i. (l' i).lamports ≡ (l i).lamports) ((eqb_iff k j).0 hit) u.same_lamports
  | inr miss ↦ ap Account.lamports (u.frame j miss)
]

value_of : Fallible (CellHeader × List ℕ) → ℕ
value_of (ok (h, p)) = h.value
value_of (err e) = 0

&&-true : (a b : Bool) → (a && b) ≡ true → (a ≡ true) × (b ≡ true)
&&-true true true h = (refl, refl)
&&-true true false h = absurd (cc)
&&-true false b h = absurd (cc)

add_value-one :
    (before after : CellHeader) (p p' : List ℕ)
    → add_value (pos 1) before p ≡ ok (after, p')
    → after.value ≡ before.value + 1
unfolding add_value value_of
add_value-one before after p p' e =
    let (v, fits, stored) =
      >>=-eq-ok (ok_or (checked_add before.value 1) arithmetic_overflow) _ e in
    let (_, next) =
      checked_add-some before.value 1 v
        (ok_or-ok (checked_add before.value 1) v arithmetic_overflow fits) in
    sym (ap value_of stored) ∙ next

module _ (codec : Codec) (rt : Runtime) where
  failed :
      (signer cell recipient : Info) (effect : ResultCallback) (refund : Refund) (l m l' : Ledger)
      → (eqb signer.key rt.callback_signer && signer.is_signer) ≡ true
      → eqb cell.key effect.cell ≡ true
      → eqb cell.key recipient.key ≡ false
      → refund_to cell.key (recipient ∷ []) refund l ≡ ok m
      → adjust codec (pos 1) cell.key m ≡ ok l'
      → Failed codec rt signer cell recipient effect refund l l'
  unfolding adjust
  failed signer cell recipient effect refund l m l' auth target apart pay count =
      let (named, moved, bytes) = refund_to-Refunded cell.key recipient refund l m apart pay in
      let u =
        update-Updated codec (add_value (pos 1)) cell.key m l' (add_value-IsTame (pos 1)) count in
      let same = adjust-lamports codec cell.key m l' u in
      let (key, signed) = &&-true (eqb signer.key rt.callback_signer) signer.is_signer auth in
      record {
        authentic = (eqb_iff signer.key rt.callback_signer).0 key;
        signed = signed;
        target = (eqb_iff cell.key effect.cell).0 target;
        named = named;
        refunded = record {
          enough = moved.enough;
          debit = same cell.key ∙ moved.debit;
          credit = same recipient.key ∙ moved.credit;
          frame = λ j a b. same j ∙ moved.frame j a b;
        };
        before = u.before;
        after = record u.after { revision = u.before.revision + 1 };
        read = ap codec.decode (sym (bytes cell.key)) ∙ u.read;
        written = u.written;
        counted = add_value-one u.before u.after _ _ u.changed;
        bytes = λ j away. ap Account.bytes (u.frame j away) ∙ bytes j;
      }

  -- The result of a failed action that carries a refund, delivered to the cell and a recipient that
  -- is another account: when the callback succeeds, `Failed` says what it did.
  pub run_handle_result-Failed :
      (signer cell recipient : Info) (bytes : List ℕ) (response : MagicResponse)
      (effect : ResultCallback) (refund : Refund) (l l' : Ledger)
      → rt.parse_response bytes ≡ some response
      → response.ok_flag ≡ false
      → response.effect ≡ some effect
      → effect.refund ≡ some refund
      → eqb cell.key recipient.key ≡ false
      → run_handle_result codec rt (signer ∷ cell ∷ recipient ∷ []) bytes l ≡ ok l'
      → Failed codec rt signer cell recipient effect refund l l'
  unfolding run_handle_result settle_refund
  run_handle_result-Failed signer cell recipient bytes response effect refund l l' parsed bad given
        due apart e =
      let (u, auth, e₁) =
        >>=-eq-ok
          (ensure (eqb signer.key rt.callback_signer && signer.is_signer)
            missing_required_signature)
          _ (rw (parsed, bad, given, due) at e) in
      let (v, target, e₂) = >>=-eq-ok (ensure (eqb cell.key effect.cell) invalid_argument) _ e₁ in
      let (m, pay, count) = >>=-eq-ok (refund_to cell.key (recipient ∷ []) refund l) _ e₂ in
      failed signer cell recipient effect refund l m l'
        (ensure-ok (eqb signer.key rt.callback_signer && signer.is_signer)
          missing_required_signature u auth)
        (ensure-ok (eqb cell.key effect.cell) invalid_argument v target) apart pay count
