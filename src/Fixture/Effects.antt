-- ===== src/Fixture/Effects.antt =====
-- programs/fixture/src/execute/mod.rs: the effects of a batch on the ledger.
use redsuite.Prelude.{
  ℕ, ◌+◌, ◌%◌, ◌≤◌, ◌<◌, ◌≡◌, refl, ap, sym, subst, ◌∙◌, inl, inr, Bool, true, false, List, [], ◌∷◌,
  ◌++◌, some, arith, length, ℤ, le_bytes, ok, ok_or, get_elem?, ◌>>=◌, >>=-eq-ok, >>=-ap, >>=-assoc,
  u64_mod, eqb, eqb_iff, if◌then◌else◌, Bool-cases, All,
}
use redsuite.Fixture.{
  Key, CellHeader, not_enough_account_keys, Fallible, Account, Ledger, Info, Codec,
}
use redsuite.Fixture.Cell.{
  put_bytes, add_value, fill_words, set_undelegation, chain, fold, Change, payload, update, touch,
  copy_bytes, set_value, adjust,
}
use redsuite.Fixture.Cells.{
  IsTame, Updated, update-Updated, set_value-IsTame, add_value-IsTame, fill_words-IsTame,
  set_undelegation-IsTame, touch-IsTame, put_bytes-IsTame, copy_bytes-IsTame,
}
use redsuite.Fixture.Syntax.{
  Operation, set, add, fill, hash, fold_hashes, copy, sum_sizes, inspect, fill_bytes, undelegation,
  invoke, settle, transfer_from_escrow, log, fail, resize_bytes, Runtime,
}
use redsuite.Fixture.Execute.{
  info, each, collect, first_hash, sum_lengths, copy_from, write_payload, apply, run,
}

-- An account keeps its owner, its lamports and its size, and a cell its identity, with a revision
-- that does not go down.
pub record KeptAccount (codec : Codec) (a b : Account) : Type 0 where
  pub owner : b.owner ≡ a.owner
  pub lamports : b.lamports ≡ a.lamports
  pub space : length b.bytes ≡ length a.bytes
  pub cell :
      (h : CellHeader)
      → codec.decode a.bytes ≡ some h
      → (h' : CellHeader) × (codec.decode b.bytes ≡ some h')
        × (h'.id ≡ h.id)
        × (h.revision ≤ h'.revision)

unfoldable pub Kept : Codec → Ledger → Ledger → Type 0
Kept codec l l' = (j : Key) → KeptAccount codec (l j) (l' j)

-- The operations that write cells only, with a value that is a `u64`.
unfoldable pub IsCellWrite : Operation → Type 0
IsCellWrite (set cells value) = value < u64_mod
IsCellWrite (fill_bytes account byte) = ⊥
IsCellWrite (invoke program accounts bytes signers) = ⊥
IsCellWrite (settle s) = ⊥
IsCellWrite (transfer_from_escrow destination system amount) = ⊥
IsCellWrite (resize_bytes account len byte) = ⊥
IsCellWrite _ = Unit

module _ (codec : Codec) where
  KeptAccount-refl : (a : Account) → KeptAccount codec a a
  KeptAccount-refl a = record {
    owner = refl;
    lamports = refl;
    space = refl;
    cell = λ h e. (h, e, refl, omega arith);
  }

  Kept-refl : (l : Ledger) → Kept codec l l
  unfolding Kept
  Kept-refl l j = KeptAccount-refl (l j)

  Kept-trans : (l m n : Ledger) → Kept codec l m → Kept codec m n → Kept codec l n
  unfolding Kept
  Kept-trans l m n p q j =
      let a = p j in
      let b = q j in
      record {
        owner = b.owner ∙ a.owner;
        lamports = b.lamports ∙ a.lamports;
        space = b.space ∙ a.space;
        cell = λ h e.
            let (h₁, e₁, i₁, r₁) = a.cell h e in
            let (h₂, e₂, i₂, r₂) = b.cell h₁ e₁ in (h₂, e₂, i₂ ∙ i₁, omega arith);
      }

  some-inj : {A : Type 0} (a b : A) → some a ≡ some b → a ≡ b
  some-inj a b e = cc

  Updated-Kept : (f : Change) (k : Key) (l l' : Ledger) → Updated codec f k l l' → Kept codec l l'
  unfolding Kept
  Updated-Kept f k l l' u j = elim (Bool-cases (eqb k j)) [
    | inl hit ↦
        subst (λ i. KeptAccount codec (l i) (l' i)) ((eqb_iff k j).0 hit)
          (record {
            owner = u.same_owner;
            lamports = u.same_lamports;
            space = u.same_length;
            cell = λ h e.
                let same = some-inj u.before h (sym u.read ∙ e) in
                let rev = ap CellHeader.revision same in
                (
                  record u.after { revision = u.before.revision + 1 },
                  u.written,
                  u.same_id ∙ ap CellHeader.id same,
                  omega arith,
                );
          })
    | inr miss ↦ subst (KeptAccount codec (l j)) (sym (u.frame j miss)) (KeptAccount-refl (l j))
  ]

  -- A step that keeps the ledger when it succeeds.
  abbrev Keeps : (Ledger → Fallible Ledger) → Type 0
  Keeps step = (l l' : Ledger) → step l ≡ ok l' → Kept codec l l'

  update-Keeps : (f : Change) (k : Key) → IsTame f → Keeps (update codec f k)
  update-Keeps f k tame l l' e = Updated-Kept f k l l' (update-Updated codec f k l l' tame e)

  ok-inj : (l l' : Ledger) → ◌≡◌ {A = Fallible Ledger} (ok l) (ok l') → l ≡ l'
  ok-inj l l' e = cc

  Kept-ok : (l l' : Ledger) → ◌≡◌ {A = Fallible Ledger} (ok l) (ok l') → Kept codec l l'
  Kept-ok l l' e = subst (Kept codec l) (ok-inj l l' e) (Kept-refl l)

  each-Keeps :
      (accounts : List Info) (cells : List ℕ) (f : Key → Ledger → Fallible Ledger)
      → ((k : Key) → Keeps (f k))
      → Keeps (each accounts cells f)
  unfolding each
  each-Keeps accounts [] f keeps l l' e = Kept-ok l l' e
  each-Keeps accounts (i ∷ is) f keeps l l' e =
      let (account, _, e₁) = >>=-eq-ok (info accounts i) _ e in
      let (m, first, e₂) = >>=-eq-ok (f account.key l) _ e₁ in
      Kept-trans l m l' (keeps account.key l m first) (each-Keeps accounts is f keeps m l' e₂)

  put-Keeps : (bytes : List ℕ) (k : Key) → Keeps (write_payload codec bytes k)
  unfolding write_payload
  put-Keeps bytes k = update-Keeps (put_bytes bytes) k (put_bytes-IsTame bytes)

  adjust-Keeps : (c : ℤ) (k : Key) → Keeps (adjust codec c k)
  unfolding adjust
  adjust-Keeps c k = update-Keeps (add_value c) k (add_value-IsTame c)

  -- One destination of a copy.
  copy-Keeps :
      (same : Bool) (source target : Key) (l l' : Ledger)
      → (if same
          then update codec touch target l
          else do bytes ← payload (l source).bytes; update codec (copy_bytes bytes) target l)
        ≡ ok l'
      → Kept codec l l'
  copy-Keeps true source target l l' e = update-Keeps touch target touch-IsTame l l' e
  copy-Keeps false source target l l' e =
      let (bytes, _, e₁) = >>=-eq-ok (payload (l source).bytes) _ e in
      update-Keeps (copy_bytes bytes) target (copy_bytes-IsTame bytes) l l' e₁

module _ (codec : Codec) (rt : Runtime) where
  copy_from-Keeps :
      (accounts : List Info) (sources : List ℕ) (position : ℕ) (destinations : List ℕ)
      → Keeps codec (copy_from codec accounts sources position destinations)
  unfolding copy_from
  copy_from-Keeps accounts sources position [] l l' e = Kept-ok codec l l' e
  copy_from-Keeps accounts sources position (d ∷ ds) l l' e =
      let (at, _, e₁) =
        >>=-eq-ok (ok_or (get_elem? sources (position % length sources)) not_enough_account_keys) _
          e in
      let (source, _, e₂) = >>=-eq-ok (info accounts at) _ e₁ in
      let (target, _, e₃) = >>=-eq-ok (info accounts d) _ e₂ in
      let (m, first, e₄) =
        >>=-eq-ok (if eqb source.key target.key then update codec touch target.key l else _) _ e₃ in
      Kept-trans codec l m l'
        (copy-Keeps codec (eqb source.key target.key) source.key target.key l m first)
        (copy_from-Keeps accounts sources (position + 1) ds m l' e₄)

  apply-Keeps :
      (program : Key) (accounts : List Info) (o : Operation)
      → IsCellWrite o
      → Keeps codec (apply codec rt program accounts o)
  unfolding apply IsCellWrite
  apply-Keeps program accounts (set cells v) w l l' e =
      each-Keeps codec accounts cells (update codec (set_value v))
        (λ k. update-Keeps codec (set_value v) k (set_value-IsTame v w)) l l' e
  apply-Keeps program accounts (add cells c) w l l' e =
      each-Keeps codec accounts cells (adjust codec c) (adjust-Keeps codec c) l l' e
  apply-Keeps program accounts (fill cells seed step) w l l' e =
      each-Keeps codec accounts cells (update codec (fill_words seed step))
        (λ k. update-Keeps codec (fill_words seed step) k (fill_words-IsTame seed step)) l l' e
  apply-Keeps program accounts (hash cells initial rounds) w l l' e =
      each-Keeps codec accounts cells _ (put-Keeps codec (chain codec initial rounds)) l l' e
  apply-Keeps program accounts (fold_hashes cells salt rounds) w l l' e =
      let (hashes, _, e₁) = >>=-eq-ok (collect (first_hash accounts l) cells) _ e in
      each-Keeps codec accounts cells _ (put-Keeps codec (fold codec salt hashes rounds)) l l' e₁
  apply-Keeps program accounts (copy [] ds) w l l' e = absurd (cc)
  apply-Keeps program accounts (copy (s ∷ ss) ds) w l l' e =
      copy_from-Keeps accounts (s ∷ ss) 0 ds l l' e
  apply-Keeps program accounts (sum_sizes output inputs) w l l' e =
      let (total, _, e₁) = >>=-eq-ok (sum_lengths accounts inputs l) _ e in
      let (target, _, e₂) = >>=-eq-ok (info accounts output) _ e₁ in
      put-Keeps codec (le_bytes 8 total) target.key l l' e₂
  apply-Keeps program accounts (inspect is hashed) w l l' e =
      each-Keeps codec accounts is _ (λ k l l' e. Kept-ok codec l l' e) l l' e
  apply-Keeps program accounts (undelegation cells outcome) w l l' e =
      each-Keeps codec accounts cells (update codec (set_undelegation outcome))
        (λ k. update-Keeps codec (set_undelegation outcome) k (set_undelegation-IsTame outcome)) l
        l' e
  apply-Keeps program accounts log w l l' e = Kept-ok codec l l' e
  apply-Keeps program accounts (fail code) w l l' e = absurd (cc)
  apply-Keeps program accounts (fill_bytes _ _) w l l' e = elim w [ ]
  apply-Keeps program accounts (invoke _ _ _ _) w l l' e = elim w [ ]
  apply-Keeps program accounts (settle _) w l l' e = elim w [ ]
  apply-Keeps program accounts (transfer_from_escrow _ _ _) w l l' e = elim w [ ]
  apply-Keeps program accounts (resize_bytes _ _ _) w l l' e = elim w [ ]

  -- A batch of operations that are all cell writes, when it succeeds, keeps every account's owner, lamports and size and every
  -- cell's identity, and no revision goes down.
  pub run-Kept :
      (program : Key) (accounts : List Info) (os : List Operation) (l l' : Ledger)
      → All IsCellWrite os
      → run codec rt program accounts os l ≡ ok l'
      → Kept codec l l'
  unfolding run
  run-Kept program accounts [] l l' w e = Kept-ok codec l l' e
  run-Kept program accounts (o ∷ os) l l' w e =
      let (m, first, e₁) = >>=-eq-ok (apply codec rt program accounts o l) _ e in
      Kept-trans codec l m l' (apply-Keeps program accounts o w.0 l m first)
        (run-Kept program accounts os m l' w.1 e₁)

  -- A batch is its parts run one after the other: the first failure of either is the batch's.
  pub run-append :
      (program : Key) (accounts : List Info) (os ps : List Operation) (l : Ledger)
      → run codec rt program accounts (os ++ ps) l
        ≡ (run codec rt program accounts os l >>= run codec rt program accounts ps)
  unfolding run
  run-append program accounts [] ps l = refl
  run-append program accounts (o ∷ os) ps l =
      let first = apply codec rt program accounts o l in
      let second = run codec rt program accounts ps in
      >>=-ap first _ _ (run-append program accounts os ps)
      ∙ sym (>>=-assoc first (run codec rt program accounts os) second)
