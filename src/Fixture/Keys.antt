-- ===== src/Fixture/Keys.antt =====
-- programs/fixture/src/build.rs: the keys of the account table of a batch.
use redsuite.Prelude.{
  ℕ, zero, suc, ◌^◌, ◌%◌, ◌≡◌, refl, subst, ◌∙◌, inl, inr, Bool, true, false, List, [], ◌∷◌, ◌++◌,
  Option, none, some, arith, length, ltb, eqb, Bool-cases, Option-cases,
}
use redsuite.Fixture.{Key, CellId}
use redsuite.Fixture.Syntax.{Action, Intent, IndexedMeta}
use redsuite.Fixture.Build.{
  Meta, Batch, Commit, IntentBundle, Sdk, SolanaInstruction, >>=-eq-some, position, raise, account,
  cells, cell_meta, writable_meta, readonly_meta,
}
use redsuite.Fixture.Table.{some-inj}
use redsuite.Fixture.Instructions.{
  indexed_metas, authorities, commits, vault_index, add_invoke, add_intents,
}

-- No key stands in the table twice.
abbrev pub Distinct : List Meta → Type 0
Distinct [] = Unit
Distinct (m ∷ ms) = (position m.pubkey ms ≡ none) × Distinct ms

position-raise :
    (k : Key) (i : ℕ) (meta : Meta) (ms : List Meta) → position k (raise i meta ms) ≡ position k ms
unfolding position raise
position-raise k i meta [] = refl
position-raise k zero meta (m ∷ ms) = refl
position-raise k (suc i) meta (m ∷ ms) = rw (position-raise k i meta ms) refl

raise-Distinct : (i : ℕ) (meta : Meta) (ms : List Meta) → Distinct ms → Distinct (raise i meta ms)
unfolding raise
raise-Distinct i meta [] h = tt
raise-Distinct zero meta (m ∷ ms) h = h
raise-Distinct (suc i) meta (m ∷ ms) h =
    (position-raise m.pubkey i meta ms ∙ h.0, raise-Distinct i meta ms h.1)

position-cons :
    (k : Key) (m : Meta) (ms : List Meta)
    → position k (m ∷ ms) ≡ none
    → (eqb m.pubkey k ≡ false) × (position k ms ≡ none)
unfolding position
position-cons k m ms e = elim (Bool-cases (eqb m.pubkey k)) [
  | inl hit ↦ absurd (cc (rw hit at e))
  | inr miss ↦ elim (Option-cases (position k ms)) [
    | inl nothing ↦ (miss, nothing)
    | inr (i, found) ↦ absurd (cc (rw (miss, found) at e))
  ]
]

position-snoc :
    (k : Key) (ms : List Meta) (meta : Meta)
    → position k ms ≡ none
    → eqb meta.pubkey k ≡ false
    → position k (ms ++ meta ∷ []) ≡ none
unfolding position
position-snoc k [] meta e apart = rw apart refl
position-snoc k (m ∷ ms) meta e apart =
    let (miss, nothing) = position-cons k m ms e in
    rw (miss, position-snoc k ms meta nothing apart) refl

snoc-Distinct :
    (ms : List Meta) (meta : Meta)
    → position meta.pubkey ms ≡ none
    → Distinct ms
    → Distinct (ms ++ meta ∷ [])
snoc-Distinct [] meta e h = (unfold position in refl, tt)
snoc-Distinct (m ∷ ms) meta e h =
    let (miss, nothing) = position-cons meta.pubkey m ms e in
    (position-snoc m.pubkey ms meta h.0 (ground arith), snoc-Distinct ms meta nothing h.1)

account-Distinct :
    (meta : Meta) (ms : List Meta) (r : ℕ × List Meta)
    → account meta ms ≡ some r
    → Distinct ms
    → Distinct r.1
unfolding account
account-Distinct meta ms r e h = elim (Option-cases (position meta.pubkey ms)) [
  | inl nothing ↦ elim (Bool-cases (ltb (length ms) (2 ^ 16))) [
    | inl room ↦
        subst (λ p. Distinct p.1)
          (some-inj (length ms, ms ++ meta ∷ []) r (rw (nothing, room, account) at e))
          (snoc-Distinct ms meta nothing h)
    | inr full ↦ absurd (cc (rw (nothing, full, account) at e))
  ]
  | inr (i, found) ↦
      subst (λ p. Distinct p.1)
        (some-inj (i % 2 ^ 16, raise i meta ms) r (rw (found, account) at e))
        (raise-Distinct i meta ms h)
]

cells-Distinct :
    (w : Bool) (ks : List Key) (ms : List Meta) (r : List ℕ × List Meta)
    → cells w ks ms ≡ some r
    → Distinct ms
    → Distinct r.1
unfolding cells
cells-Distinct w [] ms r e h = subst (λ p. Distinct p.1) (some-inj ([], ms) r e) h
cells-Distinct w (k ∷ ks) ms r e h =
    let ((i, ms₁), first, e₁) = >>=-eq-some (account (cell_meta w k) ms) _ e in
    let ((is, ms₂), rest, e₂) = >>=-eq-some (cells w ks ms₁) _ e₁ in
    subst (λ p. Distinct p.1) (some-inj (i ∷ is, ms₂) r e₂)
      (cells-Distinct w ks ms₁ (is, ms₂) rest
        (account-Distinct (cell_meta w k) ms (i, ms₁) first h))

authorities-Distinct :
    (as' : List Action) (ms ms' : List Meta)
    → authorities as' ms ≡ some ms'
    → Distinct ms
    → Distinct ms'
unfolding authorities
authorities-Distinct [] ms ms' e h = subst Distinct (some-inj ms ms' e) h
authorities-Distinct (a ∷ as') ms ms' e h =
    let ((i, ms₁), first, e₁) = >>=-eq-some (account (readonly_meta a.authority true) ms) _ e in
    authorities-Distinct as' ms₁ ms' e₁
      (account-Distinct (readonly_meta a.authority true) ms (i, ms₁) first h)

commits-Distinct :
    (cs : List Commit) (ms : List Meta) (r : List Intent × List Meta)
    → commits cs ms ≡ some r
    → Distinct ms
    → Distinct r.1
unfolding commits
commits-Distinct [] ms r e h = subst (λ p. Distinct p.1) (some-inj ([], ms) r e) h
commits-Distinct (c ∷ cs) ms r e h =
    let ((is, ms₁), first, e₁) = >>=-eq-some (cells true c.cells ms) _ e in
    let (ms₂, second, e₂) =
      >>=-eq-some (authorities (c.after_commit ++ c.after_undelegate) ms₁) _ e₁ in
    let ((rest, ms₃), third, e₃) = >>=-eq-some (commits cs ms₂) _ e₂ in
    let h₁ = cells-Distinct true c.cells ms (is, ms₁) first h in
    let h₂ = authorities-Distinct (c.after_commit ++ c.after_undelegate) ms₁ ms₂ second h₁ in
    subst (λ p. Distinct p.1) (some-inj _ r e₃) (commits-Distinct cs ms₂ (rest, ms₃) third h₂)

indexed_metas-Distinct :
    (signed : List Key) (asked ms : List Meta) (r : List IndexedMeta × List Meta)
    → indexed_metas signed asked ms ≡ some r
    → Distinct ms
    → Distinct r.1
unfolding indexed_metas
indexed_metas-Distinct signed [] ms r e h = subst (λ p. Distinct p.1) (some-inj ([], ms) r e) h
indexed_metas-Distinct signed (m ∷ asked) ms r e h =
    let ((i, ms₁), first, e₁) = >>=-eq-some (account _ ms) _ e in
    let ((is, ms₂), rest, e₂) = >>=-eq-some (indexed_metas signed asked ms₁) _ e₁ in
    subst (λ p. Distinct p.1) (some-inj _ r e₂)
      (indexed_metas-Distinct signed asked ms₁ (is, ms₂) rest
        (account-Distinct _ ms (i, ms₁) first h))

module _ (sdk : Sdk) where
  vault_index-Distinct :
      (validator : Option Key) (ms : List Meta) (r : Option ℕ × List Meta)
      → vault_index sdk validator ms ≡ some r
      → Distinct ms
      → Distinct r.1
  unfolding vault_index
  vault_index-Distinct none ms r e h = subst (λ p. Distinct p.1) (some-inj (none, ms) r e) h
  vault_index-Distinct (some validator) ms r e h =
      let ((i, ms₁), first, e₁) =
        >>=-eq-some (account (writable_meta (sdk.fee_vault validator) false) ms) _ e in
      subst (λ p. Distinct p.1) (some-inj (some i, ms₁) r e₁)
        (account-Distinct (writable_meta (sdk.fee_vault validator) false) ms (i, ms₁) first h)

  -- A call added to a batch whose table lists no key twice leaves such a table: the accounts of the call
  -- and its program are merged into the entries that are there.
  pub add_invoke-Distinct :
      (b b' : Batch) (call : SolanaInstruction) (signers : List CellId)
      → add_invoke sdk b call signers ≡ some b'
      → Distinct b.accounts
      → Distinct b'.accounts
  unfolding add_invoke
  add_invoke-Distinct b b' call signers e h =
      let ((is, ms₁), first, e₁) = >>=-eq-some (indexed_metas _ call.metas b.accounts) _ e in
      let ((p, ms₂), second, e₂) =
        >>=-eq-some (account (readonly_meta call.program_id false) ms₁) _ e₁ in
      subst (λ c. Distinct c.accounts) (some-inj _ b' e₂)
        (account-Distinct (readonly_meta call.program_id false) ms₁ (p, ms₂) second
          (indexed_metas-Distinct _ call.metas b.accounts (is, ms₁) first h))

  -- A bundle of intents added to a batch whose table lists no key twice leaves such a table, whichever
  -- of its payer, vault, cells and authorities coincide.
  pub add_intents-Distinct :
      (b b' : Batch) (bundle : IntentBundle)
      → add_intents sdk b bundle ≡ some b'
      → Distinct b.accounts
      → Distinct b'.accounts
  unfolding add_intents
  add_intents-Distinct b b' bundle e h =
      let payer = writable_meta bundle.payer true in
      let context = writable_meta sdk.magic_context false in
      let magic = readonly_meta sdk.magic_program false in
      let ((p, ms₁), s₁, e₁) = >>=-eq-some (account payer b.accounts) _ e in
      let ((c, ms₂), s₂, e₂) = >>=-eq-some (account context ms₁) _ e₁ in
      let ((m, ms₃), s₃, e₃) = >>=-eq-some (account magic ms₂) _ e₂ in
      let ((v, ms₄), s₄, e₄) = >>=-eq-some (vault_index sdk bundle.validator ms₃) _ e₃ in
      let ((is, ms₅), s₅, e₅) = >>=-eq-some (commits bundle.commits ms₄) _ e₄ in
      let (ms₆, s₆, e₆) = >>=-eq-some (authorities bundle.actions ms₅) _ e₅ in
      let h₃ =
        account-Distinct magic ms₂ (m, ms₃) s₃
          (account-Distinct context ms₁ (c, ms₂) s₂
            (account-Distinct payer b.accounts (p, ms₁) s₁ h)) in
      let h₅ =
        commits-Distinct bundle.commits ms₄ (is, ms₅) s₅
          (vault_index-Distinct bundle.validator ms₃ (v, ms₄) s₄ h₃) in
      subst (λ d. Distinct d.accounts) (some-inj _ b' e₆)
        (authorities-Distinct bundle.actions ms₅ ms₆ s₆ h₅)
