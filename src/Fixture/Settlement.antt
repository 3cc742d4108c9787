-- ===== src/Fixture/Settlement.antt =====
-- programs/fixture/src/execute/settlement.rs: the intents of a settlement as calls of the SDK's
-- builder.
use redsuite.Prelude.{
  ℕ, List, [], ◌∷◌, ◌++◌, Option, none, some, ok, ◌>>=◌, ok_or, find, eqb, get_elem?,
}
use redsuite.Fixture.{Key, not_enough_account_keys, Fallible, Ledger, Info}
use redsuite.Fixture.Syntax.{
  Action, SettlementMode, commit, undelegate, Intent, Settlement, BuilderCall, new_bundle,
  fee_vault, begin_commit, begin_commit_and_undelegate, post_commit, post_undelegate, standalone,
  then_callback, fold_intent, Runtime,
}

-- The key of the account at an index.
unfoldable pub key_at : List Info → ℕ → Fallible Key
key_at accounts index = do
  account ← ok_or (get_elem? accounts index) not_enough_account_keys
  ok account.key

unfoldable pub keys_at : List Info → List ℕ → Fallible (List Key)
unfolding key_at
keys_at accounts [] = ok []
keys_at accounts (i ∷ is) = do k ← key_at accounts i; ks ← keys_at accounts is; ok (k ∷ ks)

-- `handler` finds the action's authority among the accounts, and `callback` follows if there is one.
unfoldable pub add_handler :
    Key → List Info → (Action → BuilderCall) → Action → Fallible (List BuilderCall)
add_handler program accounts call a = do
  _ ← ok_or (find (λ i. eqb i.key a.authority) accounts) not_enough_account_keys
  ok (call a ∷ elim a.callback [ none ↦ [] | some effect ↦ then_callback program effect ∷ [] ])

unfoldable pub add_handlers :
    Key → List Info → (Action → BuilderCall) → List Action → Fallible (List BuilderCall)
unfolding add_handler
add_handlers program accounts call [] = ok []
add_handlers program accounts call (a ∷ as') = do
  first ← add_handler program accounts call a
  rest ← add_handlers program accounts call as'
  ok (first ++ rest)

-- `add_commit`, and `add_undelegation` with `after_undelegation`
unfoldable pub add_intent : Key → List Info → Intent → SettlementMode → Fallible (List BuilderCall)
unfolding keys_at add_handlers
add_intent program accounts intent commit = do
  cells ← keys_at accounts intent.cells
  after ← add_handlers program accounts post_commit intent.after_commit
  ok (begin_commit cells ∷ (after ++ fold_intent ∷ []))
add_intent program accounts intent undelegate = do
  cells ← keys_at accounts intent.cells
  after ← add_handlers program accounts post_commit intent.after_commit
  last ← add_handlers program accounts post_undelegate intent.after_undelegate
  ok (begin_commit_and_undelegate cells ∷ (after ++ (last ++ fold_intent ∷ [])))

unfoldable pub add_intents : Key → List Info → List Intent → Fallible (List BuilderCall)
unfolding add_intent
add_intents program accounts [] = ok []
add_intents program accounts (i ∷ is) = do
  first ← add_intent program accounts i i.mode
  rest ← add_intents program accounts is
  ok (first ++ rest)

unfoldable pub vault_call : List Info → Option ℕ → Fallible (List BuilderCall)
unfolding key_at
vault_call accounts none = ok []
vault_call accounts (some index) = do k ← key_at accounts index; ok (fee_vault k ∷ [])

-- The calls that `invoke` makes, in order.
unfoldable pub bundle : Key → List Info → Settlement → Fallible (List BuilderCall)
unfolding key_at vault_call add_intents add_handlers
bundle program accounts s = do
  payer ← key_at accounts s.payer
  context ← key_at accounts s.context
  magic ← key_at accounts s.magic
  vault ← vault_call accounts s.vault
  intents ← add_intents program accounts s.intents
  actions ← add_handlers program accounts standalone s.actions
  ok (new_bundle payer context magic ∷ (vault ++ (intents ++ actions)))

-- `invoke`
unfoldable pub invoke : Runtime → Key → List Info → Settlement → Ledger → Fallible Ledger
unfolding bundle
invoke rt program accounts s l = do calls ← bundle program accounts s; rt.send_bundle calls l
