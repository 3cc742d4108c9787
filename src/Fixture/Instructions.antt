-- ===== src/Fixture/Instructions.antt =====
-- programs/fixture/src/build.rs: the methods of the builder that need the SDK, and those of `Program`.
use redsuite.Prelude.{
  ℕ, ◌+◌, ◌-◌, ◌*◌, ◌%◌, true, false, not, ◌&&◌, List, [], ◌∷◌, ◌++◌, Option, none, some, map,
  length, contains, nat_eq, u64_mod, get_elem?,
}
use redsuite.Fixture.{Key, CellId}
use redsuite.Fixture.Syntax.{
  IndexedMeta, invoke, settle, transfer_from_escrow, log, Intent, SettlementMode, Action,
  Instruction, create, delegate, resize, execute, action,
}
use redsuite.Fixture.Build.{
  ◌>>=◌, Meta, writable_meta, readonly_meta, SolanaInstruction, Batch, Commit, IntentBundle, Sdk,
  account, cells, push, add_set, add_write, add_hash, add_fold_hashes, add_copy, add_sum_sizes,
  add_observations, add_plain,
}

-- The accounts of a nested call. A signer that the program signs for is no signer of the outer call.
unfoldable pub indexed_metas :
    List Key → List Meta → List Meta → Option (List IndexedMeta × List Meta)
unfolding account
indexed_metas signed [] ms = some ([], ms)
indexed_metas signed (m ∷ rest) ms = do
  (i, ms₁) ← account (record m { is_signer = m.is_signer && not (contains signed m.pubkey) }) ms
  (is, ms₂) ← indexed_metas signed rest ms₁
  some (record { index = i; signer = m.is_signer; writable = m.is_writable } ∷ is, ms₂)

-- The authorities of the actions, as readonly signers.
unfoldable pub authorities : List Action → List Meta → Option (List Meta)
unfolding account
authorities [] ms = some ms
authorities (a ∷ as') ms = do
  (i, ms₁) ← account (readonly_meta a.authority true) ms
  authorities as' ms₁

unfoldable pub commits : List Commit → List Meta → Option (List Intent × List Meta)
unfolding cells authorities
commits [] ms = some ([], ms)
commits (c ∷ cs) ms = do
  (is, ms₁) ← cells true c.cells ms
  ms₂ ← authorities (c.after_commit ++ c.after_undelegate) ms₁
  (rest, ms₃) ← commits cs ms₂
  some (
    record {
      mode = c.mode;
      cells = is;
      after_commit = c.after_commit;
      after_undelegate = c.after_undelegate;
    }
        ∷ rest,
    ms₃,
  )

-- `Commit::new` and `IntentBundle::new`
unfoldable pub new_commit : SettlementMode → List Key → Commit
new_commit mode keys = record {
  mode = mode;
  cells = keys;
  after_commit = [];
  after_undelegate = [];
}

unfoldable pub new_bundle : Key → IntentBundle
new_bundle payer = record { payer = payer; validator = none; commits = []; actions = [] }

-- `Program::batch`
unfoldable pub batch : Key → Batch
batch program = record { program = program; accounts = []; operations = []; nonce = 0 }

module _ (sdk : Sdk) where
  -- `invoke_signed`
  unfoldable pub add_invoke : Batch → SolanaInstruction → List CellId → Option Batch
  unfolding indexed_metas account
  add_invoke b call signers = do
    let signed = map (λ id. sdk.pda id b.program) signers
    (is, ms₁) ← indexed_metas signed call.metas b.accounts
    (p, ms₂) ← account (readonly_meta call.program_id false) ms₁
    some (push b ms₂ (invoke p is call.bytes signers))

  unfoldable pub add_transfer_from_escrow : Batch → Key → ℕ → Option Batch
  unfolding account
  add_transfer_from_escrow b destination amount = do
    (d, ms₁) ← account (writable_meta destination false) b.accounts
    (s, ms₂) ← account (readonly_meta sdk.system_program false) ms₁
    some (push b ms₂ (transfer_from_escrow d s amount))

  unfoldable pub vault_index : Option Key → List Meta → Option (Option ℕ × List Meta)
  unfolding account
  vault_index none ms = some (none, ms)
  vault_index (some validator) ms = do
    (i, ms₁) ← account (writable_meta (sdk.fee_vault validator) false) ms
    some (some i, ms₁)

  -- `intents`
  unfoldable pub add_intents : Batch → IntentBundle → Option Batch
  unfolding account vault_index commits authorities
  add_intents b bundle = do
    (payer, ms₁) ← account (writable_meta bundle.payer true) b.accounts
    (context, ms₂) ← account (writable_meta sdk.magic_context false) ms₁
    (magic, ms₃) ← account (readonly_meta sdk.magic_program false) ms₂
    (vault, ms₄) ← vault_index bundle.validator ms₃
    (intents, ms₅) ← commits bundle.commits ms₄
    ms₆ ← authorities bundle.actions ms₅
    some (
        push b ms₆ (
          settle (record {
            payer = payer;
            context = context;
            magic = magic;
            vault = vault;
            intents = intents;
            actions = bundle.actions;
          })))

  unfoldable pub add_settle : Batch → Key → List Key → SettlementMode → Option Batch
  unfolding add_intents new_bundle new_commit
  add_settle b payer keys mode =
      add_intents b (record (new_bundle payer) { commits = new_commit mode keys ∷ [] })

  -- `Program::encode`
  unfoldable pub encode : Key → Instruction → List Meta → SolanaInstruction
  encode program instruction metas = record {
    program_id = program;
    metas = metas;
    bytes = sdk.into_data instruction;
  }

  unfoldable pub build : Batch → SolanaInstruction
  unfolding encode
  build b = encode b.program (execute b.nonce b.operations) b.accounts

  -- `Batch::action`
  unfoldable pub build_action : Batch → Key → Key → Option SolanaInstruction
  unfolding encode account
  build_action b cell owner = do
    (i, ms) ← account (readonly_meta cell false) b.accounts
    some (encode b.program (action b.nonce (record { cell = cell; owner = owner }) b.operations) ms)

  -- `Program::create`
  unfoldable pub program_create : Key → Key → CellId → ℕ → SolanaInstruction × Key
  unfolding encode
  program_create program payer id space =
      let pda = sdk.pda id program in
      (
        encode program (create id space) (
            writable_meta payer true
            ∷ readonly_meta id.authority true
            ∷ writable_meta pda false
            ∷ readonly_meta sdk.system_program false
            ∷ []),
        pda,
      )

  unfoldable pub program_delegate : Key → Key → CellId → Option Key → ℕ → SolanaInstruction
  unfolding encode
  program_delegate program payer id validator frequency =
      encode program (delegate id validator frequency) (
        writable_meta payer true
        ∷ (sdk.delegate_metas (sdk.pda id program) program ++ readonly_meta id.authority true ∷ []))

  unfoldable pub program_resize : Key → Key → Key → ℕ → SolanaInstruction
  unfolding encode
  program_resize program payer cell space = encode program (resize space) (
      writable_meta payer true
      ∷ writable_meta cell false
      ∷ readonly_meta sdk.system_program false
      ∷ [])

  abbrev pub built : Option Batch → Option SolanaInstruction
  built o = o >>= λ b. some (build b)

  unfoldable pub program_request_undelegation : Key → Key → CellId → Option SolanaInstruction
  unfolding add_invoke build batch
  program_request_undelegation program payer id = built (
      add_invoke (batch program) (sdk.request_undelegation payer (sdk.pda id program) program)
        (id ∷ []))

  unfoldable pub program_write : Key → ℕ → List Key → Option SolanaInstruction
  unfolding add_write build batch
  program_write program value keys = built (add_write (batch program) keys value)

  unfoldable pub program_hash : Key → ℕ → List ℕ → ℕ → List Key → Option SolanaInstruction
  unfolding add_set add_hash build batch
  program_hash program value initial rounds keys =
      built (add_set (batch program) keys value >>= λ b. add_hash b keys initial rounds)

  unfoldable pub program_fold_hashes : Key → ℕ → ℕ → List Key → Option SolanaInstruction
  unfolding add_set add_fold_hashes build batch
  program_fold_hashes program value rounds keys =
      built (add_set (batch program) keys value >>= λ b. add_fold_hashes b keys value rounds)

  unfoldable pub program_copy : Key → ℕ → List Key → List Key → Option SolanaInstruction
  unfolding add_set add_copy build batch
  program_copy program value sources destinations =
      built (add_set (batch program) destinations value >>= λ b. add_copy b sources destinations)

  -- `none` is also the panic of the remainder by the length of an empty pool.
  unfoldable pub program_copy_three : Key → List Key → ℕ → Option (SolanaInstruction × Key × Key)
  unfolding program_copy
  program_copy_three program pool value = do
    let len = length pool
    let first = (value + (u64_mod - 1)) % u64_mod * 3 % u64_mod % len
    source ← get_elem? pool first
    one ← get_elem? pool ((first + 1) % len)
    two ← get_elem? pool ((first + 2) % len)
    instruction ← program_copy program value (source ∷ []) (one ∷ two ∷ [])
    some (instruction, one, two)

  unfoldable pub program_sum_sizes : Key → ℕ → Key → List Key → Option SolanaInstruction
  unfolding add_set add_sum_sizes build batch
  program_sum_sizes program value output inputs =
      built (add_set (batch program) (output ∷ []) value >>= λ b. add_sum_sizes b output inputs)

  unfoldable pub program_inspect : Key → List Key → Option SolanaInstruction
  unfolding add_observations build batch
  program_inspect program keys = built (add_observations (batch program) keys false)

  unfoldable pub program_log : Key → SolanaInstruction
  unfolding add_plain build batch
  program_log program = build (add_plain (batch program) log)

  unfoldable pub program_settle : Key → Key → List Key → SettlementMode → Option SolanaInstruction
  unfolding add_settle build batch
  program_settle program payer keys mode = built (add_settle (batch program) payer keys mode)
