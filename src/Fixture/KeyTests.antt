-- ===== src/Fixture/KeyTests.antt =====
-- A settlement of programs/fixture/src/build.rs whose payer is the authority of its action as well.
use redsuite.Prelude.{◌+◌, ◌≡◌, refl, true, false, [], ◌∷◌, none, some}
use redsuite.Fixture.Syntax.{Action, commit, settle, invoke}
use redsuite.Fixture.Build.{
  Batch, IntentBundle, Sdk, SolanaInstruction, position, raise, account, cells, writable_meta,
  readonly_meta,
}
use redsuite.Fixture.Instructions.{
  batch, indexed_metas, authorities, commits, vault_index, add_invoke, add_intents,
}
use redsuite.Fixture.Keys.{Distinct, add_intents-Distinct}

abbrev call : SolanaInstruction
call = record {
  program_id = 30;
  metas = writable_meta 9 true ∷ readonly_meta 30 false ∷ [];
  bytes = [];
}

abbrev sdk : Sdk
sdk = record {
  magic_context = 20;
  magic_program = 21;
  system_program = 0;
  fee_vault = λ v. v + 100;
  pda = λ id program. 1;
  delegate_metas = λ c p. [];
  request_undelegation = λ a c p. call;
  into_data = λ i. [];
}

abbrev notify : Action
notify = record {
  authority = 9;
  program_id = 30;
  metas = [];
  bytes = [];
  compute_units = 5;
  escrow_index = 1;
  callback = none;
}

abbrev bundle : IntentBundle
bundle = record {
  payer = 9;
  validator = some 4;
  commits =
      record {
        mode = commit;
        cells = 1 ∷ 2 ∷ [];
        after_commit = notify ∷ [];
        after_undelegate = [];
      }
      ∷ [];
  actions = [];
}

abbrev settled : Batch
settled = record {
  program = 5;
  accounts =
      writable_meta 9 true
      ∷ writable_meta 20 false
      ∷ readonly_meta 21 false
      ∷ writable_meta 104 false
      ∷ writable_meta 1 false
      ∷ writable_meta 2 false
      ∷ [];
  operations =
      settle (record {
        payer = 0;
        context = 1;
        magic = 2;
        vault = some 3;
        intents =
            record {
              mode = commit;
              cells = 4 ∷ 5 ∷ [];
              after_commit = notify ∷ [];
              after_undelegate = [];
            }
            ∷ [];
        actions = [];
      })
      ∷ [];
  nonce = 0;
}

settled_ok : add_intents sdk (batch 5) bundle ≡ some settled
unfolding add_intents batch account position raise cells vault_index commits authorities
settled_ok = refl

empty-Distinct : Distinct (batch 5).accounts
unfolding batch
empty-Distinct = tt

add_intents-Distinct_example : Distinct settled.accounts
add_intents-Distinct_example =
    add_intents-Distinct sdk (batch 5) settled bundle settled_ok empty-Distinct

abbrev called : Batch
called = record {
  program = 5;
  accounts = writable_meta 9 true ∷ readonly_meta 30 false ∷ [];
  operations =
      invoke 1
        (record { index = 0; signer = true; writable = true }
          ∷ record { index = 1; signer = false; writable = false }
          ∷ [])
        [] []
      ∷ [];
  nonce = 0;
}

called_ok : add_invoke sdk (batch 5) call [] ≡ some called
unfolding add_invoke batch account position raise indexed_metas
called_ok = refl
