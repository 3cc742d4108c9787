-- ===== src/Causal/Tests.antt =====
-- core/src/redline/causal.rs: a step on two new cells, with the accounts of the fixture's samples.
use redsuite.Prelude.{◌≡◌, refl, arith, false, true, List, [], ◌∷◌, ◌++◌, some, ok, err, replicate}
use redsuite.Fixture.{Key, accept, Fallible, Account, Ledger}
use redsuite.Fixture.Cell.{update, set_value, put_bytes, fold}
use redsuite.Fixture.Syntax.{set, fold_hashes}
use redsuite.Fixture.Build.{Meta, Batch, add_set, add_fold_hashes}
use redsuite.Fixture.Instructions.{batch}
use redsuite.Fixture.Execute.{run, apply, collect}
use redsuite.Fixture.Batches.{infos}
use redsuite.Fixture.Samples.{plain, idle, encode_header, id}
use redsuite.Causal.{y, accounts, Mismatch, compare, read_payload, first_chunk, new_pair, send}
use redsuite.Causal.Agreement.{send-Agrees}

abbrev new_cell : Account
new_cell = record {
  owner = 5;
  lamports = 50;
  bytes =
      encode_header (record { id = id; value = 0; revision = 0; undelegation = accept })
      ++ replicate 32 0;
}

abbrev two_cells : Ledger
two_cells k = new_cell

abbrev entry : Key → Meta
entry k = record { pubkey = k; is_signer = false; is_writable = true }

abbrev table : List Meta
table = entry 1 ∷ entry 2 ∷ []

abbrev set_batch : Batch
set_batch = record {
  program = 5;
  accounts = table;
  operations = set (0 ∷ 1 ∷ []) 7 ∷ [];
  nonce = 0;
}

abbrev fold_batch : Batch
fold_batch = record {
  program = 5;
  accounts = table;
  operations = set (0 ∷ 1 ∷ []) 7 ∷ fold_hashes (0 ∷ 1 ∷ []) 7 1 ∷ [];
  nonce = 0;
}

abbrev or_ledger : Fallible Ledger → Ledger
or_ledger (ok l) = l
or_ledger (err e) = two_cells

folded : Ledger
unfolding run update
folded = or_ledger (run plain idle 5 (infos table) fold_batch.operations two_cells)

send-Agrees_example :
    compare plain
      (send plain {E = Mismatch} y 7 1 (ok 3) (new_pair 1 2)).1.model
      (some (folded 1))
      (some (folded 2))
    ≡ ok tt
unfolding folded batch add_set add_fold_hashes run apply collect fold compare read_payload
    first_chunk send new_pair accounts set_value put_bytes
send-Agrees_example =
    send-Agrees plain idle 5 (λ bytes. refl) (new_pair 1 2) y 7 1 3 set_batch fold_batch two_cells
      folded (omega arith) refl refl refl refl refl
