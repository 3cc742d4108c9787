-- ===== src/Fixture/Tests.antt =====
-- A cell of programs/fixture written, run through batches, and called back; a batch built and run.
use redsuite.Prelude.{
  ℕ, ◌+◌, ◌*◌, ◌/◌, ◌%◌, ◌≡◌, refl, true, false, List, [], ◌∷◌, some, arith, ok, ◌>>=◌, u64_mod,
  All, get_elem?, le_bytes, pos,
}
use redsuite.Fixture.{Key, new_header, Ledger, Info, write_account}
use redsuite.Fixture.Cell.{fill, payload, write, set_value, add_value, update, update_bytes, adjust}
use redsuite.Fixture.Fill.{get_elem?-fill}
use redsuite.Fixture.Cells.{Updated, update-Updated, set_value-IsTame}
use redsuite.Fixture.Syntax.{Operation, set, add}
use redsuite.Fixture.Execute.{info, each, apply, run}
use redsuite.Fixture.Effects.{IsCellWrite, Kept, run-Kept}
use redsuite.Fixture.Process.{refund_to, settle_refund, run_handle_result}
use redsuite.Fixture.Callback.{Failed, run_handle_result-Failed}
use redsuite.Fixture.Samples.{plain, idle, ledger, cell_with, wallet, effect, failed_response}
use redsuite.Fixture.Build.{
  Meta, Batch, account, position, raise, cells, on_cells, add_set, add_fill, add_write,
}
use redsuite.Fixture.Instructions.{batch as empty_batch}
use redsuite.Fixture.Cell.{fill_words}
use redsuite.Fixture.Table.{Extends-refl, Addressable}
use redsuite.Fixture.Batches.{CellsNamed, cells-CellsNamed, infos, each_key, run-add_write}

update-Updated_example :
    Updated plain (set_value 5) 1 ledger (write_account 1 (cell_with 50 5 1) ledger)
unfolding update update_bytes payload write set_value new_header
update-Updated_example =
    update-Updated plain (set_value 5) 1 ledger (write_account 1 (cell_with 50 5 1) ledger)
      (set_value-IsTame 5 (omega arith)) refl

abbrev payload_bytes : List ℕ
payload_bytes = 0 ∷ 0 ∷ 0 ∷ 0 ∷ 0 ∷ 0 ∷ 0 ∷ 0 ∷ 0 ∷ 0 ∷ []

get_elem?-fill_example :
    get_elem? (fill payload_bytes 258 1_000) 9
    ≡ get_elem? (le_bytes 8 ((258 + 9 / 8 * 1_000 % u64_mod) % u64_mod)) (9 % 8)
get_elem?-fill_example = get_elem?-fill payload_bytes 258 1_000 9 (omega arith)

abbrev accounts : List Info
accounts = record { key = 1; is_signer = false } ∷ []

abbrev batch : List Operation
batch = set (0 ∷ []) 5 ∷ add (0 ∷ 0 ∷ []) (pos 3) ∷ []

abbrev batch_end : Ledger
batch_end =
    write_account 1 (cell_with 50 11 3)
      (write_account 1 (cell_with 50 8 2) (write_account 1 (cell_with 50 5 1) ledger))

batch_ok : run plain idle 5 accounts batch ledger ≡ ok batch_end
unfolding run apply each info update update_bytes payload write set_value adjust add_value
    new_header
batch_ok = refl

batch-IsCellWrite : All IsCellWrite batch
unfolding IsCellWrite
batch-IsCellWrite = (omega arith, (tt, tt))

run-Kept_example : Kept plain ledger batch_end
run-Kept_example = run-Kept plain idle 5 accounts batch ledger batch_end batch-IsCellWrite batch_ok

abbrev signer : Info
signer = record { key = 9; is_signer = true }

abbrev cell : Info
cell = record { key = 1; is_signer = false }

abbrev recipient : Info
recipient = record { key = 2; is_signer = false }

abbrev refunded_ledger : Ledger
refunded_ledger =
    write_account 1 (cell_with 40 1 1) (
      write_account 2 (record wallet { lamports = 13 }) (write_account 1 (cell_with 40 0 0) ledger))

run_handle_result-Failed_example :
    Failed plain idle signer cell recipient effect
      (record { recipient = 2; amount = 10 })
      ledger
      refunded_ledger
unfolding run_handle_result settle_refund refund_to adjust add_value update update_bytes payload
    write new_header
run_handle_result-Failed_example =
    run_handle_result-Failed plain idle signer cell recipient [] failed_response effect
      (record { recipient = 2; amount = 10 }) ledger refunded_ledger refl refl refl refl refl refl

abbrev entry : Key → Meta
entry k = record { pubkey = k; is_signer = false; is_writable = true }

abbrev three_places : List ℕ × List Meta
three_places = (0 ∷ 1 ∷ 0 ∷ [], entry 1 ∷ entry 2 ∷ [])

cells-CellsNamed_example : CellsNamed true [] (1 ∷ 2 ∷ 1 ∷ []) three_places
unfolding cells account position raise
cells-CellsNamed_example = cells-CellsNamed true (1 ∷ 2 ∷ 1 ∷ []) [] three_places refl (omega arith)

abbrev written : Batch
written = record {
  program = 5;
  accounts = entry 1 ∷ [];
  operations = set (0 ∷ []) 5 ∷ Operation.fill (0 ∷ []) 5 0 ∷ [];
  nonce = 0;
}

written_ok : add_write (empty_batch 5) (1 ∷ []) 5 ≡ some written
unfolding add_write add_set add_fill on_cells cells account position raise empty_batch
written_ok = refl

nothing_named : Addressable (empty_batch 5).accounts
unfolding empty_batch
nothing_named = omega arith

run-add_write_example : run plain idle 5 (infos written.accounts) written.operations ledger ≡ (
    run plain idle 5 (infos written.accounts) (empty_batch 5).operations ledger
    >>= each_key (1 ∷ []) (update plain (set_value 5))
    >>= each_key (1 ∷ []) (update plain (fill_words 5 0)))
run-add_write_example =
    run-add_write plain idle 5 (empty_batch 5) written (1 ∷ []) 5 written.accounts ledger written_ok
      nothing_named (Extends-refl written.accounts)
