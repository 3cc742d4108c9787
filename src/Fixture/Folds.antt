-- ===== src/Fixture/Folds.antt =====
-- programs/fixture/src/build.rs against programs/fixture/src/execute/mod.rs: a batch that folds the hashes
-- of some cells.
use redsuite.Prelude.{
  ℕ, ◌≡◌, refl, ap, ◌∙◌, true, List, [], ◌∷◌, some, length, leb, ok, ensure, ◌>>=◌, ◌>>◌, >>=-ap,
  take,
}
use redsuite.Fixture.{Key, account_data_too_small, Fallible, Ledger, Codec}
use redsuite.Fixture.Cell.{payload, fold, update, set_value}
use redsuite.Fixture.Syntax.{set, fold_hashes, Runtime}
use redsuite.Fixture.Build.{Meta, Batch, add_set, add_fold_hashes}
use redsuite.Fixture.Table.{Extends, Extends-trans, Addressable}
use redsuite.Fixture.Execute.{each, collect, first_hash, write_payload, apply, run}
use redsuite.Fixture.Batches.{
  AllGranted, infos, info-infos, each_key, each-AllGranted, run-on_cells_any, run-on_cells,
  on_cells-table,
}

-- The first hash of the payload of the account at a key.
unfoldable pub hash_at : Ledger → Key → Fallible (List ℕ)
hash_at l k = do
  rest ← payload (l k).bytes
  ensure (leb 32 (length rest)) account_data_too_small
  ok (take 32 rest)

collect-AllGranted :
    (ms : List Meta) (ks : List Key) (is : List ℕ) (l : Ledger)
    → AllGranted true ms ks is
    → collect (first_hash (infos ms) l) is ≡ collect (hash_at l) ks
unfolding collect first_hash hash_at
collect-AllGranted ms [] [] l h = refl
collect-AllGranted ms [] (i ∷ is) l h = absurd h
collect-AllGranted ms (k ∷ ks) [] l h = absurd h
collect-AllGranted ms (k ∷ ks) (i ∷ is) l ((m, at, r), rest) =
    rw (info-infos ms i m at, r.key, collect-AllGranted ms ks is l rest) refl

-- What a batch of a fold does to the ledger, by keys.
unfoldable pub fold_keys : Codec → ℕ → ℕ → List Key → Ledger → Fallible Ledger
fold_keys codec salt rounds ks m = do
  hashes ← collect (hash_at m) ks
  each_key ks (write_payload codec (fold codec salt hashes rounds)) m

module _ (codec : Codec) (rt : Runtime) (program : Key) where
  pub run-add_fold_hashes :
      (b c b' : Batch) (ks : List Key) (value rounds : ℕ) (table : List Meta) (l : Ledger)
      → add_set b ks value ≡ some c
      → add_fold_hashes c ks value rounds ≡ some b'
      → Addressable b.accounts
      → Extends b'.accounts table
      → run codec rt program (infos table) b'.operations l ≡ (
          run codec rt program (infos table) b.operations l
          >>= each_key ks (update codec (set_value value))
          >>= fold_keys codec value rounds ks)
  unfolding add_set add_fold_hashes apply fold_keys
  run-add_fold_hashes b c b' ks value rounds table l first second fits ext =
      let (fits₁, _) = on_cells-table codec rt program b c ks (λ is. set is value) first fits in
      let (_, ext₂) =
        on_cells-table codec rt program c b' ks (λ is. fold_hashes is value rounds) second fits₁ in
      run-on_cells_any codec rt program c b' ks (λ is. fold_hashes is value rounds)
        (fold_keys codec value rounds ks) table l
        (λ is m granted.
          ap
            (λ r. r >>= λ hashes.
              each (infos table) is (write_payload codec (fold codec value hashes rounds)) m)
            (collect-AllGranted table ks is m granted)
          ∙ >>=-ap (collect (hash_at m) ks) _ _ (λ hashes.
            each-AllGranted true table ks is (write_payload codec (fold codec value hashes rounds))
              m granted))
        second fits₁ ext
      ∙ ap (λ r. r >>= fold_keys codec value rounds ks)
          (run-on_cells codec rt program b c ks (λ is. set is value)
            (update codec (set_value value)) table l (λ accounts is m. refl) first fits
            (Extends-trans c.accounts b'.accounts table ext₂ ext))
