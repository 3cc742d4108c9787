-- ===== src/Fixture/Cell.antt =====
-- programs/fixture/src/state.rs and the cell updates of programs/fixture/src/execute/mod.rs.
use redsuite.Prelude.{
  ℕ, zero, suc, ◌+◌, ◌*◌, ◌%◌, List, [], ◌∷◌, ◌++◌, Option, none, some, length, leb, min, ℤ,
  if◌then◌else◌, ok, err, ok_or, ◌>>=◌, drop, take, le_bytes, u64_mod, checked_add,
  checked_add_signed,
}
use redsuite.Fixture.{
  Key, UndelegationOutcome, CellHeader, size, account_data_too_small, invalid_account_data,
  arithmetic_overflow, Fallible, Ledger, Codec, write_account,
}

-- The bytes of the word number `index`.
unfoldable pub fill_word : ℕ → ℕ → ℕ → List ℕ
fill_word seed step index = le_bytes 8 ((seed + index * step % u64_mod) % u64_mod)

-- `CellHeader::fill`, a chunk of eight bytes at a time from the chunk `index` on. Each chunk takes at
-- least one byte, so the length of the payload is enough fuel.
unfoldable pub fill_from : ℕ → ℕ → ℕ → ℕ → List ℕ → List ℕ
fill_from zero seed step index payload = payload
fill_from (suc fuel) seed step index [] = []
fill_from (suc fuel) seed step index (b ∷ bs) =
    let chunk = take 8 (b ∷ bs) in
    take (length chunk) (fill_word seed step index)
    ++ fill_from fuel seed step (index + 1) (drop 8 (b ∷ bs))

unfoldable pub fill : List ℕ → ℕ → ℕ → List ℕ
unfolding fill_from
fill payload seed step = fill_from (length payload) seed step 0 payload

-- `CellHeader::payload` and `payload_mut`
unfoldable pub payload : List ℕ → Fallible (List ℕ)
payload data' = if leb size (length data') then ok (drop size data') else err account_data_too_small

-- `CellHeader::fill_payload`
unfoldable pub fill_payload : List ℕ → ℕ → Fallible (List ℕ)
unfolding payload
fill_payload data' seed = do rest ← payload data'; ok (take size data' ++ fill rest seed 1)

abbrev pub Change : Type 0
Change = CellHeader → List ℕ → Fallible (CellHeader × List ℕ)

-- The changes that the operations make.
unfoldable pub set_value : ℕ → Change
set_value value cell rest = ok (record cell { value = value }, rest)

unfoldable pub add_value : ℤ → Change
add_value change cell rest = do
  value ← ok_or (checked_add_signed cell.value change) arithmetic_overflow
  ok (record cell { value = value }, rest)

unfoldable pub fill_words : ℕ → ℕ → Change
fill_words seed step cell rest = ok (cell, fill rest seed step)

unfoldable pub set_undelegation : UndelegationOutcome → Change
set_undelegation outcome cell rest = ok (record cell { undelegation = outcome }, rest)

unfoldable pub touch : Change
touch cell rest = ok (cell, rest)

-- The change of `write_payload`
unfoldable pub put_bytes : List ℕ → Change
put_bytes bytes cell rest =
    if leb (length bytes) (length rest)
    then ok (cell, bytes ++ drop (length bytes) rest)
    else err account_data_too_small

-- The change of `Copy`
unfoldable pub copy_bytes : List ℕ → Change
copy_bytes source cell rest =
    let len = min (length source) (length rest) in ok (cell, take len source ++ drop len rest)

abbrev pub concat : List (List ℕ) → List ℕ
concat [] = []
concat (x ∷ xs) = x ++ concat xs

module _ (codec : Codec) where
  open codec use {decode, encode, sha256}

  -- `CellHeader::write`
  unfoldable pub write : CellHeader → List ℕ → Fallible (List ℕ)
  write h data' =
      if leb size (length data')
      then ok (encode h ++ drop size data')
      else err account_data_too_small

  -- `CellHeader::written_id`
  unfoldable pub written_id : List ℕ → Option ℕ
  written_id data' = elim (decode data') [ none ↦ none | some h ↦ some h.value ]

  -- `HashState::chain`, with the rounds left and the number of the next one.
  unfoldable pub chain_from : ℕ → ℕ → List ℕ → List ℕ
  chain_from zero round hash = hash
  chain_from (suc left) round hash = chain_from left (round + 1) (sha256 (hash ++ le_bytes 4 round))

  unfoldable pub chain : List ℕ → ℕ → List ℕ
  unfolding chain_from
  chain hash rounds = chain_from rounds 0 hash

  -- `HashState::fold`
  unfoldable pub fold : ℕ → List (List ℕ) → ℕ → List ℕ
  unfolding chain
  fold salt hashes rounds = chain (sha256 (le_bytes 8 salt ++ concat hashes)) rounds

  -- `update` on an account's bytes: decode, change, count the revision, write back.
  unfoldable pub update_bytes : Change → List ℕ → Fallible (List ℕ)
  unfolding payload write
  update_bytes f data' = do
    cell ← ok_or (decode data') invalid_account_data
    rest ← payload data'
    (cell', rest') ← f cell rest
    revision ← ok_or (checked_add cell'.revision 1) arithmetic_overflow
    write (record cell' { revision = revision }) (take size data' ++ rest')

  unfoldable pub update : Change → Key → Ledger → Fallible Ledger
  unfolding update_bytes
  update f k l = do
    data' ← update_bytes f (l k).bytes
    ok (write_account k (record (l k) { bytes = data' }) l)

  -- `adjust`
  unfoldable pub adjust : ℤ → Key → Ledger → Fallible Ledger
  unfolding update add_value
  adjust change = update (add_value change)
