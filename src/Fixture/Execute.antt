-- ===== src/Fixture/Execute.antt =====
-- programs/fixture/src/execute/mod.rs: the batch of operations.
use redsuite.Prelude.{
  ℕ, ◌+◌, ◌%◌, Bool, List, [], ◌∷◌, Option, none, some, length, leb, eqb, if◌then◌else◌, ok, err,
  get_elem?, ok_or, ensure, ◌>>=◌, ◌>>◌, take, le_bytes, replicate,
}
use redsuite.Fixture.{
  Key, not_enough_account_keys, missing_required_signature, account_data_too_small, custom,
  Fallible, Ledger, Info, Codec, write_account,
}
use redsuite.Fixture.Cell.{
  payload, chain, fold, update, set_value, fill_words, set_undelegation, touch, put_bytes,
  copy_bytes, adjust,
}
use redsuite.Fixture.Syntax.{
  IndexedMeta, Operation, set, add, fill, hash, fold_hashes, copy, sum_sizes, inspect, fill_bytes,
  undelegation, invoke, settle, transfer_from_escrow, log, fail, resize_bytes, Runtime,
}
use redsuite.Fixture.Settlement

-- `info`
unfoldable pub info : List Info → ℕ → Fallible Info
info accounts index = ok_or (get_elem? accounts index) not_enough_account_keys

-- `each`
unfoldable pub each :
    List Info → List ℕ → (Key → Ledger → Fallible Ledger) → Ledger → Fallible Ledger
unfolding info
each accounts [] f l = ok l
each accounts (index ∷ cells) f l = do
  account ← info accounts index
  l' ← f account.key l
  each accounts cells f l'

-- `collect` of a fallible step over the items.
unfoldable pub collect : {A B : Type 0} → (A → Fallible B) → List A → Fallible (List B)
collect f [] = ok []
collect f (x ∷ xs) = do y ← f x; ys ← collect f xs; ok (y ∷ ys)

-- The first hash of the payload of an account.
unfoldable pub first_hash : List Info → Ledger → ℕ → Fallible (List ℕ)
unfolding info payload
first_hash accounts l index = do
  account ← info accounts index
  rest ← payload (l account.key).bytes
  ensure (leb 32 (length rest)) account_data_too_small
  ok (take 32 rest)

unfoldable pub sum_lengths : List Info → List ℕ → Ledger → Fallible ℕ
unfolding info
sum_lengths accounts [] l = ok 0
sum_lengths accounts (index ∷ rest) l = do
  account ← info accounts index
  more ← sum_lengths accounts rest l
  ok (length (l account.key).bytes + more)

unfoldable pub resolve_meta : List Info → IndexedMeta → Fallible (Key × Bool × Bool)
unfolding info
resolve_meta accounts meta = do
  account ← info accounts meta.index
  ok (account.key, meta.signer, meta.writable)

abbrev pub last_info : List Info → Option Info
last_info [] = none
last_info (x ∷ []) = some x
last_info (x ∷ y ∷ ys) = last_info (y ∷ ys)

unfoldable pub first_byte : ℕ → List ℕ → List ℕ
first_byte byte [] = []
first_byte byte (b ∷ bs) = byte ∷ bs

module _ (codec : Codec) where
  -- The loop of `Copy`, from a position on.
  unfoldable pub copy_from : List Info → List ℕ → ℕ → List ℕ → Ledger → Fallible Ledger
  unfolding info payload copy_bytes touch update
  copy_from accounts sources position [] l = ok l
  copy_from accounts sources position (destination ∷ rest) l = do
    at ← ok_or (get_elem? sources (position % length sources)) not_enough_account_keys
    source ← info accounts at
    target ← info accounts destination
    l' ←
        if eqb source.key target.key
        then update codec touch target.key l
        else do bytes ← payload (l source.key).bytes; update codec (copy_bytes bytes) target.key l
    copy_from accounts sources (position + 1) rest l'

  -- `write_payload`
  unfoldable pub write_payload : List ℕ → Key → Ledger → Fallible Ledger
  unfolding update put_bytes
  write_payload bytes = update codec (put_bytes bytes)

module _ (codec : Codec) (rt : Runtime) where
  -- `apply`. `Log` and `Inspect` write messages only.
  unfoldable pub apply : Key → List Info → Operation → Ledger → Fallible Ledger
  unfolding info each first_hash copy_from sum_lengths write_payload resolve_meta first_byte
  apply program accounts (set cells value) l =
      each accounts cells (update codec (set_value value)) l
  apply program accounts (add cells change) l = each accounts cells (adjust codec change) l
  apply program accounts (fill cells seed step) l =
      each accounts cells (update codec (fill_words seed step)) l
  apply program accounts (hash cells initial rounds) l =
      each accounts cells (write_payload codec (chain codec initial rounds)) l
  apply program accounts (fold_hashes cells salt rounds) l = do
    hashes ← collect (first_hash accounts l) cells
    each accounts cells (write_payload codec (fold codec salt hashes rounds)) l
  apply program accounts (copy [] destinations) l = err not_enough_account_keys
  apply program accounts (copy (s ∷ ss) destinations) l =
      copy_from codec accounts (s ∷ ss) 0 destinations l
  apply program accounts (sum_sizes output inputs) l = do
    total ← sum_lengths accounts inputs l
    target ← info accounts output
    write_payload codec (le_bytes 8 total) target.key l
  apply program accounts (inspect indices hashed) l = each accounts indices (λ k l'. ok l') l
  apply program accounts (fill_bytes index byte) l = do
    account ← info accounts index
    let filled = replicate (length (l account.key).bytes) byte
    ok (write_account account.key (record (l account.key) { bytes = filled }) l)
  apply program accounts (undelegation cells outcome) l =
      each accounts cells (update codec (set_undelegation outcome)) l
  apply program accounts (invoke target metas bytes signers) l = do
    called ← info accounts target
    resolved ← collect (resolve_meta accounts) metas
    rt.cpi program called.key resolved bytes signers l
  apply program accounts (settle settlement) l = Settlement.invoke rt program accounts settlement l
  apply program accounts (transfer_from_escrow destination system amount) l = do
    escrow ← ok_or (last_info accounts) not_enough_account_keys
    ensure escrow.is_signer missing_required_signature
    to ← info accounts destination
    via ← info accounts system
    rt.system_transfer escrow.key to.key via.key amount l
  apply program accounts log l = ok l
  apply program accounts (fail code) l = err (custom code)
  apply program accounts (resize_bytes index len byte) l = do
    account ← info accounts index
    resized ← rt.resize_account (l account.key) len
    ok (write_account account.key (record resized { bytes = first_byte byte resized.bytes }) l)

  -- `run`
  unfoldable pub run : Key → List Info → List Operation → Ledger → Fallible Ledger
  run program accounts [] l = ok l
  run program accounts (o ∷ os) l = do l' ← apply program accounts o l; run program accounts os l'
