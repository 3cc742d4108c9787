-- ===== src/Causal.antt =====
-- core/src/redline/causal.rs: the steps of a causal pair, what a pair of cells should hold after them, and
-- the comparison with the accounts. A key is a number, and an account is what the fixture's ledger holds.

pub mod Holding
pub mod Steps
pub mod Agreement
mod Tests
use redsuite.Prelude.{
  ℕ, Bool, List, [], ◌∷◌, Option, none, some, Result, ok, err, ◌>>=◌, ◌>>◌, ok_or, ensure, length,
  leb, eqb, ◌&&◌, ltb, take, le_bytes, replicate, if◌then◌else◌,
}
use redsuite.Fixture.{Key, Account, Fallible, Codec}
use redsuite.Fixture.Cell.{payload, fold}
use redsuite.Fixture.Build.{SolanaInstruction, Sdk}
use redsuite.Fixture.Instructions.{program_fold_hashes, program_hash}

pub data Step : Type 0 where
  x y z : Step

unfoldable pub index : Step → ℕ
index x = 0
index y = 1
index z = 2

-- `Step::accounts`
unfoldable pub accounts : Step → Key → Key → List Key
accounts x a b = a ∷ []
accounts y a b = a ∷ b ∷ []
accounts z a b = b ∷ []

abbrev pub hash_size : ℕ
hash_size = 32

pub record PairModel : Type 0 where
  pub a : List ℕ
  pub b : List ℕ
  pub a_id : ℕ
  pub b_id : ℕ

-- `PairModel::default`
unfoldable pub default_model : PairModel
default_model = record { a = replicate hash_size 0; b = replicate hash_size 0; a_id = 0; b_id = 0 }

-- The errors of `PairModel::compare`
pub data Mismatch : Type 0 where
  missing unreadable short differs : Mismatch

-- The equality of two hashes
abbrev pub bytes_beq : List ℕ → List ℕ → Bool
bytes_beq [] [] = Bool.true
bytes_beq (u ∷ us) (v ∷ vs) = eqb u v && bytes_beq us vs
bytes_beq _ _ = Bool.false

-- The payload and its first chunk.
unfoldable pub first_chunk : List ℕ → Result Mismatch (List ℕ)
first_chunk rest = if leb hash_size (length rest) then ok (take hash_size rest) else err short

abbrev pub unreadable_error : Fallible (List ℕ) → Result Mismatch (List ℕ)
unreadable_error (ok rest) = ok rest
unreadable_error (err e) = err unreadable

unfoldable pub read_payload : List ℕ → Result Mismatch (List ℕ)
unfolding payload
read_payload bytes = unreadable_error (payload bytes)

module _ (codec : Codec) where
  -- `PairModel::apply`
  unfoldable pub apply : Step → ℕ → ℕ → PairModel → PairModel
  apply x id iters m = record m { a = fold codec id (m.a ∷ []) iters; a_id = id }
  apply y id iters m =
      let merged = fold codec id (m.a ∷ m.b ∷ []) iters in
      record { a = merged; b = merged; a_id = id; b_id = id }
  apply z id iters m = record m { b = fold codec id (m.b ∷ []) iters; b_id = id }

  -- One round of the loop of `PairModel::compare`
  unfoldable pub compare_account : Option Account → List ℕ → ℕ → Result Mismatch (Unit {0})
  compare_account account expected_hash expected_id = do
    found ← ok_or account missing
    header ← ok_or (codec.decode found.bytes) unreadable
    rest ← read_payload found.bytes
    hash ← first_chunk rest
    ensure (bytes_beq hash expected_hash && eqb header.value expected_id) differs

  -- `PairModel::compare`
  unfoldable pub compare : PairModel → Option Account → Option Account → Result Mismatch (Unit {0})
  unfolding compare_account
  compare m first second = compare_account first m.a m.a_id >> compare_account second m.b m.b_id

-- `compute_unit_limit`; the program of compute budgets is an argument.
unfoldable pub compute_unit_limit : Key → ℕ → SolanaInstruction
compute_unit_limit budget limit = record {
  program_id = budget;
  metas = [];
  bytes = 2 ∷ le_bytes 4 limit;
}

abbrev pub cu_limit : ℕ
cu_limit = 1400000

-- `HASH_INIT`
abbrev pub hash_init : List ℕ
hash_init = replicate hash_size 7

module _ (sdk : Sdk) (budget redline : Key) where
  -- `chain_ixs`
  unfoldable pub chain_ixs : ℕ → ℕ → List Key → Option (List SolanaInstruction)
  unfolding compute_unit_limit
  chain_ixs id iters keys = elim (program_fold_hashes sdk redline id iters keys) [
    | none ↦ none
    | some folded ↦
        some (if ltb 0 iters then compute_unit_limit budget cu_limit ∷ folded ∷ [] else folded ∷ [])
  ]

  -- `independent_ixs`
  unfoldable pub independent_ixs : ℕ → Key → ℕ → Option (List SolanaInstruction)
  unfolding compute_unit_limit
  independent_ixs id account iters =
      elim (program_hash sdk redline id hash_init iters (account ∷ [])) [
        | none ↦ none
        | some hashed ↦ some (compute_unit_limit budget cu_limit ∷ hashed ∷ [])
      ]

-- `CausalPair`; its senders are left to the outcome of a submission.
pub record CausalPair : Type 0 where
  pub a : Key
  pub b : Key
  pub model : PairModel
  pub last_signature : Option ℕ

-- `CausalPair::new`
unfoldable pub new_pair : Key → Key → CausalPair
unfolding default_model
new_pair a b = record { a = a; b = b; model = default_model; last_signature = none }

module _ (codec : Codec) where
  -- `CausalPair::send`, with what preparing and submitting the transaction comes to.
  unfoldable pub send :
      {E : Type 0} → Step → ℕ → ℕ → Result E ℕ → CausalPair → Result E ℕ × CausalPair
  unfolding apply
  send step id iters (ok signature) p = (
    ok signature,
    record p { last_signature = some signature; model = apply codec step id iters p.model },
  )
  send step id iters (err e) p = (err e, p)
