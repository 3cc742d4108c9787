-- ===== src/Fixture.antt =====
-- programs/fixture: the on-chain program whose cells the scenarios write, settle and delegate.
-- A public key is a number and data are lists of bytes. The accounts of an instruction are
-- references into a ledger by key, so an account that is passed twice is one account. An error
-- aborts the transaction, whose writes the runtime discards, so a failed step has no state.
pub mod Cell
pub mod Syntax
pub mod Settlement
pub mod Cells
pub mod Fill
pub mod Execute
pub mod Process
pub mod Effects
pub mod Callback
pub mod Build
pub mod Instructions
pub mod Table
pub mod Batches
pub mod Folds
pub mod Keys
pub mod Samples
mod Tests
mod KeyTests
use redsuite.Prelude.{
  ℕ, zero, suc, ◌+◌, ◌*◌, ◌%◌, ◌<◌, ◌^◌, ◌≡◌, Bool, List, [], ◌∷◌, ◌++◌, Option, none, some, length,
  ltb, leb, eqb, if◌then◌else◌, Result, ok, err, get_elem?, ok_or, ensure, ◌>>=◌, ◌>>◌, drop, take,
  le_bytes, u64_mod, not,
}

abbrev pub Key : Type 0
Key = ℕ

pub record CellId : Type 0 where
  pub authority : Key
  pub index : ℕ

pub data UndelegationOutcome : Type 0 where
  accept reject : UndelegationOutcome

pub record CellHeader : Type 0 where
  pub id : CellId
  pub value : ℕ
  pub revision : ℕ
  pub undelegation : UndelegationOutcome

-- `CellHeader::SIZE`
abbrev pub size : ℕ
size = 64

-- `CellHeader::new`
unfoldable pub new_header : CellId → CellHeader
new_header id = record { id = id; value = 0; revision = 0; undelegation = accept }

pub data ProgramError : Type 0 where
  not_enough_account_keys incorrect_program_id missing_required_signature : ProgramError
  invalid_account_owner invalid_account_data account_data_too_small : ProgramError
  invalid_instruction_data invalid_argument invalid_seeds : ProgramError
  arithmetic_overflow insufficient_funds : ProgramError
  custom : ℕ → ProgramError

abbrev pub Fallible : Type 0 → Type 0
Fallible A = Result ProgramError A

pub record Account : Type 0 where
  pub owner : Key
  pub lamports : ℕ
  pub bytes : List ℕ

abbrev pub Ledger : Type 0
Ledger = Key → Account

-- An `AccountInfo`: the account's key, and what the transaction allows with it.
pub record Info : Type 0 where
  pub key : Key
  pub is_signer : Bool

abbrev pub write_account : Key → Account → Ledger → Ledger
write_account k a l j = if eqb k j then a else l j

-- The fields of a header in the range of their Rust types.
pub record IsHeader (h : CellHeader) : Type 0 where
  pub authority : h.id.authority < 2 ^ 256
  pub index : h.id.index < u64_mod
  pub value : h.value < u64_mod
  pub revision : h.revision < u64_mod

-- The Wincode encoding of headers, and the SHA-256 digest.
pub record Codec : Type 0 where
  pub decode : List ℕ → Option CellHeader
  pub encode : CellHeader → List ℕ
  pub sha256 : List ℕ → List ℕ
  -- A header takes `size` bytes, and is read back from the front of longer data.
  pub length_encode : (h : CellHeader) → length (encode h) ≡ size
  pub decode_encode :
      (h : CellHeader) (rest : List ℕ) → IsHeader h → decode (encode h ++ rest) ≡ some h
  pub decode_range : (d : List ℕ) (h : CellHeader) → decode d ≡ some h → IsHeader h
