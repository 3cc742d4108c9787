-- ===== src/Fixture/Syntax.antt =====
-- programs/fixture/src/lib.rs: the instructions of the program. What the Solana runtime and the SDKs
-- do is a parameter: cross-program calls, account creation, delegation, resizing, rent, addresses
-- and the decoding of what the runtime hands over.
use redsuite.Prelude.{ℕ, Bool, List, Option, ℤ}
use redsuite.Fixture.{Key, CellId, UndelegationOutcome, Fallible, Account, Ledger}

pub record IndexedMeta : Type 0 where
  pub index : ℕ
  pub signer : Bool
  pub writable : Bool

pub record Refund : Type 0 where
  pub recipient : Key
  pub amount : ℕ

pub record ResultCallback : Type 0 where
  pub cell : Key
  pub refund : Option Refund
  pub compute_units : ℕ

pub record Action : Type 0 where
  pub authority : Key
  pub program_id : Key
  pub metas : List (Key × Bool)
  pub bytes : List ℕ
  pub compute_units : ℕ
  pub escrow_index : ℕ
  pub callback : Option ResultCallback

pub data SettlementMode : Type 0 where
  commit undelegate : SettlementMode

pub record Intent : Type 0 where
  pub mode : SettlementMode
  pub cells : List ℕ
  pub after_commit : List Action
  pub after_undelegate : List Action

pub record Settlement : Type 0 where
  pub payer : ℕ
  pub context : ℕ
  pub magic : ℕ
  pub vault : Option ℕ
  pub intents : List Intent
  pub actions : List Action

pub data Operation : Type 0 where
  set : (cells : List ℕ) (value : ℕ) → Operation
  add : (cells : List ℕ) (change : ℤ) → Operation
  fill : (cells : List ℕ) (seed step : ℕ) → Operation
  hash : (cells : List ℕ) (initial : List ℕ) (rounds : ℕ) → Operation
  fold_hashes : (cells : List ℕ) (salt rounds : ℕ) → Operation
  copy : (sources destinations : List ℕ) → Operation
  sum_sizes : (output : ℕ) (inputs : List ℕ) → Operation
  inspect : (accounts : List ℕ) (hash : Bool) → Operation
  fill_bytes : (account byte : ℕ) → Operation
  undelegation : (cells : List ℕ) (outcome : UndelegationOutcome) → Operation
  invoke :
      (program : ℕ) (accounts : List IndexedMeta) (bytes : List ℕ) (signers : List CellId)
      → Operation
  settle : Settlement → Operation
  transfer_from_escrow : (destination system amount : ℕ) → Operation
  log : Operation
  fail : (code : ℕ) → Operation
  resize_bytes : (account length byte : ℕ) → Operation

pub record ActionGuard : Type 0 where
  pub cell : Key
  pub owner : Key

pub data Instruction : Type 0 where
  create : (id : CellId) (space : ℕ) → Instruction
  delegate : (id : CellId) (validator : Option Key) (commit_frequency_ms : ℕ) → Instruction
  resize : (space : ℕ) → Instruction
  execute : (nonce : ℕ) (operations : List Operation) → Instruction
  action : (nonce : ℕ) (guard : ActionGuard) (operations : List Operation) → Instruction
  handle_result : Instruction

-- The calls that `settlement::invoke` makes of the intent builder, in their order.
pub data BuilderCall : Type 0 where
  new_bundle : (payer context magic : Key) → BuilderCall
  fee_vault : Key → BuilderCall
  begin_commit begin_commit_and_undelegate : (cells : List Key) → BuilderCall
  post_commit post_undelegate standalone : Action → BuilderCall
  then_callback : (program : Key) (effect : ResultCallback) → BuilderCall
  fold_intent : BuilderCall

-- The answer of the magic program to an action, as `handle_result` decodes it.
pub record MagicResponse : Type 0 where
  pub ok_flag : Bool
  pub effect : Option ResultCallback

pub record Runtime : Type 0 where
  pub cpi : Key → Key → List (Key × Bool × Bool) → List ℕ → List CellId → Ledger → Fallible Ledger
  pub send_bundle : List BuilderCall → Ledger → Fallible Ledger
  pub system_transfer : (source destination system amount : ℕ) → Ledger → Fallible Ledger
  pub resize_account : Account → ℕ → Fallible Account
  pub minimum_balance : ℕ → ℕ
  pub pda : CellId → Key → Key
  pub create_pda :
      (cell program space : ℕ) → CellId → (system payer : Key) → Ledger → Fallible Ledger
  pub delegate_account : List Key → CellId → Option Key → ℕ → Ledger → Fallible Ledger
  pub delegate_account_with_any_validator :
      List Key → CellId → Option Key → ℕ → Ledger → Fallible Ledger
  pub system_program : Key
  pub undelegate_account :
      (cell program buffer payer system : Key) → List (List ℕ) → Ledger → Fallible Ledger
  pub undelegate_discriminator : List ℕ
  pub parse : List ℕ → Option (Instruction × List ℕ)
  pub parse_seeds : List ℕ → Option (List (List ℕ))
  pub parse_response : List ℕ → Option MagicResponse
  pub callback_signer : Key
