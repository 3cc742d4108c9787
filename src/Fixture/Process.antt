-- ===== src/Fixture/Process.antt =====
-- programs/fixture/src/execute/mod.rs and programs/fixture/src/execute/settlement.rs: the entry
-- point, the instructions other than the batch, and the callback of a settlement.
use redsuite.Prelude.{
  ℕ, ◌-◌, Bool, true, false, List, [], ◌∷◌, Option, none, some, ltb, leb, eqb, ℤ, pos,
  if◌then◌else◌, ok, err, ok_or, ensure, ◌>>=◌, ◌>>◌, checked_add, checked_sub, find, ◌&&◌, ◌||◌,
}
use redsuite.Fixture.{
  Key, CellId, accept, reject, size, new_header, not_enough_account_keys, incorrect_program_id,
  missing_required_signature, invalid_account_owner, invalid_account_data, account_data_too_small,
  invalid_instruction_data, invalid_argument, invalid_seeds, arithmetic_overflow,
  insufficient_funds, custom, Fallible, Ledger, Info, Codec, write_account,
}
use redsuite.Fixture.Cell.{write, update, touch, adjust}
use redsuite.Fixture.Syntax.{
  Refund, ActionGuard, Instruction, create, delegate, resize, execute, action, handle_result,
  Runtime, Operation,
}
use redsuite.Fixture.Execute.{run}

abbrev pub id_beq : CellId → CellId → Bool
id_beq a b = eqb a.authority b.authority && eqb a.index b.index

-- The three accounts at the end, `[.., source, _, escrow]`.
abbrev pub last_three : List Info → Option (Info × Info × Info)
last_three [] = none
last_three (a ∷ []) = none
last_three (a ∷ b ∷ []) = none
last_three (a ∷ b ∷ c ∷ []) = some (a, b, c)
last_three (a ∷ b ∷ c ∷ d ∷ rest) = last_three (b ∷ c ∷ d ∷ rest)

-- `strip_prefix`
abbrev pub strip_prefix : List ℕ → List ℕ → Option (List ℕ)
strip_prefix [] xs = some xs
strip_prefix (p ∷ ps) [] = none
strip_prefix (p ∷ ps) (x ∷ xs) = if eqb p x then strip_prefix ps xs else none

-- The lamports of `handle_result`, moved when the action failed and a refund is due.
unfoldable pub refund_to : Key → List Info → Refund → Ledger → Fallible Ledger
refund_to cell (recipient ∷ []) refund l = do
  ensure (eqb recipient.key refund.recipient) invalid_argument
  debit ← ok_or (checked_sub (l cell).lamports refund.amount) insufficient_funds
  credit ← ok_or (checked_add (l recipient.key).lamports refund.amount) arithmetic_overflow
  let debited = write_account cell (record (l cell) { lamports = debit }) l
  ok (write_account recipient.key (record (debited recipient.key) { lamports = credit }) debited)
refund_to cell _ refund l = err not_enough_account_keys

unfoldable pub settle_refund : Bool → Key → List Info → Option Refund → Ledger → Fallible Ledger
unfolding refund_to
settle_refund true cell remaining refund l = ok l
settle_refund false cell remaining none l = ok l
settle_refund false cell remaining (some refund) l = refund_to cell remaining refund l

-- `i64::from(!response.ok())`
abbrev pub failure : Bool → ℤ
failure true = pos 0
failure false = pos 1

module _ (codec : Codec) (rt : Runtime) where
  -- `create`
  unfoldable pub run_create : Key → List Info → CellId → ℕ → Ledger → Fallible Ledger
  unfolding write
  run_create program (payer ∷ authority ∷ cell ∷ system ∷ []) id space l = do
    ensure (authority.is_signer && eqb authority.key id.authority) missing_required_signature
    ensure (leb size space) account_data_too_small
    ensure (eqb cell.key (rt.pda id program)) invalid_seeds
    l' ← rt.create_pda cell.key program space id system.key payer.key l
    bytes ← write codec (new_header id) (l' cell.key).bytes
    ok (write_account cell.key (record (l' cell.key) { bytes = bytes }) l')
  run_create program _ id space l = err not_enough_account_keys

  -- `config.validator == Some(system_program::ID)`
  abbrev pub names_system : Option Key → Bool
  names_system none = false
  names_system (some k) = eqb k rt.system_program

  -- `delegate`
  unfoldable pub run_delegate : Key → List Info → CellId → Option Key → ℕ → Ledger → Fallible Ledger
  run_delegate program
        (payer ∷ cell ∷ owner ∷ buffer ∷ rec ∷ meta ∷ delegation ∷ system ∷ authority ∷ []) id
        validator frequency l =
      do
        ensure (eqb authority.key id.authority && authority.is_signer) missing_required_signature
        ensure (eqb cell.key (rt.pda id program)) invalid_seeds
        header ← ok_or (codec.decode (l cell.key).bytes) invalid_account_data
        ensure (id_beq header.id id) invalid_seeds
        let call =
            if names_system validator
            then rt.delegate_account_with_any_validator
            else rt.delegate_account
        call
            (payer.key ∷ cell.key ∷ owner.key ∷ buffer.key ∷ rec.key ∷ meta.key ∷ delegation.key
              ∷ system.key ∷ [])
            id validator frequency l
  run_delegate program _ id validator frequency l = err not_enough_account_keys

  -- `resize`
  unfoldable pub run_resize : Key → List Info → ℕ → Ledger → Fallible Ledger
  unfolding update touch
  run_resize program (payer ∷ cell ∷ system ∷ []) space l = do
    ensure payer.is_signer missing_required_signature
    ensure (leb size space) account_data_too_small
    header ← ok_or (codec.decode (l cell.key).bytes) invalid_account_data
    ensure (eqb cell.key (rt.pda header.id program)) invalid_seeds
    let required = rt.minimum_balance space
    let held = (l cell.key).lamports
    l' ←
        if ltb held required
        then rt.system_transfer payer.key cell.key system.key (required - held) l
        else ok l
    resized ← rt.resize_account (l' cell.key) space
    update codec touch cell.key (write_account cell.key resized l')
  run_resize program _ space l = err not_enough_account_keys

  -- `undelegate`
  unfoldable pub run_undelegate : Key → List Info → List ℕ → Ledger → Fallible Ledger
  run_undelegate program (cell ∷ buffer ∷ payer ∷ system ∷ rest) bytes l = do
    seeds ← ok_or (rt.parse_seeds bytes) invalid_instruction_data
    l' ← rt.undelegate_account cell.key program buffer.key payer.key system.key seeds l
    header ← ok_or (codec.decode (l' cell.key).bytes) invalid_account_data
    elim header.undelegation [ reject ↦ err (custom 111) | accept ↦ ok l' ]
  run_undelegate program _ bytes l = err not_enough_account_keys

  -- `settlement::handle_result`
  unfoldable pub run_handle_result : List Info → List ℕ → Ledger → Fallible Ledger
  unfolding settle_refund adjust
  run_handle_result (signer ∷ cell ∷ remaining) bytes l = do
    ensure (eqb signer.key rt.callback_signer && signer.is_signer) missing_required_signature
    response ← ok_or (rt.parse_response bytes) invalid_instruction_data
    effect ← ok_or response.effect invalid_instruction_data
    ensure (eqb cell.key effect.cell) invalid_argument
    l' ← settle_refund response.ok_flag cell.key remaining effect.refund l
    adjust codec (failure response.ok_flag) cell.key l'
  run_handle_result _ bytes l = err not_enough_account_keys

  -- The guards of `Instruction::Action`.
  unfoldable pub run_action :
      Key → List Info → ActionGuard → List Operation → Ledger → Fallible Ledger
  run_action program accounts guard operations l = do
    (source, middle, escrow) ← ok_or (last_three accounts) not_enough_account_keys
    ensure (eqb source.key program) incorrect_program_id
    ensure escrow.is_signer missing_required_signature
    cell ← ok_or (find (λ i. eqb i.key guard.cell) accounts) not_enough_account_keys
    ensure (eqb (l cell.key).owner guard.owner) invalid_account_owner
    run codec rt program accounts operations l

  abbrev pub is_handle_result : Instruction → Bool
  is_handle_result handle_result = true
  is_handle_result _ = false

  abbrev pub no_bytes : List ℕ → Bool
  no_bytes [] = true
  no_bytes (_ ∷ _) = false

  unfoldable pub dispatch : Key → List Info → Instruction → List ℕ → Ledger → Fallible Ledger
  unfolding run_create run_delegate run_resize run_action run_handle_result
  dispatch program accounts (create id space) rest l = run_create program accounts id space l
  dispatch program accounts (delegate id validator frequency) rest l =
      run_delegate program accounts id validator frequency l
  dispatch program accounts (resize space) rest l = run_resize program accounts space l
  dispatch program accounts (execute nonce operations) rest l =
      run codec rt program accounts operations l
  dispatch program accounts (action nonce guard operations) rest l =
      run_action program accounts guard operations l
  dispatch program accounts handle_result rest l = run_handle_result accounts rest l

  -- `process`
  unfoldable pub process : Key → List Info → List ℕ → Ledger → Fallible Ledger
  unfolding dispatch run_undelegate
  process program accounts bytes l = elim (strip_prefix rt.undelegate_discriminator bytes) [
    | some rest ↦ run_undelegate program accounts rest l
    | none ↦ do
      (instruction, remaining) ← ok_or (rt.parse bytes) invalid_instruction_data
      ensure (no_bytes remaining || is_handle_result instruction) invalid_instruction_data
      dispatch program accounts instruction remaining l
  ]
