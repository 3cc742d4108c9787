-- ===== src/Receipt/Checks.antt =====
-- core/src/receipt.rs: the checks of a receipt. Keys are compared as the numbers that their bytes write, and a
-- confirmation by the base layer is an argument.
pub mod Included
use redsuite.Prelude.{
  ℕ, Bool, true, false, ◌&&◌, not, List, [], ◌∷◌, Option, none, some, if◌then◌else◌, ok, err,
  ensure, ◌>>=◌, ◌>>◌, any, leb, eqb,
}
use redsuite.Receipt.Lines.{Line, codes, after_first}
use redsuite.Receipt.{Pubkey, Signature, CommitReceipt}
use redsuite.Receipt.History.{
  Fallible, wrong_included, some_excluded, wrong_undelegation, intent_failed, settlement_failed,
  missing_base, unconfirmed,
}

unfoldable pub insert_key : Pubkey → List Pubkey → List Pubkey
insert_key k [] = k ∷ []
insert_key k (j ∷ js) = let rest = insert_key k js in if leb k j then k ∷ j ∷ js else j ∷ rest

-- `sort`
unfoldable pub sort_keys : List Pubkey → List Pubkey
unfolding insert_key
sort_keys [] = []
sort_keys (k ∷ ks) = insert_key k (sort_keys ks)

abbrev pub keys_beq : List Pubkey → List Pubkey → Bool
keys_beq [] [] = true
keys_beq (k ∷ ks) (j ∷ js) = eqb k j && keys_beq ks js
keys_beq _ _ = false

-- `CommitReceipt::check_included`
unfoldable pub check_included : List Pubkey → CommitReceipt → Fallible (Unit {0})
unfolding sort_keys
check_included expected r =
    ensure (keys_beq (sort_keys r.included) (sort_keys expected)) wrong_included

abbrev pub is_empty : {A : Type 0} → List A → Bool
is_empty [] = true
is_empty (a ∷ as') = false

abbrev pub bool_beq : Bool → Bool → Bool
bool_beq true b = b
bool_beq false b = not b

-- `CommitReceipt::check_accounts`
unfoldable pub check_accounts : List Pubkey → Bool → CommitReceipt → Fallible (Unit {0})
unfolding check_included
check_accounts expected undelegation r = do
  check_included expected r
  ensure (is_empty r.excluded) some_excluded
  ensure (bool_beq r.requested_undelegation undelegation) wrong_undelegation

abbrev pub is_none : {A : Type 0} → Option A → Bool
is_none none = true
is_none (some a) = false

-- `CommitReceipt::succeeded`
unfoldable pub succeeded : CommitReceipt → Bool
succeeded r = is_none r.error_message && is_none r.receipt_err_code

-- `CommitReceipt::check_success`
unfoldable pub check_success : CommitReceipt → Fallible (Unit {0})
unfolding succeeded
check_success r = do
  ensure (succeeded r) settlement_failed
  ensure (not (is_empty r.base_signatures)) missing_base

-- `str::contains`
unfoldable pub contains_text : Line → Line → Bool
unfolding after_first
contains_text needle message = not (is_none (after_first needle message))

unfoldable pub is_duplicate : Line → Bool
unfolding contains_text
is_duplicate message =
    any (λ needle. contains_text needle message)
      (codes "InvalidAccountOwner"
        ∷ codes "Custom(11)"
        ∷ codes "Custom(12)"
        ∷ codes "invalid Commit id"
        ∷ [])

-- `CommitReceipt::failure_is_duplicate_rejection`
unfoldable pub failure_is_duplicate_rejection : CommitReceipt → Bool
unfolding is_duplicate
failure_is_duplicate_rejection r = elim r.error_message [
  | none ↦ false
  | some message ↦ is_duplicate message
]

unfoldable pub confirm_all : (Signature → Bool) → List Signature → Fallible (Unit {0})
confirm_all is_confirmed [] = ok tt
confirm_all is_confirmed (s ∷ signatures) =
    ensure (is_confirmed s) unconfirmed >> confirm_all is_confirmed signatures

-- `CommitReceipt::confirm`
unfoldable pub confirm : (Signature → Bool) → CommitReceipt → Fallible (Unit {0})
unfolding confirm_all
confirm is_confirmed r = confirm_all is_confirmed r.base_signatures

unfoldable pub verify_failed :
    (Signature → Bool) → List Pubkey → Bool → CommitReceipt → Option Line → Fallible (Unit {0})
unfolding check_accounts confirm is_duplicate
verify_failed is_confirmed expected undelegate r (some message) =
    if is_duplicate message then ok tt else err (intent_failed message)
verify_failed is_confirmed expected undelegate r none = do
  check_accounts expected undelegate r
  confirm is_confirmed r

-- `CommitReceipt::verify`
unfoldable pub verify :
    (Signature → Bool) → List Pubkey → Bool → CommitReceipt → Fallible (Unit {0})
unfolding verify_failed
verify is_confirmed expected undelegate r =
    verify_failed is_confirmed expected undelegate r r.error_message
