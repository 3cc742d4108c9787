-- ===== src/Fixture/Build.antt =====
-- programs/fixture/src/build.rs: the client's builder of instructions. An operation names accounts by
-- their places in the account table of the batch. `none` is the panic of
-- `expect`, when the table has no place left. The keys and the encodings of the SDK are parameters.
use redsuite.Prelude.{
  ℕ, zero, suc, ◌%◌, ◌^◌, ◌≡◌, refl, Bool, true, false, ◌||◌, List, [], ◌∷◌, ◌++◌, Option, none,
  some, map, length, ltb, eqb, contains, nat_eq, if◌then◌else◌, ℤ,
}
use redsuite.Fixture.{Key, CellId, UndelegationOutcome}
use redsuite.Fixture.Syntax.{
  Operation, set, add, fill, hash, fold_hashes, copy, sum_sizes, inspect, fill_bytes, undelegation,
  resize_bytes, SettlementMode, Action, Instruction,
}

infixl 5 ◌>>=◌
abbrev pub ◌>>=◌ : {A B : Type 0} → Option A → (A → Option B) → Option B
none >>= f = none
some a >>= f = f a

pub >>=-eq-some :
    {A B : Type 0} (o : Option A) (f : A → Option B) {b : B}
    → (o >>= f) ≡ some b
    → (a : A) × (o ≡ some a) × (f a ≡ some b)
>>=-eq-some none f e = absurd (cc)
>>=-eq-some (some a) f e = (a, refl, e)

-- `AccountMeta`
pub record Meta : Type 0 where
  pub pubkey : Key
  pub is_signer : Bool
  pub is_writable : Bool

abbrev pub writable_meta : Key → Bool → Meta
writable_meta k signer = record { pubkey = k; is_signer = signer; is_writable = true }

abbrev pub readonly_meta : Key → Bool → Meta
readonly_meta k signer = record { pubkey = k; is_signer = signer; is_writable = false }

pub record SolanaInstruction : Type 0 where
  pub program_id : Key
  pub metas : List Meta
  pub bytes : List ℕ

pub record Batch : Type 0 where
  pub program : Key
  pub accounts : List Meta
  pub operations : List Operation
  pub nonce : ℕ

-- A commit names its cells by key until it is built.
pub record Commit : Type 0 where
  pub mode : SettlementMode
  pub cells : List Key
  pub after_commit : List Action
  pub after_undelegate : List Action

pub record IntentBundle : Type 0 where
  pub payer : Key
  pub validator : Option Key
  pub commits : List Commit
  pub actions : List Action

pub record Sdk : Type 0 where
  pub magic_context : Key
  pub magic_program : Key
  pub system_program : Key
  pub fee_vault : Key → Key
  pub pda : CellId → Key → Key
  pub delegate_metas : (cell program : Key) → List Meta
  pub request_undelegation : (payer cell program : Key) → SolanaInstruction
  pub into_data : Instruction → List ℕ

-- `position`
unfoldable pub position : Key → List Meta → Option ℕ
position k [] = none
position k (m ∷ ms) =
    let rest = position k ms in
    if eqb m.pubkey k then some 0 else elim rest [ none ↦ none | some i ↦ some (suc i) ]

-- The privileges of the entry at a place, raised by those asked for.
unfoldable pub raise : ℕ → Meta → List Meta → List Meta
raise i meta [] = []
raise zero meta (m ∷ ms) =
    record m {
      is_signer = m.is_signer || meta.is_signer;
      is_writable = m.is_writable || meta.is_writable;
    }
    ∷ ms
raise (suc i) meta (m ∷ ms) = m ∷ raise i meta ms

-- `Batch::account`, on the table
unfoldable pub account : Meta → List Meta → Option (ℕ × List Meta)
unfolding position raise
account meta ms = elim (position meta.pubkey ms) [
  | some i ↦ some (i % 2 ^ 16, raise i meta ms)
  | none ↦ if ltb (length ms) (2 ^ 16) then some (length ms, ms ++ meta ∷ []) else none
]

abbrev pub cell_meta : Bool → Key → Meta
cell_meta writable k = record { pubkey = k; is_signer = false; is_writable = writable }

-- `Batch::cells`, on the table
unfoldable pub cells : Bool → List Key → List Meta → Option (List ℕ × List Meta)
unfolding account
cells writable [] ms = some ([], ms)
cells writable (k ∷ ks) ms = do
  (i, ms₁) ← account (cell_meta writable k) ms
  (is, ms₂) ← cells writable ks ms₁
  some (i ∷ is, ms₂)

abbrev pub push : Batch → List Meta → Operation → Batch
push b ms o = record b { accounts = ms; operations = b.operations ++ o ∷ [] }

-- The methods that name writable cells.
unfoldable pub on_cells : Batch → List Key → (List ℕ → Operation) → Option Batch
unfolding cells
on_cells b keys make = do (is, ms) ← cells true keys b.accounts; some (push b ms (make is))

unfoldable pub add_set : Batch → List Key → ℕ → Option Batch
unfolding on_cells
add_set b keys value = on_cells b keys (λ is. set is value)

unfoldable pub add_add : Batch → List Key → ℤ → Option Batch
unfolding on_cells
add_add b keys change = on_cells b keys (λ is. add is change)

unfoldable pub add_fill : Batch → List Key → ℕ → ℕ → Option Batch
unfolding on_cells
add_fill b keys seed step = on_cells b keys (λ is. fill is seed step)

unfoldable pub add_write : Batch → List Key → ℕ → Option Batch
unfolding add_set add_fill
add_write b keys value = do b' ← add_set b keys value; add_fill b' keys value 0

unfoldable pub add_hash : Batch → List Key → List ℕ → ℕ → Option Batch
unfolding on_cells
add_hash b keys initial rounds = on_cells b keys (λ is. hash is initial rounds)

unfoldable pub add_fold_hashes : Batch → List Key → ℕ → ℕ → Option Batch
unfolding on_cells
add_fold_hashes b keys salt rounds = on_cells b keys (λ is. fold_hashes is salt rounds)

unfoldable pub add_undelegation : Batch → List Key → UndelegationOutcome → Option Batch
unfolding on_cells
add_undelegation b keys outcome = on_cells b keys (λ is. undelegation is outcome)

unfoldable pub add_copy : Batch → List Key → List Key → Option Batch
unfolding cells
add_copy b sources destinations = do
  (is, ms₁) ← cells false sources b.accounts
  (js, ms₂) ← cells true destinations ms₁
  some (push b ms₂ (copy is js))

unfoldable pub add_sum_sizes : Batch → Key → List Key → Option Batch
unfolding account cells
add_sum_sizes b output inputs = do
  (i, ms₁) ← account (writable_meta output false) b.accounts
  (is, ms₂) ← cells false inputs ms₁
  some (push b ms₂ (sum_sizes i is))

-- `observations`, with `inspect` and `observe`
unfoldable pub add_observations : Batch → List Key → Bool → Option Batch
unfolding cells
add_observations b keys hashed = do
  (is, ms) ← cells false keys b.accounts
  some (push b ms (inspect is hashed))

unfoldable pub add_fill_bytes : Batch → Key → ℕ → Option Batch
unfolding account
add_fill_bytes b key byte = do
  (i, ms) ← account (writable_meta key false) b.accounts
  some (push b ms (fill_bytes i byte))

unfoldable pub add_resize_bytes : Batch → Key → ℕ → ℕ → Option Batch
unfolding account
add_resize_bytes b key len byte = do
  (i, ms) ← account (writable_meta key false) b.accounts
  some (push b ms (resize_bytes i len byte))

-- `log` and `fail`
unfoldable pub add_plain : Batch → Operation → Batch
add_plain b o = push b b.accounts o

unfoldable pub require_signer : Batch → Key → Option Batch
unfolding account
require_signer b key = do
  (i, ms) ← account (readonly_meta key true) b.accounts
  some (record b { accounts = ms })

unfoldable pub readonly : Batch → List Key → Batch
readonly b keys = record b {
  accounts =
      map (λ m. if contains keys m.pubkey then record m { is_writable = false } else m) b.accounts;
}

unfoldable pub writable : Batch → List Key → Option Batch
unfolding cells
writable b keys = do (is, ms) ← cells true keys b.accounts; some (record b { accounts = ms })
