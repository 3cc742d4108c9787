-- ===== src/Receipt/Printed.antt =====
-- core/src/receipt.rs: the logs of a receipt, line by line, as its fields are printed.
pub mod Reading
use redsuite.Prelude.{Bool, true, false, List, [], ◌∷◌, ◌++◌, All, Option, none, some}
use redsuite.Receipt.Lines.{Line, codes}
use redsuite.Receipt.Lines.Tokens.{AllPlain, bracketed}

-- The texts that the lines of a receipt hold. `more` is what follows the id, behind a comma.
pub record Texts : Type 0 where
  pub id : Line
  pub more : Line
  pub payer : Line
  pub included : List Line
  pub excluded : List Line
  pub base : List (Line × Line)
  pub undelegation : Bool
  pub error : Option Line

abbrev pub line : Line → Line
line rest = codes "Program log: ScheduledCommitSent " ++ rest

-- The line of a base transaction, with its number.
abbrev pub base_line : Line × Line → Line
base_line (number, text) = line (codes "signature[" ++ (number ++ (codes "]: " ++ text)))

unfoldable pub base_lines : List (Line × Line) → List Line
base_lines [] = []
base_lines (b ∷ bs) = base_line b ∷ base_lines bs

abbrev pub undelegation_lines : Bool → List Line
undelegation_lines true = line (codes "requested undelegation") ∷ []
undelegation_lines false = []

abbrev pub error_lines : Option Line → List Line
error_lines none = []
error_lines (some message) = line (codes "error message: " ++ message) ∷ []

-- The lines of a receipt.
unfoldable pub lines_of : Texts → List Line
unfolding base_lines bracketed
lines_of t =
    line (codes "id: " ++ (t.id ++ 44 ∷ t.more))
    ∷ line (codes "payer: " ++ t.payer)
    ∷ line (codes "included: " ++ bracketed t.included)
    ∷ line (codes "excluded: " ++ bracketed t.excluded)
    ∷ (base_lines t.base ++ (undelegation_lines t.undelegation ++ error_lines t.error))

abbrev pub base_texts : List (Line × Line) → List Line
base_texts [] = []
base_texts ((number, text) ∷ bs) = text ∷ base_texts bs

-- The texts of keys, signatures and numbers have no spaces, commas and brackets.
pub record IsWritten (t : Texts) : Type 0 where
  pub id : AllPlain t.id
  pub payer : AllPlain t.payer
  pub included : All AllPlain t.included
  pub excluded : All AllPlain t.excluded
  pub numbers : All (λ b. AllPlain b.0) t.base
  pub base : All (λ b. AllPlain b.1) t.base
