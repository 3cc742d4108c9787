-- ===== src/Receipt/Lines/Tokens.antt =====
-- The functions on text of core/src/receipt.rs, on texts without spaces, commas and brackets and on lists of
-- such texts.
use redsuite.Prelude.{
  ℕ, ◌≡◌, refl, ap, ap₂, ◌∙◌, Bool, true, false, List, [], ◌∷◌, ◌++◌, All, Option, eqb,
  if◌then◌else◌, inl, inr, Bool-cases,
}
use redsuite.Receipt.Lines.{
  Line, trim_start_by, trim_end_by, cons_unless, trim, is_whitespace, split, to_first, list_of,
  parse_all,
}

-- A character that is neither white space nor a comma nor a bracket.
pub record IsPlain (c : ℕ) : Type 0 where
  pub space : is_whitespace c ≡ false
  pub comma : eqb c 44 ≡ false
  pub opening : eqb c 91 ≡ false
  pub closing : eqb c 93 ≡ false

abbrev pub AllPlain : Line → Type 0
AllPlain = All IsPlain

-- A test takes none of the characters.
abbrev pub Spares : (ℕ → Bool) → Line → Type 0
Spares test = All (λ c. test c ≡ false)

trim_start_by-Spares : (test : ℕ → Bool) (s : Line) → Spares test s → trim_start_by test s ≡ s
unfolding trim_start_by
trim_start_by-Spares test [] h = refl
trim_start_by-Spares test (c ∷ s) h = rw (h.0, if◌then◌else◌) refl

trim_end_by-Spares : (test : ℕ → Bool) (s : Line) → Spares test s → trim_end_by test s ≡ s
unfolding trim_end_by cons_unless
trim_end_by-Spares test [] h = refl
trim_end_by-Spares test (c ∷ []) h = rw (h.0, if◌then◌else◌) refl
trim_end_by-Spares test (c ∷ d ∷ s) h =
    ap (cons_unless test c) (trim_end_by-Spares test (d ∷ s) h.1)

-- The last character goes, and no other.
trim_end_by-last :
    (test : ℕ → Bool) (s : Line) (c : ℕ)
    → Spares test s
    → test c ≡ true
    → trim_end_by test (s ++ c ∷ []) ≡ s
unfolding trim_end_by cons_unless
trim_end_by-last test [] c h e = rw (e, if◌then◌else◌) refl
trim_end_by-last test (d ∷ []) c h e =
    ap (cons_unless test d) (trim_end_by-last test [] c tt e) ∙ rw (h.0, if◌then◌else◌) refl
trim_end_by-last test (d ∷ b ∷ s) c h e =
    ap (cons_unless test d) (trim_end_by-last test (b ∷ s) c h.1 e)

-- Nothing goes from the end of a text whose last character stays.
trim_end_by-stays :
    (test : ℕ → Bool) (s : Line) (c : ℕ)
    → test c ≡ false
    → trim_end_by test (s ++ c ∷ []) ≡ s ++ c ∷ []
unfolding trim_end_by cons_unless
trim_end_by-stays test [] c e = rw (e, if◌then◌else◌) refl
trim_end_by-stays test (d ∷ []) c e = ap (cons_unless test d) (trim_end_by-stays test [] c e)
trim_end_by-stays test (d ∷ b ∷ s) c e =
    ap (cons_unless test d) (trim_end_by-stays test (b ∷ s) c e)

plain-space : (s : Line) → AllPlain s → Spares is_whitespace s
plain-space [] h = tt
plain-space (c ∷ s) h = (h.0.space, plain-space s h.1)

pub trim-plain : (s : Line) → AllPlain s → trim s ≡ s
unfolding trim
trim-plain s h =
    ap (trim_end_by is_whitespace) (trim_start_by-Spares is_whitespace s (plain-space s h))
    ∙ trim_end_by-Spares is_whitespace s (plain-space s h)

trim-space : (s : Line) → trim (32 ∷ s) ≡ trim s
unfolding trim trim_start_by is_whitespace
trim-space s = refl

-- The token before a comma, and a text without commas.
pub split-plain : (s rest : Line) → AllPlain s → split 44 (s ++ 44 ∷ rest) ≡ s ∷ split 44 rest
unfolding split
split-plain [] rest h = refl
split-plain (c ∷ s) rest h =
    rw (h.0.comma, if◌then◌else◌) (ap (to_first c) (split-plain s rest h.1))

pub split-one : (s : Line) → AllPlain s → split 44 s ≡ s ∷ []
unfolding split
split-one [] h = refl
split-one (c ∷ s) h = rw (h.0.comma, if◌then◌else◌) (ap (to_first c) (split-one s h.1))

-- Texts as a list is printed: `[a, b]`.
unfoldable pub join : List Line → Line
join [] = []
join (t ∷ []) = t
join (t ∷ u ∷ ts) = t ++ 44 ∷ 32 ∷ join (u ∷ ts)

unfoldable pub bracketed : List Line → Line
unfolding join
bracketed ts = 91 ∷ join ts ++ 93 ∷ []

append-Spares :
    (test : ℕ → Bool) (s t : Line) → Spares test s → Spares test t → Spares test (s ++ t)
append-Spares test [] t h g = g
append-Spares test (c ∷ s) t h g = (h.0, append-Spares test s t h.1 g)

plain-Spares :
    (test : ℕ → Bool) (s : Line)
    → ((c : ℕ) → IsPlain c → test c ≡ false)
    → AllPlain s
    → Spares test s
plain-Spares test [] f h = tt
plain-Spares test (c ∷ s) f h = (f c h.0, plain-Spares test s f h.1)

join-Spares :
    (test : ℕ → Bool) (ts : List Line)
    → ((c : ℕ) → IsPlain c → test c ≡ false)
    → test 44 ≡ false
    → test 32 ≡ false
    → All AllPlain ts
    → Spares test (join ts)
unfolding join
join-Spares test [] f comma space h = tt
join-Spares test (t ∷ []) f comma space h = plain-Spares test t f h.0
join-Spares test (t ∷ u ∷ ts) f comma space h =
    append-Spares test t (44 ∷ 32 ∷ join (u ∷ ts)) (plain-Spares test t f h.0)
      (comma, (space, join-Spares test (u ∷ ts) f comma space h.1))

-- The brackets go, and what stands between them is left.
pub unbracketed :
    (ts : List Line)
    → All AllPlain ts
    → trim_end_by (λ c. eqb c 93) (trim_start_by (λ c. eqb c 91) (trim (bracketed ts))) ≡ join ts
unfolding bracketed trim trim_start_by is_whitespace
unbracketed ts h =
    ap (λ s. trim_end_by (λ c. eqb c 93) (trim_start_by (λ c. eqb c 91) s))
      (trim_end_by-stays is_whitespace (91 ∷ join ts) 93 refl)
    ∙ ap (trim_end_by (λ c. eqb c 93)) (
        trim_start_by-Spares (λ c. eqb c 91) (join ts ++ 93 ∷ [])
          (append-Spares (λ c. eqb c 91) (join ts) (93 ∷ [])
            (join-Spares (λ c. eqb c 91) ts (λ c plain. plain.opening) refl refl h) (refl, tt)))
    ∙ trim_end_by-last (λ c. eqb c 93) (join ts) 93
        (join-Spares (λ c. eqb c 93) ts (λ c plain. plain.closing) refl refl h) refl

-- A text that is split is never the empty list.
split-cons : (s : Line) → (h : Line) × (rest : List Line) × (split 44 s ≡ h ∷ rest)
unfolding split
split-cons [] = ([], [], refl)
split-cons (c ∷ s) =
    let (h, rest, e) = split-cons s in
    elim (Bool-cases (eqb c 44)) [
      | inl comma ↦ ([], split 44 s, rw (comma, if◌then◌else◌) refl)
      | inr other ↦ (c ∷ h, rest, rw (other, if◌then◌else◌) (ap (to_first c) e))
    ]

-- The values that the texts of a list parse to.
module _ {A : Type 0} (parse : Line → Option A) where
  unfoldable pub values : List Line → List A
  values [] = []
  values (t ∷ ts) = list_of (parse t) ++ values ts

  trimmed-space : (s : Line) → parse_all parse (split 44 (32 ∷ s)) ≡ parse_all parse (split 44 s)
  unfolding parse_all split
  trimmed-space s =
      let (h, rest, e) = split-cons s in
      rw e (ap (λ t. list_of (parse t) ++ parse_all parse rest) (trim-space h))

  pub trimmed-join :
      (t : Line) (ts : List Line)
      → All AllPlain (t ∷ ts)
      → parse_all parse (split 44 (join (t ∷ ts))) ≡ values (t ∷ ts)
  unfolding parse_all values join
  trimmed-join t [] h = rw (split-one t h.0, trim-plain t h.0) refl
  trimmed-join t (u ∷ ts) h =
      ap (parse_all parse) (split-plain t (32 ∷ join (u ∷ ts)) h.0)
      ∙ ap₂ (λ a b. list_of (parse a) ++ b) (trim-plain t h.0)
          (trimmed-space (join (u ∷ ts)) ∙ trimmed-join u ts h.1)
