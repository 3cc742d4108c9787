-- ===== src/Receipt/Printed/Reading.antt =====
-- core/src/receipt.rs: what is read of the lines of a receipt, field by field and together.
use mathlib.Core.List.{append-nil, append_assoc}
use redsuite.Prelude.{
  ℕ, ◌≡◌, refl, sym, ap, ap₂, ◌∙◌, Bool, true, false, List, [], ◌∷◌, ◌++◌, All, Option, none, some,
  eqb, arith, if◌then◌else◌,
}
use redsuite.Receipt.Lines.{
  Line, codes, trim, trim_start_by, trim_end_by, cons_unless, is_whitespace, split, after_first,
  parse_u64, list_of, parse_all,
}
use redsuite.Receipt.Lines.Tokens.{
  AllPlain, trim-plain, split-plain, join, bracketed, unbracketed, values, trimmed-join,
}
use redsuite.Receipt.{
  Signature, Parsers, CommitReceipt, pubkey_list, read_line, read_lines, empty_receipt, parse_logs,
  first_token, and_then, line_beq,
}
use redsuite.Receipt.Printed.{
  Texts, line, base_line, base_lines, undelegation_lines, error_lines, lines_of, base_texts,
  IsWritten,
}

not_closing : (c : ℕ) → eqb c 93 ≡ false → eqb 93 c ≡ false
not_closing c h = ground arith

-- A text that starts with an `e` is not a request, whatever is trimmed at its end.
not_request :
    (s : Line) → line_beq (cons_unless is_whitespace 101 s) (codes "requested undelegation") ≡ false
unfolding cons_unless is_whitespace
not_request [] = refl
not_request (c ∷ s) = refl

error_line :
    (message : Line)
    → line_beq (trim (codes "error message: " ++ message)) (codes "requested undelegation") ≡ false
unfolding trim trim_start_by is_whitespace trim_end_by
error_line message = not_request (trim_end_by is_whitespace (codes "rror message: " ++ message))

module _ (p : Parsers) (no_key : p.parse_key [] ≡ none) where
  pubkey_list-bracketed :
      (ts : List Line) → All AllPlain ts → pubkey_list p (bracketed ts) ≡ values p.parse_key ts
  unfolding pubkey_list join parse_all split trim values
  pubkey_list-bracketed [] h =
      ap (λ s. parse_all p.parse_key (split 44 s)) (unbracketed [] h)
      ∙ ap (λ o. list_of o ++ []) no_key
  pubkey_list-bracketed (t ∷ ts) h =
      ap (λ s. parse_all p.parse_key (split 44 s)) (unbracketed (t ∷ ts) h)
      ∙ trimmed-join p.parse_key t ts h

  -- The number of a base transaction is skipped.
  after_first-number :
      (number text : Line)
      → AllPlain number
      → after_first (codes "]: ") (number ++ (codes "]: " ++ text)) ≡ some text
  unfolding after_first
  after_first-number [] text h = refl
  after_first-number (c ∷ number) text h =
      rw (not_closing c h.0.closing, if◌then◌else◌) (after_first-number number text h.1)

  read_id :
      (t more : Line) (r : CommitReceipt)
      → AllPlain t
      → read_line p (line (codes "id: " ++ (t ++ 44 ∷ more))) r
        ≡ record r { commit_id = parse_u64 t }
  unfolding read_line
  read_id t more r h =
      ap (λ id. record r { commit_id = id })
        (ap (first_token) (split-plain t more h) ∙ ap parse_u64 (trim-plain t h))

  read_payer :
      (t : Line) (r : CommitReceipt)
      → AllPlain t
      → read_line p (line (codes "payer: " ++ t)) r ≡ record r { payer = p.parse_key t }
  unfolding read_line
  read_payer t r h = ap (λ s. record r { payer = p.parse_key s }) (trim-plain t h)

  read_included :
      (ts : List Line) (r : CommitReceipt)
      → All AllPlain ts
      → read_line p (line (codes "included: " ++ bracketed ts)) r
        ≡ record r { included = values p.parse_key ts }
  unfolding read_line
  read_included ts r h = ap (λ ks. record r { included = ks }) (pubkey_list-bracketed ts h)

  read_excluded :
      (ts : List Line) (r : CommitReceipt)
      → All AllPlain ts
      → read_line p (line (codes "excluded: " ++ bracketed ts)) r
        ≡ record r { excluded = values p.parse_key ts }
  unfolding read_line
  read_excluded ts r h = ap (λ ks. record r { excluded = ks }) (pubkey_list-bracketed ts h)

  read_base :
      (number text : Line) (r : CommitReceipt)
      → AllPlain number
      → AllPlain text
      → read_line p (base_line (number, text)) r
        ≡ record r { base_signatures = r.base_signatures ++ list_of (p.parse_signature text) }
  unfolding read_line
  read_base number text r hn ht =
      ap
        (λ o. record r {
          base_signatures =
              r.base_signatures ++ list_of (and_then o (λ s. p.parse_signature (trim s)));
        })
        (after_first-number number text hn)
      ∙ ap (λ s. record r { base_signatures = r.base_signatures ++ list_of (p.parse_signature s) })
          (trim-plain text ht)

  read_lines-append :
      (ss logs : List Line) (r : CommitReceipt)
      → read_lines p (ss ++ logs) r ≡ read_lines p logs (read_lines p ss r)
  unfolding read_lines
  read_lines-append [] logs r = refl
  read_lines-append (s ∷ ss) logs r = read_lines-append ss logs (read_line p s r)

  read_bases :
      (bs : List (Line × Line)) (r : CommitReceipt)
      → All (λ b. AllPlain b.0) bs
      → All (λ b. AllPlain b.1) bs
      → read_lines p (base_lines bs) r ≡ record r {
        base_signatures = r.base_signatures ++ values p.parse_signature (base_texts bs);
      }
  unfolding read_lines base_lines values
  read_bases [] r hn ht =
      ap (λ ks. record r { base_signatures = ks }) (sym (append-nil r.base_signatures))
  read_bases ((number, text) ∷ bs) r hn ht =
      ap (read_lines p (base_lines bs)) (read_base number text r hn.0 ht.0)
      ∙ read_bases bs
          (record r { base_signatures = r.base_signatures ++ list_of (p.parse_signature text) })
          hn.1 ht.1
      ∙ ap (λ ks. record r { base_signatures = ks })
          (append_assoc r.base_signatures (list_of (p.parse_signature text))
            (values p.parse_signature (base_texts bs)))

  read_error :
      (message : Line) (r : CommitReceipt)
      → read_line p (line (codes "error message: " ++ message)) r
        ≡ record r { error_message = some message }
  unfolding read_line
  read_error message r =
      ap
        (λ b.
          if b
          then record r { requested_undelegation = true }
          else record r { error_message = some message })
        (error_line message)

  read_end :
      (undelegation : Bool) (error : Option Line) (r : CommitReceipt)
      → r.requested_undelegation ≡ false
      → r.error_message ≡ none
      → read_lines p (undelegation_lines undelegation ++ error_lines error) r
        ≡ record r { requested_undelegation = undelegation; error_message = error }
  unfolding read_lines read_line
  read_end true none r hu he =
      ap (λ e. record r { requested_undelegation = true; error_message = e }) he
  read_end true (some message) r hu he =
      read_error message (record r { requested_undelegation = true })
  read_end false none r hu he =
      ap₂ (λ u e. record r { requested_undelegation = u; error_message = e }) hu he
  read_end false (some message) r hu he =
      read_error message r
      ∙ ap (λ u. record r { requested_undelegation = u; error_message = some message }) hu

  -- Where the empty text is no key, the logs that print a receipt, in the order of its fields and with texts without
  -- spaces, commas and brackets, are read as the receipt whose fields these texts parse to: each field from
  -- its own line, the keys and signatures that parse in their order, and the error message as it is.
  pub parse_logs-lines_of :
      (s : Signature) (t : Texts) (code : Option ℕ)
      → IsWritten t
      → parse_logs p s (lines_of t) code ≡ record {
        signature = s;
        commit_id = parse_u64 t.id;
        payer = p.parse_key t.payer;
        included = values p.parse_key t.included;
        excluded = values p.parse_key t.excluded;
        base_signatures = values p.parse_signature (base_texts t.base);
        requested_undelegation = t.undelegation;
        error_message = t.error;
        receipt_err_code = code;
      }
  unfolding parse_logs read_lines lines_of
  parse_logs-lines_of s t code w =
      let rest : List Line =
        base_lines t.base ++ (undelegation_lines t.undelegation ++ error_lines t.error) in
      let last : CommitReceipt → CommitReceipt = λ r.
        read_lines p rest (read_line p (line (codes "excluded: " ++ bracketed t.excluded)) r) in
      let lists : CommitReceipt → CommitReceipt =
        λ r. last (read_line p (line (codes "included: " ++ bracketed t.included)) r) in
      let r1 : CommitReceipt = record (empty_receipt s code) { commit_id = parse_u64 t.id } in
      let r2 : CommitReceipt = record r1 { payer = p.parse_key t.payer } in
      let r3 : CommitReceipt = record r2 { included = values p.parse_key t.included } in
      let r4 : CommitReceipt = record r3 { excluded = values p.parse_key t.excluded } in
      let r5 : CommitReceipt = record r4 {
        base_signatures = values p.parse_signature (base_texts t.base);
      } in
      ap (λ r. lists (read_line p (line (codes "payer: " ++ t.payer)) r))
        (read_id t.id t.more (empty_receipt s code) w.id)
      ∙ ap lists (read_payer t.payer r1 w.payer)
      ∙ ap last (read_included t.included r2 w.included)
      ∙ ap (read_lines p rest) (read_excluded t.excluded r3 w.excluded)
      ∙ read_lines-append (base_lines t.base)
          (undelegation_lines t.undelegation ++ error_lines t.error) r4
      ∙ ap (read_lines p (undelegation_lines t.undelegation ++ error_lines t.error))
          (read_bases t.base r4 w.numbers w.base)
      ∙ read_end t.undelegation t.error r5 refl refl
