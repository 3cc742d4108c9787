-- ===== src/Fixture/Samples.antt =====
-- The codec, the runtime and the accounts of the runs of programs/fixture: each field of a header is one
-- element, and the calls out of the program change nothing.
use redsuite.Prelude.{
  ℕ, ◌^◌, ◌≡◌, refl, Bool, true, false, ◌&&◌, List, [], ◌∷◌, ◌++◌, Option, none, some, arith,
  length, ltb, lt→ltb, ltb→lt, eqb, replicate, Bool-cases, inl, inr, if◌then◌else◌, ok, u64_mod, ap,
  subst,
}
use redsuite.Fixture.{
  CellId, UndelegationOutcome, accept, reject, CellHeader, new_header, Account, Ledger, Codec,
  IsHeader,
}
use redsuite.Fixture.Syntax.{ResultCallback, MagicResponse, Runtime}

abbrev pub outcome_code : UndelegationOutcome → ℕ
outcome_code accept = 0
outcome_code reject = 1

abbrev pub encode_header : CellHeader → List ℕ
encode_header h =
    h.id.authority
    ∷ h.id.index
    ∷ h.value
    ∷ h.revision
    ∷ outcome_code h.undelegation
    ∷ replicate 59 0

abbrev pub header_of : ℕ → ℕ → ℕ → ℕ → UndelegationOutcome → Option CellHeader
header_of a i v r u =
    if ltb a (2 ^ 256) && ltb i u64_mod && ltb v u64_mod && ltb r u64_mod
    then some (record {
      id = record { authority = a; index = i };
      value = v;
      revision = r;
      undelegation = u;
    })
    else none

abbrev pub decode_header : List ℕ → Option CellHeader
decode_header (a ∷ i ∷ v ∷ r ∷ u ∷ rest) = header_of a i v r (if eqb u 0 then accept else reject)
decode_header _ = none

pub decode_encode_header :
    (h : CellHeader) (rest : List ℕ) → IsHeader h → decode_header (encode_header h ++ rest) ≡ some h
decode_encode_header h rest r =
    let a = lt→ltb h.id.authority (2 ^ 256) r.authority in
    let i = lt→ltb h.id.index u64_mod r.index in
    let v = lt→ltb h.value u64_mod r.value in
    let w = lt→ltb h.revision u64_mod r.revision in rw (a, i, v, w) (ap some (same h.undelegation))
  where
    same :
        (u : UndelegationOutcome)
        → record h { undelegation = if eqb (outcome_code u) 0 then accept else reject }
          ≡ record h { undelegation = u }
    same accept = refl
    same reject = refl

and_four :
    (a b c d : Bool) → (a && b && c && d) ≡ true → (a ≡ true) × (b ≡ true) × (c ≡ true) × (d ≡ true)
and_four a b c d h = ground arith

some-inj : (g h : CellHeader) → some g ≡ some h → g ≡ h
some-inj g h e = cc

header_of_range :
    (a i v r : ℕ) (u : UndelegationOutcome) (h : CellHeader)
    → header_of a i v r u ≡ some h
    → IsHeader h
header_of_range a i v r u h e =
    elim (Bool-cases (ltb a (2 ^ 256) && ltb i u64_mod && ltb v u64_mod && ltb r u64_mod)) [
      | inl fits ↦
          let (fa, fi, fv, fr) =
            and_four (ltb a (2 ^ 256)) (ltb i u64_mod) (ltb v u64_mod) (ltb r u64_mod) fits in
          subst IsHeader (some-inj _ h (rw fits at e)) (record {
            authority = ltb→lt a (2 ^ 256) fa;
            index = ltb→lt i u64_mod fi;
            value = ltb→lt v u64_mod fv;
            revision = ltb→lt r u64_mod fr;
          })
      | inr over ↦ absurd (cc (rw over at e))
    ]

pub decode_header_range : (d : List ℕ) (h : CellHeader) → decode_header d ≡ some h → IsHeader h
decode_header_range [] h e = absurd (cc)
decode_header_range (a ∷ []) h e = absurd (cc)
decode_header_range (a ∷ i ∷ []) h e = absurd (cc)
decode_header_range (a ∷ i ∷ v ∷ []) h e = absurd (cc)
decode_header_range (a ∷ i ∷ v ∷ r ∷ []) h e = absurd (cc)
decode_header_range (a ∷ i ∷ v ∷ r ∷ u ∷ rest) h e = header_of_range a i v r _ h e

abbrev pub plain : Codec
plain = record {
  decode = decode_header;
  encode = encode_header;
  sha256 = λ xs. replicate 32 (length xs);
  length_encode = λ h. refl;
  decode_encode = decode_encode_header;
  decode_range = decode_header_range;
}

-- The callback's key is 9, and every response reports a failed action on cell 1, with ten lamports due
-- to account 2. The calls out of the program change nothing.
abbrev pub effect : ResultCallback
effect = record {
  cell = 1;
  refund = some (record { recipient = 2; amount = 10 });
  compute_units = 0;
}

abbrev pub failed_response : MagicResponse
failed_response = record { ok_flag = false; effect = some effect }

abbrev pub idle : Runtime
idle = record {
  cpi = λ p k ms bs ss l. ok l;
  send_bundle = λ calls l. ok l;
  system_transfer = λ s d v a l. ok l;
  resize_account = λ a n. ok a;
  minimum_balance = λ n. 0;
  pda = λ id p. 1;
  create_pda = λ c p n id s q l. ok l;
  delegate_account = λ ks id v n l. ok l;
  delegate_account_with_any_validator = λ ks id v n l. ok l;
  system_program = 0;
  undelegate_account = λ c p b q s ss l. ok l;
  undelegate_discriminator = [];
  parse = λ bs. none;
  parse_seeds = λ bs. none;
  parse_response = λ bs. some failed_response;
  callback_signer = 9;
}

abbrev pub id : CellId
id = record { authority = 7; index = 0 }

abbrev pub cell_with : ℕ → ℕ → ℕ → Account
cell_with lamports value revision = record {
  owner = 5;
  lamports = lamports;
  bytes =
      encode_header (record (new_header id) { value = value; revision = revision }) ++ 1 ∷ 2 ∷ [];
}

abbrev pub wallet : Account
wallet = record { owner = 0; lamports = 3; bytes = [] }

abbrev pub ledger : Ledger
ledger k = if eqb k 1 then cell_with 50 0 0 else wallet
