-- ===== src/Causal/Agreement.antt =====
-- core/src/redline/causal.rs and programs/fixture/src: a pair of cells on the chain against the model that
-- its sender keeps.
use redsuite.Prelude.{
  ℕ, zero, suc, ◌+◌, ◌<◌, ◌≡◌, refl, sym, subst, ◌∙◌, false, List, [], ◌∷◌, ◌++◌, some, ok,
  >>=-eq-ok, length, arith, eqb, eqb_iff, le_bytes, if◌then◌else◌, u64_mod,
}
use redsuite.Fixture.{Key, Fallible, Ledger, Codec}
use redsuite.Fixture.Cell.{update, set_value, fold, chain_from}
use redsuite.Fixture.Syntax.{Runtime}
use redsuite.Fixture.Build.{Batch, add_set, add_fold_hashes}
use redsuite.Fixture.Instructions.{batch}
use redsuite.Fixture.Table.{Extends-refl}
use redsuite.Fixture.Execute.{collect, run}
use redsuite.Fixture.Batches.{each_key, infos}
use redsuite.Fixture.Folds.{hash_at, fold_keys, run-add_fold_hashes}
use redsuite.Causal.{
  Step, x, y, z, accounts, hash_size, PairModel, Mismatch, compare, compare_account, CausalPair,
  send,
}
use redsuite.Causal as Causal
use redsuite.Causal.Holding.{Holds, hash_at-Holds, compare-Holds, Holds-compare}
use redsuite.Causal.Steps.{marked, set_keys-Holds, put_keys-Holds}

hashes-inj : (us vs : List (List ℕ)) → ◌≡◌ {A = Fallible (List (List ℕ))} (ok us) (ok vs) → us ≡ vs
hashes-inj us vs h = cc

eqb_sym : (a b : ℕ) → eqb a b ≡ false → eqb b a ≡ false
eqb_sym a b h = ground arith

module _ (codec : Codec) where
  -- The two accounts hold what the model says.
  abbrev pub Agrees : PairModel → Key → Key → Ledger → Type 0
  Agrees m a b l = Holds codec (l a) m.a m.a_id × Holds codec (l b) m.b m.b_id

  compare-Agrees :
      (m : PairModel) (a b : Key) (l : Ledger)
      → compare codec m (some (l a)) (some (l b)) ≡ ok tt
      → Agrees m a b l
  unfolding compare
  compare-Agrees m a b l e =
      let (u, first, second) = >>=-eq-ok (compare_account codec (some (l a)) m.a m.a_id) _ e in
      (Holds-compare codec (l a) m.a m.a_id first, Holds-compare codec (l b) m.b m.b_id second)

  Agrees-compare :
      (m : PairModel) (a b : Key) (l : Ledger)
      → Agrees m a b l
      → compare codec m (some (l a)) (some (l b)) ≡ ok tt
  unfolding compare
  Agrees-compare m a b l (ha, hb) =
      rw (compare-Holds codec (l a) m.a m.a_id ha) (compare-Holds codec (l b) m.b m.b_id hb)

  -- The digests of SHA-256 take 32 bytes.
  module _ (digest : (bytes : List ℕ) → length (codec.sha256 bytes) ≡ hash_size) where
    length-chain_from :
        (left round : ℕ) (hash : List ℕ)
        → length hash ≡ hash_size
        → length (chain_from codec left round hash) ≡ hash_size
    unfolding chain_from
    length-chain_from zero round hash h = h
    length-chain_from (suc left) round hash h =
        length-chain_from left (round + 1) (codec.sha256 (hash ++ le_bytes 4 round)) (digest _)

    length-fold :
        (salt : ℕ) (hashes : List (List ℕ)) (rounds : ℕ)
        → length (fold codec salt hashes rounds) ≡ hash_size
    unfolding fold
    length-fold salt hashes rounds = length-chain_from rounds 0 _ (digest _)

    -- A fold over keys whose hashes are known writes one hash to each of them.
    fold_keys-Holds :
        (ks : List Key) (hashes : List (List ℕ)) (salt rounds : ℕ) (j : Key) (l l' : Ledger)
        (hash : List ℕ) (id : ℕ)
        → collect (hash_at l) ks ≡ ok hashes
        → fold_keys codec salt rounds ks l ≡ ok l'
        → Holds codec (l j) hash id
        → Holds codec (l' j) (if marked false ks j then fold codec salt hashes rounds else hash) id
    unfolding fold_keys
    fold_keys-Holds ks hashes salt rounds j l l' hash id known e h =
        let (found, read, e₁) = >>=-eq-ok (collect (hash_at l) ks) _ e in
        let same = hashes-inj found hashes (sym read ∙ known) in
        subst
          (λ us.
            Holds codec (l' j) (if marked false ks j then fold codec salt us rounds else hash) id)
          same
          (put_keys-Holds codec ks (fold codec salt found rounds) j l l' hash id
            (length-fold salt found rounds) e₁ h)

    module _ (id iters : ℕ) (small : id < u64_mod) where
      -- What a batch of a step does to one account.
      batch-Holds :
          (ks : List Key) (hashes : List (List ℕ)) (j : Key) (l n l' : Ledger) (hash : List ℕ)
          (before : ℕ)
          → each_key ks (update codec (set_value id)) l ≡ ok n
          → collect (hash_at n) ks ≡ ok hashes
          → fold_keys codec id iters ks n ≡ ok l'
          → Holds codec (l j) hash before
          → Holds codec
              (l' j)
              (if marked false ks j then fold codec id hashes iters else hash)
              (if marked false ks j then id else before)
      batch-Holds ks hashes j l n l' hash before set known put h =
          fold_keys-Holds ks hashes id iters j n l' hash (if marked false ks j then id else before)
            known put (set_keys-Holds codec ks id j l n hash before small set h)

      -- The hash of an account that the values are set on.
      hash_at-set :
          (ks : List Key) (j : Key) (l n : Ledger) (hash : List ℕ) (before : ℕ)
          → each_key ks (update codec (set_value id)) l ≡ ok n
          → Holds codec (l j) hash before
          → hash_at n j ≡ ok hash
      hash_at-set ks j l n hash before set h =
          hash_at-Holds codec n j hash (if marked false ks j then id else before)
            (set_keys-Holds codec ks id j l n hash before small set h)

      module _ (a b : Key) (apart : eqb a b ≡ false) where
        step-Agrees :
            (step : Step) (m : PairModel) (l n l' : Ledger)
            → each_key (accounts step a b) (update codec (set_value id)) l ≡ ok n
            → fold_keys codec id iters (accounts step a b) n ≡ ok l'
            → Agrees m a b l
            → Agrees (Causal.apply codec step id iters m) a b l'
        unfolding accounts Causal.apply collect
        step-Agrees x m l n l' set put (ha, hb) =
            let ks = a ∷ [] in
            let aa = (eqb_iff a a).1 refl in
            let known : collect (hash_at n) ks ≡ ok (m.a ∷ []) =
              rw (hash_at-set ks a l n m.a m.a_id set ha) refl in
            let to = batch-Holds ks (m.a ∷ []) in
            (
              rw (aa, if◌then◌else◌) at (to a l n l' m.a m.a_id set known put ha),
              rw (apart, if◌then◌else◌) at (to b l n l' m.b m.b_id set known put hb),
            )
        step-Agrees y m l n l' set put (ha, hb) =
            let ks = a ∷ b ∷ [] in
            let aa = (eqb_iff a a).1 refl in
            let bb = (eqb_iff b b).1 refl in
            let ba : eqb b a ≡ false = eqb_sym a b apart in
            let known : collect (hash_at n) ks ≡ ok (m.a ∷ m.b ∷ []) =
              rw (hash_at-set ks a l n m.a m.a_id set ha, hash_at-set ks b l n m.b m.b_id set hb)
                refl in
            let to = batch-Holds ks (m.a ∷ m.b ∷ []) in
            (
              rw (aa, ba, if◌then◌else◌) at (to a l n l' m.a m.a_id set known put ha),
              rw (apart, bb, if◌then◌else◌) at (to b l n l' m.b m.b_id set known put hb),
            )
        step-Agrees z m l n l' set put (ha, hb) =
            let ks = b ∷ [] in
            let bb = (eqb_iff b b).1 refl in
            let ba : eqb b a ≡ false = eqb_sym a b apart in
            let known : collect (hash_at n) ks ≡ ok (m.b ∷ []) =
              rw (hash_at-set ks b l n m.b m.b_id set hb) refl in
            let to = batch-Holds ks (m.b ∷ []) in
            (
              rw (ba, if◌then◌else◌) at (to a l n l' m.a m.a_id set known put ha),
              rw (bb, if◌then◌else◌) at (to b l n l' m.b m.b_id set known put hb),
            )

  -- With digests of 32 bytes and two different cells whose accounts agree with the model of a causal pair, a
  -- step with a 64-bit id whose batch the chain runs leaves accounts that agree with the model that
  -- sending it leaves.
  pub send-Agrees :
      (rt : Runtime) (redline : Key)
      (digest : (bytes : List ℕ) → length (codec.sha256 bytes) ≡ hash_size) (p : CausalPair)
      (step : Step) (id iters signature : ℕ) (c b : Batch) (l l' : Ledger)
      → id < u64_mod
      → eqb p.a p.b ≡ false
      → add_set (batch redline) (accounts step p.a p.b) id ≡ some c
      → add_fold_hashes c (accounts step p.a p.b) id iters ≡ some b
      → run codec rt redline (infos b.accounts) b.operations l ≡ ok l'
      → compare codec p.model (some (l p.a)) (some (l p.b)) ≡ ok tt
      → compare codec
          (send codec {E = Mismatch} step id iters (ok signature) p).1.model
          (some (l' p.a))
          (some (l' p.b))
        ≡ ok tt
  unfolding send batch run
  send-Agrees rt redline digest p step id iters signature c b l l' small apart set folded ran
        agrees =
      let keys = accounts step p.a p.b in
      let done =
        sym (
          run-add_fold_hashes codec rt redline (batch redline) c b keys id iters b.accounts l set
            folded (omega arith) (Extends-refl b.accounts))
        ∙ ran in
      let (n, first, second) = >>=-eq-ok (each_key keys (update codec (set_value id)) l) _ done in
      Agrees-compare (Causal.apply codec step id iters p.model) p.a p.b l' (
        step-Agrees digest id iters small p.a p.b apart step p.model l n l' first second
          (compare-Agrees p.model p.a p.b l agrees))
