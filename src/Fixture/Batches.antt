-- ===== src/Fixture/Batches.antt =====
-- programs/fixture/src/build.rs against programs/fixture/src/execute/mod.rs: batches built for keys, and
-- run with the accounts of their table.
use redsuite.Prelude.{
  ℕ, zero, suc, ◌≡◌, refl, ap, subst, ◌∙◌, Bool, true, List, [], ◌∷◌, some, map, get_elem?, ok,
  ◌>>=◌, >>=-ap, >>=-ok,
}
use redsuite.Fixture.{Key, Fallible, Ledger, Info, Codec}
use redsuite.Fixture.Cell.{update, set_value, fill_words}
use redsuite.Fixture.Syntax.{Operation, set, fill, Runtime}
use redsuite.Fixture.Build.{
  Meta, Batch, account, cell_meta, cells, on_cells, add_set, add_fill, add_write,
}
use redsuite.Fixture.Build.{>>=-eq-some as opt-bind}
use redsuite.Fixture.Table.{
  Granted, Extends, Extends-refl, Extends-trans, Granted-Extends, Addressable, account-Named,
  some-inj,
}
use redsuite.Fixture.Execute.{info, each, apply, run}
use redsuite.Fixture.Effects.{run-append}

-- The places named for keys, each with the entry asked for.
abbrev pub AllGranted : Bool → List Meta → List Key → List ℕ → Type 0
AllGranted w ms [] [] = Unit
AllGranted w ms (k ∷ ks) (i ∷ is) = Granted ms (cell_meta w k) i × AllGranted w ms ks is
AllGranted w ms _ _ = ⊥

AllGranted-Extends :
    (w : Bool) (ms ms' : List Meta) (ks : List Key) (is : List ℕ)
    → Extends ms ms'
    → AllGranted w ms ks is
    → AllGranted w ms' ks is
AllGranted-Extends w ms ms' [] [] ext h = tt
AllGranted-Extends w ms ms' (k ∷ ks) (i ∷ is) ext h =
    (Granted-Extends ms ms' (cell_meta w k) i ext h.0, AllGranted-Extends w ms ms' ks is ext h.1)
AllGranted-Extends w ms ms' [] (i ∷ is) ext h = absurd h
AllGranted-Extends w ms ms' (k ∷ ks) [] ext h = absurd h

abbrev pub CellsNamed : Bool → List Meta → List Key → List ℕ × List Meta → Type 0
CellsNamed w ms ks (is, ms') = Addressable ms' × Extends ms ms' × AllGranted w ms' ks is

-- On a table that a `u16` can address, the places that `cells` answers hold entries for the keys in
-- their order with the privileges asked for, every place of the table before keeps its key and its
-- privileges, and the table can still be addressed.
pub cells-CellsNamed :
    (w : Bool) (ks : List Key) (ms : List Meta) (r : List ℕ × List Meta)
    → cells w ks ms ≡ some r
    → Addressable ms
    → CellsNamed w ms ks r
unfolding cells
cells-CellsNamed w [] ms r e fits =
    subst (CellsNamed w ms []) (some-inj ([], ms) r e) (fits, Extends-refl ms, tt)
cells-CellsNamed w (k ∷ ks) ms r e fits =
    let ((i, ms₁), first, e₁) = opt-bind (account (cell_meta w k) ms) _ e in
    let ((is, ms₂), rest, e₂) = opt-bind (cells w ks ms₁) _ e₁ in
    let (fits₁, ext₁, here) = account-Named (cell_meta w k) ms (i, ms₁) first fits in
    let (fits₂, ext₂, there) = cells-CellsNamed w ks ms₁ (is, ms₂) rest fits₁ in
    subst (CellsNamed w ms (k ∷ ks)) (some-inj (i ∷ is, ms₂) r e₂) (
      fits₂,
      Extends-trans ms ms₁ ms₂ ext₁ ext₂,
      (Granted-Extends ms₁ ms₂ (cell_meta w k) i ext₂ here, there),
    )

-- The accounts that the runtime passes for a table.
abbrev pub info_of : Meta → Info
info_of m = record { key = m.pubkey; is_signer = m.is_signer }

abbrev pub infos : List Meta → List Info
infos = map info_of

pub info-infos :
    (ms : List Meta) (i : ℕ) (m : Meta)
    → get_elem? ms i ≡ some m
    → info (infos ms) i ≡ ok (info_of m)
unfolding info
info-infos [] i m e = absurd (cc)
info-infos (x ∷ ms) zero m e = ap (λ y. ok (info_of y)) (some-inj x m e)
info-infos (x ∷ ms) (suc i) m e = info-infos ms i m e

-- A step on each key in turn.
unfoldable pub each_key : List Key → (Key → Ledger → Fallible Ledger) → Ledger → Fallible Ledger
each_key [] f l = ok l
each_key (k ∷ ks) f l = f k l >>= each_key ks f

pub each-AllGranted :
    (w : Bool) (ms : List Meta) (ks : List Key) (is : List ℕ) (f : Key → Ledger → Fallible Ledger)
    (l : Ledger)
    → AllGranted w ms ks is
    → each (infos ms) is f l ≡ each_key ks f l
unfolding each each_key
each-AllGranted w ms [] [] f l h = refl
each-AllGranted w ms [] (i ∷ is) f l h = absurd h
each-AllGranted w ms (k ∷ ks) [] f l h = absurd h
each-AllGranted w ms (k ∷ ks) (i ∷ is) f l ((m, at, r), rest) = rw (info-infos ms i m at) (
    ap (λ j. f j l >>= each (infos ms) is f) r.key
    ∙ >>=-ap (f k l) _ _ (λ l'. each-AllGranted w ms ks is f l' rest))

module _ (codec : Codec) (rt : Runtime) (program : Key) where
  -- `on_cells` adds an operation. What this does with places that hold the keys is done after the batch
  -- before, whatever is named later.
  pub run-on_cells_any :
      (b b' : Batch) (ks : List Key) (make : List ℕ → Operation) (step : Ledger → Fallible Ledger)
      (table : List Meta) (l : Ledger)
      → ((is : List ℕ) (m : Ledger)
          → AllGranted true table ks is
          → apply codec rt program (infos table) (make is) m ≡ step m)
      → on_cells b ks make ≡ some b'
      → Addressable b.accounts
      → Extends b'.accounts table
      → run codec rt program (infos table) b'.operations l
        ≡ (run codec rt program (infos table) b.operations l >>= step)
  unfolding on_cells run
  run-on_cells_any b b' ks make step table l does made fits ext =
      let ((is, ms), named, done) = opt-bind (cells true ks b.accounts) _ made in
      let (_, _, granted) = cells-CellsNamed true ks b.accounts (is, ms) named fits in
      let before = run codec rt program (infos table) b.operations l in
      subst
        (λ c.
          Extends c.accounts table
          → run codec rt program (infos table) c.operations l ≡ (before >>= step))
        (some-inj _ b' done)
        (λ later.
          run-append codec rt program (infos table) b.operations (make is ∷ []) l
          ∙ >>=-ap before _ _ (λ m.
            >>=-ok (apply codec rt program (infos table) (make is) m)
            ∙ does is m (AllGranted-Extends true ms table ks is later granted)))
        ext

  -- `on_cells` adds an operation that runs `f` on each of the keys, whatever is named later.
  pub run-on_cells :
      (b b' : Batch) (ks : List Key) (make : List ℕ → Operation)
      (f : Key → Ledger → Fallible Ledger) (table : List Meta) (l : Ledger)
      → ((accounts : List Info) (is : List ℕ) (m : Ledger)
          → apply codec rt program accounts (make is) m ≡ each accounts is f m)
      → on_cells b ks make ≡ some b'
      → Addressable b.accounts
      → Extends b'.accounts table
      → run codec rt program (infos table) b'.operations l
        ≡ (run codec rt program (infos table) b.operations l >>= each_key ks f)
  run-on_cells b b' ks make f table l applies =
      run-on_cells_any b b' ks make (each_key ks f) table l
        (λ is m granted. applies (infos table) is m ∙ each-AllGranted true table ks is f m granted)

  -- The table after `on_cells` can be addressed, and extends the one before.
  pub on_cells-table :
      (b b' : Batch) (ks : List Key) (make : List ℕ → Operation)
      → on_cells b ks make ≡ some b'
      → Addressable b.accounts
      → Addressable b'.accounts × Extends b.accounts b'.accounts
  unfolding on_cells
  on_cells-table b b' ks make made fits =
      let ((is, ms), named, done) = opt-bind (cells true ks b.accounts) _ made in
      let (fits', ext, _) = cells-CellsNamed true ks b.accounts (is, ms) named fits in
      subst (λ c. Addressable c.accounts × Extends b.accounts c.accounts) (some-inj _ b' done)
        (fits', ext)

  -- A batch that `write` has built on a table that a `u16` can address, run with the accounts of its own table or of a larger one, does
  -- what the batch before did, then sets the value of each key in turn, then fills the payload of each
  -- key in turn with words of that value.
  pub run-add_write :
      (b b' : Batch) (ks : List Key) (value : ℕ) (table : List Meta) (l : Ledger)
      → add_write b ks value ≡ some b'
      → Addressable b.accounts
      → Extends b'.accounts table
      → run codec rt program (infos table) b'.operations l ≡ (
          run codec rt program (infos table) b.operations l
          >>= each_key ks (update codec (set_value value))
          >>= each_key ks (update codec (fill_words value 0)))
  unfolding add_write add_set add_fill apply
  run-add_write b b' ks value table l made fits ext =
      let (c, first, second) = opt-bind (add_set b ks value) _ made in
      let (fits₁, _) = on_cells-table b c ks (λ is. set is value) first fits in
      let (_, ext₂) = on_cells-table c b' ks (λ is. fill is value 0) second fits₁ in
      run-on_cells c b' ks (λ is. fill is value 0) (update codec (fill_words value 0)) table l
        (λ accounts is m. refl) second fits₁ ext
      ∙ ap (λ r. r >>= each_key ks (update codec (fill_words value 0)))
          (run-on_cells b c ks (λ is. set is value) (update codec (set_value value)) table l
            (λ accounts is m. refl) first fits
            (Extends-trans c.accounts b'.accounts table ext₂ ext))
