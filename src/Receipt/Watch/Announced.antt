-- ===== src/Receipt/Watch/Announced.antt =====
-- core/src/receipt.rs: what the updates of a watch make of its pending signatures.
use redsuite.Prelude.{
  ◌≡◌, refl, sym, subst, inl, inr, Bool, true, false, ◌||◌, Bool-cases, List, [], ◌∷◌, ◌++◌, eqb,
  eqb_iff, arith,
}
use redsuite.Receipt.{Signature}
use redsuite.Receipt.Watch.{
  listed, Watch, announce, announce_all, Update, logged, slot_passed, stream_failed, history_failed,
  history, take_update, Bodies,
}

listed-append :
    (us vs : List Signature) (s : Signature) → listed (us ++ vs) s ≡ (listed us s || listed vs s)
listed-append [] vs s = refl
listed-append (u ∷ us) vs s = ground (arith, listed-append us vs s)

announce-pending :
    (u s : Signature) (w : Watch)
    → listed w.pending s ≡ true
    → listed (announce u w).pending s ≡ true
unfolding announce
announce-pending u s w h = ground (arith, listed-append w.pending (u ∷ []) s)

announce-new :
    (s : Signature) (w : Watch) → listed w.seen s ≡ false → listed (announce s w).pending s ≡ true
unfolding announce
announce-new s w h = ground (arith, listed-append w.pending (s ∷ []) s, eqb_iff s s)

announce-other :
    (u s : Signature) (w : Watch)
    → eqb u s ≡ false
    → listed w.seen s ≡ false
    → listed (announce u w).seen s ≡ false
unfolding announce
announce-other u s w other h = ground (arith, listed-append w.seen (u ∷ []) s)

announce_all-pending :
    (us : List Signature) (s : Signature) (w : Watch)
    → listed w.pending s ≡ true
    → listed (announce_all us w).pending s ≡ true
unfolding announce_all
announce_all-pending [] s w h = h
announce_all-pending (u ∷ us) s w h =
    announce_all-pending us s (announce u w) (announce-pending u s w h)

announce_all-new :
    (us : List Signature) (s : Signature) (w : Watch)
    → listed us s ≡ true
    → listed w.seen s ≡ false
    → listed (announce_all us w).pending s ≡ true
unfolding announce_all
announce_all-new [] s w h new = absurd (cc)
announce_all-new (u ∷ us) s w h new = elim (Bool-cases (eqb u s)) [
  | inl same ↦
      let at = (eqb_iff u s).0 same in
      announce_all-pending us s (announce u w)
        (subst (λ v. listed (announce v w).pending s ≡ true) (sym at) (announce-new s w new))
  | inr other ↦
      announce_all-new us s (announce u w) (rw (other, ◌||◌) at h) (announce-other u s w other new)
]

announce_all-other :
    (us : List Signature) (s : Signature) (w : Watch)
    → listed us s ≡ false
    → listed w.seen s ≡ false
    → listed (announce_all us w).seen s ≡ false
unfolding announce_all
announce_all-other [] s w h new = new
announce_all-other (u ∷ us) s w h new = elim (Bool-cases (eqb u s)) [
  | inl same ↦ absurd (cc (rw (same, ◌||◌) at h))
  | inr other ↦
      announce_all-other us s (announce u w) (rw (other, ◌||◌) at h)
        (announce-other u s w other new)
]

-- The signatures that an update, or some turns, announce.
abbrev pub is_announced : Update → Signature → Bool
is_announced (logged u) s = eqb u s
is_announced slot_passed s = false
is_announced stream_failed s = false
is_announced history_failed s = false
is_announced (history signatures) s = listed signatures s

abbrev pub announced : List (Bodies × Update) → Signature → Bool
announced [] s = false
announced ((bodies, update) ∷ turns) s = is_announced update s || announced turns s

pub update-pending :
    (u : Update) (s : Signature) (w : Watch)
    → listed w.pending s ≡ true
    → listed (take_update u w).pending s ≡ true
unfolding take_update
update-pending (logged t) s w h = announce-pending t s w h
update-pending slot_passed s w h = h
update-pending stream_failed s w h = h
update-pending history_failed s w h = h
update-pending (history us) s w h = announce_all-pending us s w h

pub update-new :
    (u : Update) (s : Signature) (w : Watch)
    → is_announced u s ≡ true
    → listed w.seen s ≡ false
    → listed (take_update u w).pending s ≡ true
unfolding take_update
update-new (logged t) s w h new =
    subst (λ v. listed (announce v w).pending s ≡ true) (sym ((eqb_iff t s).0 h))
      (announce-new s w new)
update-new slot_passed s w h new = absurd (cc)
update-new stream_failed s w h new = absurd (cc)
update-new history_failed s w h new = absurd (cc)
update-new (history us) s w h new = announce_all-new us s w h new

pub update-other :
    (u : Update) (s : Signature) (w : Watch)
    → is_announced u s ≡ false
    → listed w.seen s ≡ false
    → listed (take_update u w).seen s ≡ false
unfolding take_update
update-other (logged t) s w h new = announce-other t s w h new
update-other slot_passed s w h new = new
update-other stream_failed s w h new = new
update-other history_failed s w h new = new
update-other (history us) s w h new = announce_all-other us s w h new
