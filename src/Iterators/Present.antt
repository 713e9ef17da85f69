-- ===== src/Iterators/Present.antt =====
-- The value that several runs have for a key, when the least entry of all is taken away.
use tiny_lsm.Common.{
  ℕ, zero, suc, ◌≡◌, refl, ◌∙◌, sym, none, some, List, [], ◌∷◌, Bytes, arith, Ordering, set,
}
use tiny_lsm.Key.{Key, cmp}
use tiny_lsm.MemTable.{find_key}
use tiny_lsm.MemTable.Scan.{find_key-here, find_key-past}
use tiny_lsm.Iterators.Ascend.{AllAbove-trans, find_key-AllAbove}
use tiny_lsm.Iterators.Streams.{Stream, present, AllAscend, AllEmpty, HeadsAbove, LeastAt}

present-skip :
    (k : Key) (s : Stream) (ss : List Stream)
    → find_key k s ≡ none
    → present k (s ∷ ss) ≡ present k ss
unfolding present
present-skip k s ss h = rw (h, present) refl

present-take :
    (k : Key) (v : Bytes) (s : Stream) (ss : List Stream)
    → find_key k s ≡ some v
    → present k (s ∷ ss) ≡ some v
unfolding present
present-take k v s ss h = rw (h, present) refl

present-ap :
    (k : Key) (s t : Stream) (ss tt' : List Stream)
    → find_key k s ≡ find_key k t
    → present k ss ≡ present k tt'
    → present k (s ∷ ss) ≡ present k (t ∷ tt')
unfolding present
present-ap k s t ss tt' h g = ground (arith, h, g)

find_key-empty : (k : Key) → find_key k [] ≡ none
unfolding find_key
find_key-empty k = refl

pub present-AllEmpty : (k : Key) (ss : List Stream) → AllEmpty ss → present k ss ≡ none
unfolding present
present-AllEmpty k [] e = refl
present-AllEmpty k (s ∷ ss) e =
    rw e.0 (present-skip k [] ss (find_key-empty k) ∙ present-AllEmpty k ss e.1)

-- A key below all heads has no value.
pub present-HeadsAbove :
    (k : Key) (ss : List Stream) → AllAscend ss → HeadsAbove k ss → present k ss ≡ none
unfolding present
present-HeadsAbove k [] up above = refl
present-HeadsAbove k ([] ∷ ss) up above =
    present-skip k [] ss (find_key-empty k) ∙ present-HeadsAbove k ss up.1 above
present-HeadsAbove k ((e ∷ es) ∷ ss) up above =
    present-skip k (e ∷ es) ss
      (find_key-AllAbove k (e ∷ es) (above.0, AllAbove-trans k e.0 es above.0 up.0.0))
    ∙ present-HeadsAbove k ss up.1 above.1

module _ (e : Key × Bytes) (es : Stream) where
  -- The value of its key is that of the least entry.
  pub present-LeastAt :
      (i : ℕ) (ss : List Stream) → LeastAt i e es ss → AllAscend ss → present e.0 ss ≡ some e.1
  present-LeastAt i [] l up = absurd l
  present-LeastAt zero (s ∷ ss) l up =
      rw l.0 (present-take e.0 e.1 (e ∷ es) ss (find_key-here e.0 e.1 es))
  present-LeastAt (suc i) ([] ∷ ss) l up =
      present-skip e.0 [] ss (find_key-empty e.0) ∙ present-LeastAt i ss l up.1
  present-LeastAt (suc i) ((f ∷ fs) ∷ ss) l up =
      present-skip e.0 (f ∷ fs) ss
        (find_key-AllAbove e.0 (f ∷ fs) (l.0, AllAbove-trans e.0 f.0 fs l.0 up.0.0))
      ∙ present-LeastAt i ss l.1 up.1

  -- Another key has the same value without it.
  pub present-set :
      (k : Key) (i : ℕ) (ss : List Stream)
      → (cmp k e.0 ≡ Ordering.eq → ⊥)
      → LeastAt i e es ss
      → present k (set ss i es) ≡ present k ss
  present-set k i [] other l = absurd l
  present-set k zero (s ∷ ss) other l =
      rw l.0 (present-ap k es (e ∷ es) ss ss (sym (find_key-past k e.0 e.1 es other)) refl)
  present-set k (suc i) ([] ∷ ss) other l =
      present-ap k [] [] (set ss i es) ss refl (present-set k i ss other l)
  present-set k (suc i) ((f ∷ fs) ∷ ss) other l =
      present-ap k (f ∷ fs) (f ∷ fs) (set ss i es) ss refl (present-set k i ss other l.1)
