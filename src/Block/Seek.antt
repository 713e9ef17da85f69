-- ===== src/Block/Seek.antt =====
-- `seek_to_key` is a binary search for the first entry whose key is not below the target.
use tiny_lsm.Common.{
  ℕ, zero, suc, ◌+◌, ◌-◌, ◌/◌, ◌≤◌, ◌<◌, ◌≡◌, inl, inr, refl, ap, subst, ◌∙◌, sym, true, false,
  Option, some, List, length, arith, ◌>>=◌, get_elem?, get_elem?-some, get_elem?-eq-none,
  get_elem?-lt, Ordering, ltb, ltb→lt, ltb-false_trans, Ordering-cases, Bool-cases, Option-cases,
  some-injective, lt_or_eq,
}
use tiny_lsm.Buffer.{BufCrate}
use tiny_lsm.Key.{Key, cmp, is_lt}
use tiny_lsm.Key.Order.{cmp_trans, eq_of_cmp}
use tiny_lsm.Block.Iterator.{BlockIterator, is_valid, key, seek_to, seek_loop, seek_to_key}
use tiny_lsm.Block.Entries.{Entry}
use tiny_lsm.Block.Entries.Read.{Shows, IsOver, seek_to-IsOver, seek_to_end, length-AllStored}

-- The keys of the entries grow.
abbrev pub IsSorted : List Entry → Type 0
IsSorted es =
    (i j : ℕ) (e f : Entry)
    → i < j
    → get_elem? es i ≡ some e
    → get_elem? es j ≡ some f
    → cmp e.0 f.0 ≡ Ordering.lt

-- `p` splits the entries: those before it have keys below the target, and no other has.
pub record Splits (es : List Entry) (target : Key) (p : ℕ) : Type 0 where
  pub inside : p ≤ length es
  pub below : (i : ℕ) (e : Entry) → i < p → get_elem? es i ≡ some e → cmp e.0 target ≡ Ordering.lt
  pub above : (i : ℕ) (e : Entry) → p ≤ i → get_elem? es i ≡ some e → is_lt (cmp e.0 target) ≡ false

-- The iterator stands at the p-th entry, or past the last.
abbrev pub StandsAt : BlockIterator → List Entry → ℕ → Type 0
StandsAt it es p =
    ((e : Entry) → get_elem? es p ≡ some e → Shows it e) × (length es ≤ p → is_valid it ≡ false)

module _ (buf : BufCrate) (es : List Entry) (sorted : IsSorted es) (target : Key) where
  below_mid :
      (m : ℕ) (e : Entry)
      → get_elem? es m ≡ some e
      → cmp e.0 target ≡ Ordering.lt
      → (i : ℕ) (f : Entry) → i < m + 1
      → get_elem? es i ≡ some f
      → cmp f.0 target ≡ Ordering.lt
  below_mid m e at lt i f h p = elim (lt_or_eq i m h) [
    | inl before ↦ cmp_trans f.0 e.0 target (sorted i m f e before p at) lt
    | inr same ↦
        subst (λ (x : Entry). cmp x.0 target ≡ Ordering.lt)
          (some-injective _ _ (sym at ∙ ap (get_elem? es) (sym same) ∙ p)) lt
  ]

  above_mid :
      (m : ℕ) (e : Entry)
      → get_elem? es m ≡ some e
      → is_lt (cmp e.0 target) ≡ false
      → (i : ℕ) (f : Entry) → m ≤ i
      → get_elem? es i ≡ some f
      → is_lt (cmp f.0 target) ≡ false
  above_mid m e at ge i f h p = elim (lt_or_eq m i (omega arith)) [
    | inl after ↦ ground (arith, cmp_trans e.0 f.0 target (sorted m i e f after at p))
    | inr same ↦
        subst (λ (x : Entry). is_lt (cmp x.0 target) ≡ false)
          (some-injective _ _ (sym at ∙ ap (get_elem? es) same ∙ p)) ge
  ]

  -- What the search returns.
  abbrev pub Found : BlockIterator → Option BlockIterator → Type 0
  Found it r =
      (it' : BlockIterator) × (p : ℕ) × (r ≡ some it')
      × Splits es target p
      × StandsAt it' es p
      × (it'.block ≡ it.block)

  stop :
      (it : BlockIterator) (p : ℕ)
      → IsOver buf it es
      → Splits es target p
      → Found it (seek_to buf it p)
  stop it p over split = elim (Option-cases (get_elem? es p)) [
    | inl out ↦
        let (it', ran, invalid, over', same_idx, same) =
          seek_to_end buf it es p over (get_elem?-eq-none es p out) in
        (it', p, ran, split, (λ e at. cc (sym at ∙ out), λ _. invalid), same)
    | inr (e, at) ↦
        let (it', ran, shows, over', idx, same) = seek_to-IsOver buf it es p e over at in
        (
          it',
          p,
          ran,
          split,
          (
            λ f at'. subst (Shows it') (some-injective _ _ (sym at ∙ at')) shows,
            λ h. absurd (omega (arith, get_elem?-lt es p e at)),
          ),
          same,
        )
  ]

  -- The three ways through a round, and the way out.
  module _ (fuel : ℕ) (it it1 : BlockIterator) (start end : ℕ) (k : Key) where
    abbrev IsRound : Type 0
    IsRound =
        (ltb start end ≡ true)
        × (seek_to buf it ((start + end) / 2) ≡ some it1)
        × (key it1 ≡ some k)

    round_lt :
        IsRound
        → cmp k target ≡ Ordering.lt
        → seek_loop buf (suc fuel) it target start end
          ≡ seek_loop buf fuel it1 target ((start + end) / 2 + 1) end
    unfolding seek_loop
    round_lt (h, ran, shown) o = rw (h, seek_loop) (rw ran (rw shown (rw (o, ◌>>=◌))))

    round_eq :
        IsRound
        → cmp k target ≡ Ordering.eq
        → seek_loop buf (suc fuel) it target start end ≡ some it1
    unfolding seek_loop
    round_eq (h, ran, shown) o = rw (h, seek_loop) (rw ran (rw shown (rw (o, ◌>>=◌))))

    round_gt :
        IsRound
        → cmp k target ≡ Ordering.gt
        → seek_loop buf (suc fuel) it target start end
          ≡ seek_loop buf fuel it1 target start ((start + end) / 2)
    unfolding seek_loop
    round_gt (h, ran, shown) o = rw (h, seek_loop) (rw ran (rw shown (rw (o, ◌>>=◌))))

  seek_loop_end :
      (fuel : ℕ) (it : BlockIterator) (start end : ℕ)
      → ltb start end ≡ false
      → seek_loop buf (suc fuel) it target start end ≡ seek_to buf it start
  unfolding seek_loop
  seek_loop_end fuel it start end h = rw (h, seek_loop)

  Found-trans :
      (it it1 : BlockIterator) (r s : Option BlockIterator)
      → r ≡ s
      → it1.block ≡ it.block
      → Found it1 s
      → Found it r
  Found-trans it it1 r s e same (it', p, ran, split, stands, block) =
      (it', p, e ∙ ran, split, stands, block ∙ same)

  abbrev Below : ℕ → Type 0
  Below n = (i : ℕ) (e : Entry) → i < n → get_elem? es i ≡ some e → cmp e.0 target ≡ Ordering.lt

  abbrev Above : ℕ → Type 0
  Above n = (i : ℕ) (e : Entry) → n ≤ i → get_elem? es i ≡ some e → is_lt (cmp e.0 target) ≡ false

  seek_loop-Found :
      (fuel : ℕ) (it : BlockIterator) (start end : ℕ)
      → IsOver buf it es
      → end - start < fuel
      → start ≤ end
      → end ≤ length es
      → Below start
      → Above end
      → Found it (seek_loop buf fuel it target start end)
  seek_loop-Found zero it start end over few ordered inside below above = absurd (omega arith)
  seek_loop-Found (suc fuel) it start end over few ordered inside below above =
      elim (Bool-cases (ltb start end)) [
        | inl more ↦
            let mid = (start + end) / 2 in
            let wider : start < end = ltb→lt start end more in
            let (e, at) = get_elem?-some es mid (omega arith) in
            let (it1, ran, shows, over1, idx, same) = seek_to-IsOver buf it es mid e over at in
            elim (Ordering-cases (cmp e.0 target)) [
              | inl o ↦
                  Found-trans it it1 _ _
                    (round_lt fuel it it1 start end e.0 (more, ran, shows.shows_key) o) same
                    (seek_loop-Found fuel it1 (mid + 1) end over1 (omega arith) (omega arith) inside
                      (below_mid mid e at o) above)
              | inr (inl o) ↦ (
                it1,
                mid,
                round_eq fuel it it1 start end e.0 (more, ran, shows.shows_key) o,
                record {
                  inside = omega arith;
                  below = λ i f h p.
                      subst (λ (t : Key). cmp f.0 t ≡ Ordering.lt) (eq_of_cmp e.0 target o)
                        (sorted i mid f e h p at);
                  above = above_mid mid e at (rw o);
                },
                (
                  λ f at'. subst (Shows it1) (some-injective _ _ (sym at ∙ at')) shows,
                  λ h. absurd (omega arith),
                ),
                same,
              )
              | inr (inr o) ↦
                  Found-trans it it1 _ _
                    (round_gt fuel it it1 start end e.0 (more, ran, shows.shows_key) o) same
                    (seek_loop-Found fuel it1 start mid over1 (omega arith) (omega arith)
                      (omega arith) below (above_mid mid e at (rw o)))
            ]
        | inr out ↦ Found-trans it it _ _ (seek_loop_end fuel it start end out) refl (
            stop it start over (record {
              inside = omega arith;
              below = below;
              above = λ i f h p. above i f (ltb-false_trans start end i out h) p;
            }))
      ]

  -- The search returns an iterator at the first entry whose key is not below the target, or past the
  -- last entry if there is none.
  pub seek_to_key-Found :
      (it : BlockIterator) → IsOver buf it es → Found it (seek_to_key buf it target)
  unfolding seek_to_key
  seek_to_key-Found it over =
      subst (λ (n : ℕ). Found it (seek_loop buf (suc n) it target 0 n))
        (sym
          (length-AllStored buf it.block.bytes it.first_key.bytes it.block.offsets es over.stored))
        (seek_loop-Found (suc (length es)) it 0 (length es) over (omega arith) (omega arith)
          (omega arith) (λ i e h. elim h [ ])
          (λ i e h p. absurd (omega (arith, get_elem?-lt es i e p))))
