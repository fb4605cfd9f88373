-- ===== src/Nanopb/FieldIter/Find.antt =====
-- AppChat_Again/Pods/nanopb/pb_common.c: pb_field_iter_find searches the whole message, once.
use app_chat_again.Nanopb.FieldIter.{
  pb_field_iter_next, pb_field_iter_find, field_at, find_loop, is_wanted, Iter,
}
use native.Mathlib.Decide.{ℕ_discrete, dec_lt}
use app_chat_again.Nanopb.Types.{Field}
use app_chat_again.Prelude.{
  refl, ==_iff, if◌then◌else◌, ap₂, zero, sym, inr, inl, lt→ltb, Bool-cases, ◌==◌, le→ltb, ◌∙◌, ◌+◌,
  ◌-◌, subst, ◌≢◌, suc, ◌⊎◌, true, false, ◌≡◌, length, ◌<◌, arith, Bool, ◌≤◌, ℕ, List,
}
use app_chat_again.Nanopb.FieldIter.Walk.{
  IsMessage, at_position, at_position-Stands, current-at_position, pb_field_iter_next-at_position,
}

-- No field from `lo` up to `hi` has the tag.
abbrev pub Misses : List Field → ℕ → ℕ → ℕ → Type 0
Misses fields tag lo hi = (j : ℕ) → lo ≤ j → j < hi → is_wanted tag (field_at fields j) ≡ false

-- What a search from the field `i` comes to.
abbrev pub Searched : List Field → ℕ → ℕ → ℕ → Bool × Iter → Type 0
Searched fields dest_struct tag i result =
    ((j : ℕ) × (j < length fields)
      × (is_wanted tag (field_at fields j) ≡ true)
      × (result ≡ (true, at_position fields dest_struct j)))
    ⊎ (Misses fields tag 0 (length fields) × (result ≡ (false, at_position fields dest_struct i)))

Misses-next :
    (fields : List Field) (tag lo hi : ℕ)
    → Misses fields tag lo hi
    → is_wanted tag (field_at fields hi) ≡ false
    → Misses fields tag lo (suc hi)
Misses-next fields tag lo hi m e j h k = elim (dec_lt j hi) [
  | yes below ↦ m j h below
  | no above ↦ subst (λ t. is_wanted tag (field_at fields t) ≡ false) (omega arith) e
]

Misses-append :
    (fields : List Field) (tag lo mid hi : ℕ)
    → Misses fields tag lo mid
    → Misses fields tag mid hi
    → Misses fields tag lo hi
Misses-append fields tag lo mid hi m k j h l = elim (dec_lt j mid) [
  | yes below ↦ m j h below
  | no above ↦ k j (omega arith) l
]

module _ (fields : List Field) (dest_struct tag origin : ℕ) (m : IsMessage fields) where
  abbrev at : ℕ → Iter
  at = at_position fields dest_struct

  next_inside : (k : ℕ) → suc k < length fields → pb_field_iter_next (at k) ≡ (true, at (suc k))
  next_inside k h = rw (
    pb_field_iter_next-at_position fields dest_struct k m (omega arith),
    lt→ltb (k + 1) (length fields) (omega arith),
  )

  next_last : (k : ℕ) → suc k ≡ length fields → pb_field_iter_next (at k) ≡ (false, at 0)
  next_last k h = rw (
    pb_field_iter_next-at_position fields dest_struct k m (omega arith),
    le→ltb (k + 1) (length fields) (omega arith),
  )

  position-at : (k : ℕ) → (at k).position ≡ k
  position-at k = (at_position-Stands fields dest_struct k).at_index

  round_hit :
      (fuel k : ℕ)
      → is_wanted tag (field_at fields k) ≡ true
      → find_loop (suc fuel) origin tag (at k) ≡ (true, at k)
  unfolding find_loop
  round_hit fuel k w = rw (current-at_position fields dest_struct k, w)

  -- A round that misses goes on to where the iterator steps.
  round_miss :
      (fuel k k' : ℕ) (b : Bool)
      → is_wanted tag (field_at fields k) ≡ false
      → pb_field_iter_next (at k) ≡ (b, at k')
      → find_loop (suc fuel) origin tag (at k)
        ≡ (if k' == origin then (false, at k') else find_loop fuel origin tag (at k'))
  unfolding find_loop
  round_miss fuel k k' b w e = rw (current-at_position fields dest_struct k, w, e, position-at k')

  round_end :
      (fuel k k' : ℕ) (b : Bool)
      → is_wanted tag (field_at fields k) ≡ false
      → pb_field_iter_next (at k) ≡ (b, at k')
      → k' ≡ origin
      → find_loop (suc fuel) origin tag (at k) ≡ (false, at origin)
  round_end fuel k k' b w e h =
      round_miss fuel k k' b w e
      ∙ subst
          (λ t.
            (if t == origin then (false, at t) else find_loop fuel origin tag (at t))
            ≡ (false, at origin))
          (sym h) (rw ((==_iff origin origin).1 refl))

  round_on :
      (fuel k k' : ℕ) (b : Bool)
      → is_wanted tag (field_at fields k) ≡ false
      → pb_field_iter_next (at k) ≡ (b, at k')
      → k' ≢ origin
      → find_loop (suc fuel) origin tag (at k) ≡ find_loop fuel origin tag (at k')
  round_on fuel k k' b w e h =
      let other : (k' == origin) ≡ false = ground arith in round_miss fuel k k' b w e ∙ rw other

  -- The second part of the search, from the first field up to where it began.
  search_before :
      (fuel k : ℕ)
      → k < origin
      → origin < length fields
      → origin ≤ fuel + k
      → Misses fields tag origin (length fields)
      → Misses fields tag 0 k
      → Searched fields dest_struct tag origin (find_loop fuel origin tag (at k))
  search_before zero k h n f late early = absurd (omega arith)
  search_before (suc fuel) k h n f late early =
      elim (Bool-cases (is_wanted tag (field_at fields k))) [
        | inl hit ↦ inl (k, omega arith, hit, round_hit fuel k hit)
        | inr miss ↦
            let next = next_inside k (omega arith) in
            let seen = Misses-next fields tag 0 k early miss in
            elim (ℕ_discrete (suc k) origin) [
              | yes back ↦ inr (
                Misses-append fields tag 0 origin (length fields)
                    (subst (Misses fields tag 0) back seen) late,
                round_end fuel k (suc k) true miss next back,
              )
              | no on ↦
                  subst (Searched fields dest_struct tag origin)
                    (sym (round_on fuel k (suc k) true miss next on))
                    (search_before fuel (suc k) (omega arith) n (omega arith) late seen)
            ]
      ]

  -- The first part, from where the search began up to the last field.
  search_from :
      (fuel k : ℕ)
      → origin ≤ k
      → k < length fields
      → length fields - k + origin ≤ fuel
      → Misses fields tag origin k
      → Searched fields dest_struct tag origin (find_loop fuel origin tag (at k))
  search_from zero k h n f seen = absurd (omega arith)
  search_from (suc fuel) k h n f seen = elim (Bool-cases (is_wanted tag (field_at fields k))) [
    | inl hit ↦ inl (k, n, hit, round_hit fuel k hit)
    | inr miss ↦
        let seen' = Misses-next fields tag origin k seen miss in
        elim (dec_lt (suc k) (length fields)) [
          | yes more ↦
              subst (Searched fields dest_struct tag origin)
                (sym (round_on fuel k (suc k) true miss (next_inside k more) (omega arith)))
                (search_from fuel (suc k) (omega arith) more (omega arith) seen')
          | no last ↦
              let end : suc k ≡ length fields = omega arith in
              let late = subst (Misses fields tag origin) end seen' in
              elim (ℕ_discrete 0 origin) [
                | yes back ↦ inr (
                  subst (λ t. Misses fields tag t (length fields)) (sym back) late,
                  round_end fuel k 0 false miss (next_last k end) back,
                )
                | no on ↦
                    subst (Searched fields dest_struct tag origin)
                      (sym (round_on fuel k 0 false miss (next_last k end) on))
                      (search_before fuel 0 (omega arith) (omega arith) (omega arith) late
                        (λ j l r. absurd (omega arith)))
              ]
        ]
  ]

-- From any field of a message, pb_field_iter_find answers `true` at a field with the tag that is no
-- extension, where there is one, with the pointers of that field; else it answers `false`, no
-- field has the tag, and the iterator is back where it was. It ends after one round.
pub pb_field_iter_find-Searched :
    (fields : List Field) (dest_struct tag i : ℕ)
    → IsMessage fields
    → i < length fields
    → Searched fields dest_struct tag i (pb_field_iter_find tag (at_position fields dest_struct i))
unfolding pb_field_iter_find
pb_field_iter_find-Searched fields dest_struct tag i m h =
    let s = at_position-Stands fields dest_struct i in
    let iter = at_position fields dest_struct i in
    let here = ap₂ (λ fs p. find_loop (length fs + 1) p tag iter) s.over s.at_index in
    subst (Searched fields dest_struct tag i) (sym here) (
      search_from fields dest_struct tag i m (length fields + 1) i (omega arith) h (omega arith)
        (λ j l r. absurd (omega arith)))
