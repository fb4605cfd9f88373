-- ===== src/Base64/Encode.antt =====
-- fbase64.c: the groups that f_b64_ntop writes, its lengths and its room.
use app_chat_again.Base64.{
  group3, group2, group1, f_b64_ntop, group_full, ◌∷◌, ntop_from, terminate,
}
use app_chat_again.Prelude.{
  Option, append_assoc, inr, ap₂, length-append, inl, leb, le→leb, ap, le→ltb, none, ◌∙◌,
  Bool-cases, if◌then◌else◌, ◌≤◌, append-nil, lt→leb, refl, [], arith, ◌++◌, ◌/◌, ◌*◌, some, ◌<◌,
  ◌≡◌, ◌+◌, length, ℕ, List,
}

-- Four characters for three bytes, and a padded group for what is left.
unfoldable pub groups : List ℕ → List ℕ
groups [] = []
groups (a ∷ []) = group1 a
groups (a ∷ b ∷ []) = group2 a b
groups (a ∷ b ∷ c ∷ src) = group3 a b c ++ groups src

length-group1 : (a : ℕ) → length (group1 a) ≡ 4
unfolding group1
length-group1 a = refl

length-group2 : (a b : ℕ) → length (group2 a b) ≡ 4
unfolding group2
length-group2 a b = refl

length-group3 : (a b c : ℕ) → length (group3 a b c) ≡ 4
unfolding group3
length-group3 a b c = refl

pub length-groups : (src : List ℕ) → length (groups src) ≡ 4 * ((length src + 2) / 3)
unfolding groups
length-groups [] = refl
length-groups (a ∷ []) = length-group1 a
length-groups (a ∷ b ∷ []) = length-group2 a b
length-groups (a ∷ b ∷ c ∷ src) =
    omega (arith, length-groups src, length-append (group3 a b c) (groups src), length-group3 a b c)

terminate_fits :
    (target : List ℕ) (targsize : ℕ)
    → length target < targsize
    → terminate target targsize ≡ (some (length target), target ++ (0 ∷ []))
unfolding terminate
terminate_fits target targsize h = rw (lt→leb targsize (length target) h)

terminate_group :
    (target group : List ℕ) (targsize : ℕ)
    → length group ≡ 4
    → length target + length group < targsize
    → (if group_full target targsize then (none, target) else terminate (target ++ group) targsize)
      ≡ (some (length target + length group), (target ++ group) ++ (0 ∷ []))
terminate_group target group targsize e h = rw (le→ltb targsize (length target + 4) (omega arith)) (
    terminate_fits (target ++ group) targsize (omega (arith, length-append target group))
    ∙ ap (λ n. (some n, (target ++ group) ++ (0 ∷ []))) (omega (arith, length-append target group)))

module _ (targsize : ℕ) where
  ntop_from-fits :
      (src target : List ℕ)
      → length target + length (groups src) < targsize
      → ntop_from src target targsize
        ≡ (some (length target + length (groups src)), (target ++ groups src) ++ (0 ∷ []))
  unfolding ntop_from groups
  ntop_from-fits [] target h = rw append-nil (
      terminate_fits target targsize (omega arith)
      ∙ ap (λ n. (some n, target ++ (0 ∷ []))) (omega arith))
  ntop_from-fits (a ∷ []) target h = terminate_group target (group1 a) targsize (length-group1 a) h
  ntop_from-fits (a ∷ b ∷ []) target h =
      terminate_group target (group2 a b) targsize (length-group2 a b) h
  ntop_from-fits (a ∷ b ∷ c ∷ src) target h =
      rw (le→ltb targsize (length target + 4) (omega (arith, tail, length-group3 a b c))) (
        ntop_from-fits src (target ++ group3 a b c) (omega (arith, longer, tail))
        ∙ ap₂ (λ n t. (some n, t ++ (0 ∷ []))) (omega (arith, longer, tail))
            (append_assoc target (group3 a b c) (groups src)))
    where
      longer : length (target ++ group3 a b c) ≡ length target + length (group3 a b c)
      longer = length-append target (group3 a b c)

      tail : length (group3 a b c ++ groups src) ≡ length (group3 a b c) + length (groups src)
      tail = length-append (group3 a b c) (groups src)

  terminate_bound :
      (target : List ℕ) → length target ≤ targsize → length (terminate target targsize).1 ≤ targsize
  unfolding terminate
  terminate_bound target h = elim (Bool-cases (leb targsize (length target))) [
    | inl full ↦ rw full h
    | inr room ↦ rw room (ground (arith, length-append target (0 ∷ [])))
  ]

  terminate_short :
      (target : List ℕ) → targsize ≤ length target → (terminate target targsize).0 ≡ none
  unfolding terminate
  terminate_short target h = rw (le→leb targsize (length target) h)

  -- A group that does not fit is not written.
  group_bound :
      (target group : List ℕ) (r : Option ℕ × List ℕ)
      → length target ≤ targsize
      → length group ≡ 4
      → (length (target ++ group) ≤ targsize → length r.1 ≤ targsize)
      → length (if group_full target targsize then (none, target) else r).1 ≤ targsize
  group_bound target group r h e k = elim (Bool-cases (group_full target targsize)) [
    | inl full ↦ rw full h
    | inr room ↦ rw room (k (ground (arith, length-append target group)))
  ]

  ntop_from-bound :
      (src target : List ℕ)
      → length target ≤ targsize
      → length (ntop_from src target targsize).1 ≤ targsize
  unfolding ntop_from
  ntop_from-bound [] target h = terminate_bound target h
  ntop_from-bound (a ∷ []) target h =
      group_bound target (group1 a) _ h (length-group1 a) (terminate_bound _)
  ntop_from-bound (a ∷ b ∷ []) target h =
      group_bound target (group2 a b) _ h (length-group2 a b) (terminate_bound _)
  ntop_from-bound (a ∷ b ∷ c ∷ src) target h =
      group_bound target (group3 a b c) _ h (length-group3 a b c) (ntop_from-bound src _)

  group_short :
      (target group : List ℕ) (r : Option ℕ × List ℕ)
      → (length (target ++ group) ≡ length target + length group → r.0 ≡ none)
      → (if group_full target targsize then (none, target) else r).0 ≡ none
  group_short target group r k = elim (Bool-cases (group_full target targsize)) [
    | inl full ↦ rw full
    | inr room ↦ rw room (k (length-append target group))
  ]

  ntop_from-short :
      (src target : List ℕ)
      → targsize ≤ length target + length (groups src)
      → (ntop_from src target targsize).0 ≡ none
  unfolding ntop_from groups
  ntop_from-short [] target h = terminate_short target (omega arith)
  ntop_from-short (a ∷ []) target h =
      group_short target (group1 a) _ (λ e. terminate_short (target ++ group1 a) (omega (arith, e)))
  ntop_from-short (a ∷ b ∷ []) target h =
      group_short target (group2 a b) _
        (λ e. terminate_short (target ++ group2 a b) (omega (arith, e)))
  ntop_from-short (a ∷ b ∷ c ∷ src) target h = group_short target (group3 a b c) _ (λ e.
      ntop_from-short src (target ++ group3 a b c)
        (omega (arith, e, length-append (group3 a b c) (groups src))))

-- f_b64_ntop succeeds exactly where the target has room for the groups and its terminator; then
-- it writes these and returns the length of the groups. On no path does it write past the target.
pub f_b64_ntop-groups :
    (src : List ℕ) (targsize : ℕ)
    → (length (groups src) < targsize
        → f_b64_ntop src targsize ≡ (some (length (groups src)), groups src ++ (0 ∷ [])))
      × (targsize ≤ length (groups src) → (f_b64_ntop src targsize).0 ≡ none)
      × (length (f_b64_ntop src targsize).1 ≤ targsize)
unfolding f_b64_ntop
f_b64_ntop-groups src targsize = (
  λ h.
      ntop_from-fits targsize src [] (omega arith)
      ∙ ap (λ n. (some n, groups src ++ (0 ∷ []))) (omega arith),
  λ h. ntop_from-short targsize src [] (omega arith),
  ntop_from-bound targsize src [] (omega arith),
)
