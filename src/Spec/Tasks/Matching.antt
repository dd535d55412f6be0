-- ===== src/Spec/Tasks/Matching.antt =====
-- src/mcp_quality/engines/tasks_checks.py: what a match of `_WEAK_HANDLE` reads, code point by code
-- point.
use mcp_probe.Base.{
  Bool, List, ℕ, Option, ◌≡◌, [], ◌∷◌, true, false, length, ◌≤◌, is_some, ltb, ◌||◌, ◌&&◌, ◌==◌,
  refl, arith, some, none, zero, suc, inl, inr, Bool-cases, ◌∙◌, ap, if◌then◌else◌,
}
use mcp_probe.Base.Regex.{
  then_, optional, seq, text, Wide, Cursor, or_else, is_digit, fold_code, run, repeat, match_at,
  matches_in, one, some_of, at_end,
}
use mcp_probe.Spec.Tasks.{weak_handle}

is_some-or_else : {A : Type 0} (a b : Option A) → is_some (or_else a b) ≡ (is_some a || is_some b)
is_some-or_else none b = refl
is_some-or_else (some a) b = refl

is_some-or_else-some : {A : Type 0} (a : Option A) (b : A) → is_some (or_else a (some b)) ≡ true
is_some-or_else-some none b = refl
is_some-or_else-some (some a) b = refl

is_some-or_else-none : {A : Type 0} (a : Option A) → is_some (or_else a none) ≡ is_some a
is_some-or_else-none none = refl
is_some-or_else-none (some a) = refl

is_some-if :
    {A : Type 0} (b : Bool) (o : Option A) → is_some (if b then o else none) ≡ (b && is_some o)
is_some-if true o = refl
is_some-if false o = refl

and_false : (b : Bool) → (b && false) ≡ false
and_false true = refl
and_false false = refl

before_suc : (n : ℕ) → ltb n (suc n) ≡ true
before_suc n = ground arith

module _ (wide : Wide) where
  -- The code points that are left after digits.
  abbrev pub digits_left : List ℕ → Bool
  digits_left [] = true
  digits_left (c ∷ cs) = at_end (c ∷ cs) || (is_digit wide c && digits_left cs)

  abbrev pub number_left : List ℕ → Bool
  number_left [] = false
  number_left (c ∷ cs) = is_digit wide c && digits_left cs

  abbrev to_end : Cursor → Option (List ℕ)
  to_end there = if at_end there.rest then some there.rest else none

  repeat-digits_left :
      (rounds : ℕ) (before : Option ℕ) (cs : List ℕ)
      → length cs ≤ rounds
      → is_some (
          repeat rounds
            (run wide (one (is_digit wide)))
            (record { before = before; rest = cs })
            to_end)
        ≡ digits_left cs
  unfolding repeat run
  repeat-digits_left zero before [] h = refl
  repeat-digits_left zero before (c ∷ cs) h = absurd (omega arith)
  repeat-digits_left (suc n) before [] h = refl
  repeat-digits_left (suc n) before (c ∷ cs) h =
      let later = repeat-digits_left n (some c) cs (omega arith) in
      elim (Bool-cases (is_digit wide c)) [
        | inl digit ↦ elim (Bool-cases (at_end (c ∷ cs))) [
          | inl ends ↦
              rw (digit, ends) (rw (before_suc (length cs)) (is_some-or_else-some _ (c ∷ cs)))
          | inr more ↦
              rw (digit, more) (rw (before_suc (length cs)) (is_some-or_else-none _ ∙ later))
        ]
        | inr other ↦ elim (Bool-cases (at_end (c ∷ cs))) [
          | inl ends ↦ rw (other, ends) refl
          | inr more ↦ rw (other, more) refl
        ]
      ]

  run-number_left :
      (before : Option ℕ) (cs : List ℕ)
      → is_some
          (run wide (some_of (one (is_digit wide))) (record { before = before; rest = cs }) to_end)
        ≡ number_left cs
  unfolding run
  run-number_left before [] = refl
  run-number_left before (c ∷ cs) = elim (Bool-cases (is_digit wide c)) [
    | inl digit ↦ rw digit (repeat-digits_left (length cs) (some c) cs (omega arith))
    | inr other ↦ rw other refl
  ]

  abbrev pub sep_left : List ℕ → Bool
  sep_left [] = false
  sep_left (c ∷ cs) = (((c == 45) || (c == 95)) && number_left cs) || number_left (c ∷ cs)

  abbrev pub task_left : List ℕ → Bool
  task_left (a ∷ b ∷ c ∷ d ∷ cs) =
      (fold_code a == 116)
      && ((fold_code b == 97) && ((fold_code c == 115) && ((fold_code d == 107) && sep_left cs)))
  task_left _ = false

  run-sep_left :
      (before : Option ℕ) (cs : List ℕ)
      → is_some (
          run wide
            (then_ (optional (one (λ c. (c == 45) || (c == 95)))) (some_of (one (is_digit wide))))
            (record { before = before; rest = cs })
            to_end)
        ≡ sep_left cs
  unfolding run
  run-sep_left before [] = refl
  run-sep_left before (c ∷ cs) =
      is_some-or_else _ (
        run wide (some_of (one (is_digit wide))) (record { before = before; rest = c ∷ cs }) to_end)
      ∙ (λ i.
          (is_some-if ((c == 45) || (c == 95)) (
                run wide (some_of (one (is_digit wide))) (record { before = some c; rest = cs })
                  to_end)
              ∙ ap (λ v. ((c == 45) || (c == 95)) && v) (run-number_left (some c) cs))
            i
          || run-number_left before (c ∷ cs) i)

  run-task_left :
      (before : Option ℕ) (cs : List ℕ)
      → is_some (
          run wide
            (seq (
              text true "task"
              ∷ optional (one (λ c. (c == 45) || (c == 95)))
              ∷ some_of (one (is_digit wide))
              ∷ []))
            (record { before = before; rest = cs })
            to_end)
        ≡ task_left cs
  unfolding run
  run-task_left before [] = refl
  run-task_left before (a ∷ []) = is_some-if (fold_code a == 116) none ∙ and_false _
  run-task_left before (a ∷ b ∷ []) =
      is_some-if (fold_code a == 116) _
      ∙ ap (λ v. (fold_code a == 116) && v) (is_some-if (fold_code b == 97) none ∙ and_false _)
      ∙ and_false _
  run-task_left before (a ∷ b ∷ c ∷ []) =
      is_some-if (fold_code a == 116) _
      ∙ ap (λ v. (fold_code a == 116) && v)
          (is_some-if (fold_code b == 97) _
            ∙ ap (λ v. (fold_code b == 97) && v)
                (is_some-if (fold_code c == 115) none ∙ and_false _)
            ∙ and_false _)
      ∙ and_false _
  run-task_left before (a ∷ b ∷ c ∷ d ∷ cs) =
      is_some-if (fold_code a == 116) _
      ∙ ap (λ v. (fold_code a == 116) && v)
          (is_some-if (fold_code b == 97) _
            ∙ ap (λ v. (fold_code b == 97) && v)
                (is_some-if (fold_code c == 115) _
                  ∙ ap (λ v. (fold_code c == 115) && v)
                      (is_some-if (fold_code d == 107) _
                        ∙ ap (λ v. (fold_code d == 107) && v) (run-sep_left (some d) cs))))

  pub matches_in-weak_handle :
      (cs : List ℕ) → matches_in wide (weak_handle wide) cs ≡ (number_left cs || task_left cs)
  unfolding weak_handle match_at run
  matches_in-weak_handle cs =
      is_some-or_else
        (run wide (some_of (one (is_digit wide))) (record { before = none; rest = cs }) to_end) _
      ∙ (λ i. run-number_left none cs i || run-task_left none cs i)
