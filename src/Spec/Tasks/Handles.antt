-- ===== src/Spec/Tasks/Handles.antt =====
-- src/mcp_quality/engines/tasks_checks.py: the handles that `_WEAK_HANDLE` takes, without its regex.
use mathlib.Core.List.{append_assoc}
use mcp_probe.Base.{
  not, str_empty, String, Bool, List, ℕ, ◌≡◌, ◌↔◌, ◌⊎◌, [], ◌∷◌, ◌++◌, true, false, all, map,
  length, ◌<◌, ◌||◌, ◌&&◌, ◌==◌, codes, refl, arith, zero, suc, inl, inr, Bool-cases, ◌∙◌, ap, sym,
  str_eq_iff,
}
use mcp_probe.Base.Regex.{Wide, is_digit, fold_code, at_end}
use mcp_probe.Spec.Tasks.{is_weak}
use mcp_probe.Spec.Tasks.Matching.{
  digits_left, number_left, sep_left, task_left, matches_in-weak_handle,
}

of_and : (a b : Bool) → (a && b) ≡ true → (a ≡ true) × (b ≡ true)
of_and a b h = (ground arith, ground arith)

eq_of_test : (n m : ℕ) → (n == m) ≡ true → n ≡ m
eq_of_test n m h = ground arith

test_of_eq : (n m : ℕ) → n ≡ m → (n == m) ≡ true
test_of_eq n m h = ground arith

abbrev code_at : ℕ → List ℕ → ℕ
code_at n [] = 0
code_at zero (c ∷ cs) = c
code_at (suc n) (c ∷ cs) = code_at n cs

-- Nothing, or a newline.
abbrev pub IsEnd : List ℕ → Type 0
IsEnd rest = (rest ≡ []) ⊎ (rest ≡ 10 ∷ [])

-- A `-`, a `_`, or nothing.
abbrev pub IsSep : List ℕ → Type 0
IsSep sep = (sep ≡ []) ⊎ ((sep ≡ codes "-") ⊎ (sep ≡ codes "_"))

-- `task` in any case, with a `-` or a `_` or nothing behind it.
abbrev pub IsTaskPrefix : List ℕ → Type 0
IsTaskPrefix prefix =
    (word sep : List ℕ) × (prefix ≡ word ++ sep)
    × (map fold_code word ≡ codes "task")
    × ((sep ≡ []) ⊎ ((sep ≡ codes "-") ⊎ (sep ≡ codes "_")))

of_at_end : (cs : List ℕ) → at_end cs ≡ true → IsEnd cs
of_at_end [] h = inl refl
of_at_end (c ∷ []) h = inr (ap (λ n. n ∷ []) (ground arith))
of_at_end (c ∷ d ∷ cs) h = absurd (cc)

module _ (wide : Wide) where
  -- At least one digit, and nothing else but a newline at the end.
  abbrev pub IsNumber : List ℕ → Type 0
  IsNumber cs =
      (digits rest : List ℕ) × (cs ≡ digits ++ rest)
      × (0 < length digits)
      × (all (is_digit wide) digits ≡ true)
      × IsEnd rest

  -- A counter, alone or behind `task`.
  abbrev pub IsSequential : List ℕ → Type 0
  IsSequential cs =
      IsNumber cs
      ⊎ ((prefix number : List ℕ) × (cs ≡ prefix ++ number) × IsTaskPrefix prefix × IsNumber number)

  -- What the tests on the code points say.
  of_digits_left :
      (cs : List ℕ)
      → digits_left wide cs ≡ true
      → (digits rest : List ℕ) × (cs ≡ digits ++ rest)
        × (all (is_digit wide) digits ≡ true)
        × IsEnd rest
  of_digits_left [] h = ([], [], refl, refl, inl refl)
  of_digits_left (c ∷ cs) h = elim (Bool-cases (at_end (c ∷ cs))) [
    | inl ends ↦ ([], c ∷ cs, refl, refl, of_at_end (c ∷ cs) ends)
    | inr more ↦
        let (digits, rest, same, fit, end) = of_digits_left cs (ground arith) in
        (c ∷ digits, rest, ap (λ l. c ∷ l) same, ground arith, end)
  ]

  digits_left_of :
      (digits rest : List ℕ)
      → all (is_digit wide) digits ≡ true
      → IsEnd rest
      → digits_left wide (digits ++ rest) ≡ true
  digits_left_of [] rest fit (inl bare) = rw bare refl
  digits_left_of [] rest fit (inr line) = rw line refl
  digits_left_of (c ∷ digits) rest fit end =
      ground (arith, digits_left_of digits rest (ground arith) end)

  number_of :
      (cs digits rest : List ℕ)
      → cs ≡ digits ++ rest
      → 0 < length digits
      → all (is_digit wide) digits ≡ true
      → IsEnd rest
      → number_left wide cs ≡ true
  number_of cs [] rest same some_digit fit end = absurd (omega arith)
  number_of cs (c ∷ digits) rest same some_digit fit end =
      rw same (ground (arith, digits_left_of digits rest (ground arith) end))

  number_left-IsNumber_iff : (cs : List ℕ) → (number_left wide cs ≡ true) ↔ IsNumber cs
  number_left-IsNumber_iff [] = (
    λ h. absurd (cc),
    λ (digits, rest, same, some_digit, fit, end). number_of [] digits rest same some_digit fit end,
  )
  number_left-IsNumber_iff (c ∷ cs) = (
    λ h.
        let (digits, rest, same, fit, end) = of_digits_left cs (ground arith) in
        (c ∷ digits, rest, ap (λ l. c ∷ l) same, omega arith, ground arith, end),
    λ (digits, rest, same, some_digit, fit, end).
        number_of (c ∷ cs) digits rest same some_digit fit end,
  )

  sep_left_of_number : (cs : List ℕ) → number_left wide cs ≡ true → sep_left wide cs ≡ true
  sep_left_of_number [] h = absurd (cc)
  sep_left_of_number (c ∷ cs) h = ground arith

  of_sep_left :
      (cs : List ℕ)
      → sep_left wide cs ≡ true
      → (sep number : List ℕ) × (cs ≡ sep ++ number) × IsSep sep × IsNumber number
  of_sep_left [] h = absurd (cc)
  of_sep_left (c ∷ cs) h = elim (Bool-cases (number_left wide (c ∷ cs))) [
    | inl hit ↦ ([], c ∷ cs, refl, inl refl, (number_left-IsNumber_iff (c ∷ cs)).0 hit)
    | inr miss ↦
        let number = (number_left-IsNumber_iff cs).0 (ground arith) in
        elim (Bool-cases (c == 45)) [
          | inl dash ↦
              (c ∷ [], cs, refl, inr (inl (ap (λ n. n ∷ []) (eq_of_test c 45 dash))), number)
          | inr other ↦ (
            c ∷ [],
            cs,
            refl,
            inr (inr (ap (λ n. n ∷ []) (eq_of_test c 95 (ground arith)))),
            number,
          )
        ]
  ]

  sep_left_of :
      (sep number : List ℕ)
      → IsSep sep
      → number_left wide number ≡ true
      → sep_left wide (sep ++ number) ≡ true
  sep_left_of sep number (inl bare) h = rw bare (sep_left_of_number number h)
  sep_left_of sep number (inr (inl dash)) h = rw dash (ground arith)
  sep_left_of sep number (inr (inr line)) h = rw line (ground arith)

  of_task_left :
      (cs : List ℕ)
      → task_left wide cs ≡ true
      → (prefix number : List ℕ) × (cs ≡ prefix ++ number) × IsTaskPrefix prefix × IsNumber number
  of_task_left [] h = absurd (cc)
  of_task_left (a ∷ []) h = absurd (cc)
  of_task_left (a ∷ b ∷ []) h = absurd (cc)
  of_task_left (a ∷ b ∷ c ∷ []) h = absurd (cc)
  of_task_left (a ∷ b ∷ c ∷ d ∷ cs) h =
      let (ha, rest_a) = of_and (fold_code a == 116) _ h in
      let (hb, rest_b) = of_and (fold_code b == 97) _ rest_a in
      let (hc, rest_c) = of_and (fold_code c == 115) _ rest_b in
      let (hd, left) = of_and (fold_code d == 107) _ rest_c in
      let (sep, number, same, fit, counts) = of_sep_left cs left in
      (
        a ∷ b ∷ c ∷ d ∷ sep,
        number,
        ap (λ l. a ∷ b ∷ c ∷ d ∷ l) same,
        (
          a ∷ b ∷ c ∷ d ∷ [],
          sep,
          refl,
          (λ i.
              eq_of_test (fold_code a) 116 ha i
              ∷ eq_of_test (fold_code b) 97 hb i
              ∷ eq_of_test (fold_code c) 115 hc i
              ∷ eq_of_test (fold_code d) 107 hd i
              ∷ []),
          fit,
        ),
        counts,
      )

  task_left_of :
      (word sep : List ℕ)
      → map fold_code word ≡ codes "task"
      → sep_left wide sep ≡ true
      → task_left wide (word ++ sep) ≡ true
  task_left_of [] sep spelt h = absurd (cc)
  task_left_of (a ∷ []) sep spelt h = absurd (cc)
  task_left_of (a ∷ b ∷ []) sep spelt h = absurd (cc)
  task_left_of (a ∷ b ∷ c ∷ []) sep spelt h = absurd (cc)
  task_left_of (a ∷ b ∷ c ∷ d ∷ []) sep spelt h =
      rw
        (
          test_of_eq (fold_code a) 116 (ap (code_at 0) spelt),
          test_of_eq (fold_code b) 97 (ap (code_at 1) spelt),
          test_of_eq (fold_code c) 115 (ap (code_at 2) spelt),
          test_of_eq (fold_code d) 107 (ap (code_at 3) spelt),
        )
        h
  task_left_of (a ∷ b ∷ c ∷ d ∷ e ∷ l) sep spelt h = absurd (cc)

  weak_of : (cs : List ℕ) → IsSequential cs → (number_left wide cs || task_left wide cs) ≡ true
  weak_of cs (inl number) = ground (arith, (number_left-IsNumber_iff cs).1 number)
  weak_of cs (inr (prefix, number, same, (word, sep, parts, spelt, fit), counts)) =
      let split : cs ≡ word ++ (sep ++ number) =
        same ∙ (ap (λ l. l ++ number) parts ∙ append_assoc word sep number) in
      let left : task_left wide cs ≡ true = rw split (
        task_left_of word (sep ++ number) spelt
          (sep_left_of sep number fit ((number_left-IsNumber_iff number).1 counts))) in
      ground arith

  -- The pattern takes a handle exactly where it is digits alone, or `task` in any case, then a `-`,
  -- a `_` or nothing, then digits, with at most a newline at the end.
  pub is_weak-IsSequential_iff :
      (task_id : String) → (is_weak wide task_id ≡ true) ↔ IsSequential (codes task_id)
  unfolding is_weak
  is_weak-IsSequential_iff task_id = (
    λ h.
        let (filled, hit) = of_and (not (str_empty task_id)) _ h in
        let found = sym (matches_in-weak_handle wide (codes task_id)) ∙ hit in
        elim (Bool-cases (number_left wide (codes task_id))) [
          | inl hit ↦ inl ((number_left-IsNumber_iff (codes task_id)).0 hit)
          | inr miss ↦ inr (of_task_left (codes task_id) (ground arith))
        ],
    λ sequential.
        let found = weak_of (codes task_id) sequential in
        elim (Bool-cases (str_empty task_id)) [
          | inl bare ↦
              let named : task_id ≡ "" = (str_eq_iff task_id "").0 bare in
              absurd (let no : false ≡ true = rw named at found in cc)
          | inr filled ↦ rw (filled, matches_in-weak_handle wide (codes task_id)) found
        ],
  )
