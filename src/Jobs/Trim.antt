-- ===== src/Jobs/Trim.antt =====
-- trimHistoryLocked bounds the history, drops finished jobs only, and leaves the others alone.
use native.Mathlib.Nat.{le_refl}
use log_integrity.Prelude.{
  ℕ, zero, suc, ◌≤◌, ◌≡◌, refl, sym, ap, In, ap₂, ◌∙◌, ◌⊎◌, inl, inr, true, false, Option, none,
  some, List, [], ◌∷◌, arith, Text, ◌==◌, text_eq, text_beq_iff, if◌then◌else◌, Bool-cases, length,
  ltb,
}
use log_integrity.Prelude.GoMap.{GoMap, get, get-delete, length-delete-lt}
use log_integrity.Prelude.Int.{pos, pos_part, leb_ℤ}
use log_integrity.Models.{Job}
use log_integrity.Jobs.{
  Manager, is_terminal_job_status, first_terminal, with_first, drop_job, trim_loop, trim_history,
}

-- What the scan finds is a stored, finished job.
pub first_terminal-some :
    (jobs : GoMap Text Job) (order : List Text) (id : Text) (job : Job) (rest : List Text)
    → first_terminal jobs order ≡ some (id, job, rest)
    → (get jobs id ≡ some job) × (is_terminal_job_status job.status ≡ true)
unfolding first_terminal
first_terminal-some jobs [] id job rest h = cc
first_terminal-some jobs (x ∷ order) id job rest h =
    pick (get jobs x) refl (first_terminal jobs order) refl h
      (λ r. first_terminal-some jobs order id job r)
  where
    later :
        (o : Option (Text × Job × List Text))
        → first_terminal jobs order ≡ o
        → with_first x o ≡ some (id, job, rest)
        → ((r : List Text)
            → first_terminal jobs order ≡ some (id, job, r)
            → (get jobs id ≡ some job) × (is_terminal_job_status job.status ≡ true))
        → (get jobs id ≡ some job) × (is_terminal_job_status job.status ≡ true)
    later none p q ih = cc
    later (some (i, j, r)) p q ih = ih r (p ∙ ap₂ (λ u v. some (u, v, r)) (cc) (cc))

    pick :
        (o : Option Job)
        → get jobs x ≡ o
        → (l : Option (Text × Job × List Text)) → first_terminal jobs order ≡ l
        → elim o [
          | none ↦ with_first x l
          | some j ↦ if is_terminal_job_status j.status then some (x, j, order) else with_first x l
        ]
          ≡ some (id, job, rest)
        → ((r : List Text)
            → first_terminal jobs order ≡ some (id, job, r)
            → (get jobs id ≡ some job) × (is_terminal_job_status job.status ≡ true))
        → (get jobs id ≡ some job) × (is_terminal_job_status job.status ≡ true)
    pick none g l p q ih = later l p q ih
    pick (some j) g l p q ih = elim (Bool-cases (is_terminal_job_status j.status)) [
      | inl t ↦ ground arith
      | inr t ↦ later l p (rw t at q) ih
    ]

-- If the scan finds nothing, no stored job of the order is finished.
first_terminal-none :
    (jobs : GoMap Text Job) (order : List Text)
    → first_terminal jobs order ≡ none
    → (id : Text) (job : Job) → In id order
    → get jobs id ≡ some job
    → is_terminal_job_status job.status ≡ false
unfolding first_terminal
first_terminal-none jobs [] h id job i g = elim i [ ]
first_terminal-none jobs (x ∷ order) h id job i g =
    pick (get jobs x) refl (first_terminal jobs order) refl h i
      (λ q j. first_terminal-none jobs order q id job j g)
  where
    Rest : Type 0
    Rest =
        first_terminal jobs order ≡ none → In id order → is_terminal_job_status job.status ≡ false

    with_first-none : (l : Option (Text × Job × List Text)) → with_first x l ≡ none → l ≡ none
    with_first-none none q = refl
    with_first-none (some found) q = cc

    later :
        (l : Option (Text × Job × List Text))
        → first_terminal jobs order ≡ l
        → with_first x l ≡ none
        → In id order
        → Rest
        → is_terminal_job_status job.status ≡ false
    later l p q j ih = ih (p ∙ with_first-none l q) j

    pick :
        (o : Option Job)
        → get jobs x ≡ o
        → (l : Option (Text × Job × List Text)) → first_terminal jobs order ≡ l
        → elim o [
          | none ↦ with_first x l
          | some j ↦ if is_terminal_job_status j.status then some (x, j, order) else with_first x l
        ]
          ≡ none
        → In id (x ∷ order)
        → Rest
        → is_terminal_job_status job.status ≡ false
    pick none e l p q (inl same) ih = absurd (clash (sym g ∙ ap (get jobs) same ∙ e))
      where
        clash : some job ≡ none → ⊥
        clash r = cc
    pick none e l p q (inr j) ih = later l p q j ih
    pick (some k) e l p q i ih = elim (Bool-cases (is_terminal_job_status k.status)) [
      | inl t ↦ ground arith
      | inr t ↦ elim i [
        | inl same ↦
            ap (λ (y : Job). is_terminal_job_status y.status)
              (some_inj (sym g ∙ ap (get jobs) same ∙ e))
            ∙ t
        | inr j ↦ later l p (rw t at q) j ih
      ]
    ]
      where
        some_inj : {a b : Job} → some a ≡ some b → a ≡ b
        some_inj r = cc

-- How a round changes the jobs.
pub get-drop_job :
    (m : Manager) (id : Text) (job : Job) (rest : List Text) (k : Text)
    → get (drop_job m (id, job, rest)).jobs k ≡ (if id == k then none else get m.jobs k)
unfolding drop_job
get-drop_job m id job rest k = get-delete m.jobs id k

-- The history fits its limit, or no stored job of the order is finished.
abbrev pub IsTrimmed : Manager → Type 0
IsTrimmed m =
    (length m.jobs ≤ pos_part m.opts.history_limit)
    ⊎ ((id : Text) (job : Job)
        → In id m.order
        → get m.jobs id ≡ some job
        → is_terminal_job_status job.status ≡ false)

trim_loop-IsTrimmed :
    (rounds : ℕ) (m : Manager) → length m.jobs ≤ rounds → IsTrimmed (trim_loop rounds m)
unfolding trim_loop
trim_loop-IsTrimmed zero m h = inl (omega arith)
trim_loop-IsTrimmed (suc rounds) m h =
    elim (Bool-cases (ltb (pos_part m.opts.history_limit) (length m.jobs))) [
      | inr fits ↦ rw fits (inl (ground arith))
      | inl over ↦ rw over (
          scan (first_terminal m.jobs m.order) refl
            (λ found. trim_loop-IsTrimmed rounds (drop_job m found)))
    ]
  where
    scan :
        (o : Option (Text × Job × List Text))
        → first_terminal m.jobs m.order ≡ o
        → ((found : Text × Job × List Text)
            → length (drop_job m found).jobs ≤ rounds
            → IsTrimmed (trim_loop rounds (drop_job m found)))
        → IsTrimmed (elim o [ none ↦ m | some found ↦ trim_loop rounds (drop_job m found) ])
    scan none q ih = inr (first_terminal-none m.jobs m.order q)
    scan (some (id, job, rest)) q ih =
        ih (id, job, rest)
          (omega (
            arith,
            length-delete-lt m.jobs id job (first_terminal-some m.jobs m.order id job rest q).0,
          ))

-- With a positive limit, after a trim the history fits the limit, or no stored job of the order
-- is finished.
pub trim_history-IsTrimmed :
    (m : Manager) → leb_ℤ m.opts.history_limit (pos 0) ≡ false → IsTrimmed (trim_history m)
unfolding trim_history
trim_history-IsTrimmed m h = rw h (trim_loop-IsTrimmed (length m.jobs) m (le_refl (length m.jobs)))

-- A predicate that dropping a finished job keeps holds after a trim.
pub trim_history_induction :
    (P : Manager → Type 0)
    → ((m : Manager) (id : Text) (job : Job) (rest : List Text)
        → first_terminal m.jobs m.order ≡ some (id, job, rest)
        → P m
        → P (drop_job m (id, job, rest)))
    → (m : Manager) → P m
    → P (trim_history m)
unfolding trim_history
trim_history_induction P step m p = elim (Bool-cases (leb_ℤ m.opts.history_limit (pos 0))) [
  | inl off ↦ rw off p
  | inr on ↦ rw on (loop (length m.jobs) m p)
]
  where
    loop : (rounds : ℕ) (m : Manager) → P m → P (trim_loop rounds m)
    loop zero m p = p
    loop (suc rounds) m p =
        elim (Bool-cases (ltb (pos_part m.opts.history_limit) (length m.jobs))) [
          | inr fits ↦ rw fits p
          | inl over ↦ rw over (scan (first_terminal m.jobs m.order) refl (loop rounds))
        ]
      where
        scan :
            (o : Option (Text × Job × List Text))
            → first_terminal m.jobs m.order ≡ o
            → ((n : Manager) → P n → P (trim_loop rounds n))
            → P (elim o [ none ↦ m | some found ↦ trim_loop rounds (drop_job m found) ])
        scan none q ih = p
        scan (some (id, job, rest)) q ih = ih (drop_job m (id, job, rest)) (step m id job rest q p)

-- A trim keeps every unfinished job and makes up none.
pub get-trim_history :
    (m : Manager) (k : Text)
    → ((j : Job) → get (trim_history m).jobs k ≡ some j → get m.jobs k ≡ some j)
      × ((j : Job)
          → get m.jobs k ≡ some j
          → is_terminal_job_status j.status ≡ false
          → get (trim_history m).jobs k ≡ some j)
get-trim_history m k =
    trim_history_induction
      (λ n.
        ((j : Job) → get n.jobs k ≡ some j → get m.jobs k ≡ some j)
        × ((j : Job)
            → get m.jobs k ≡ some j
            → is_terminal_job_status j.status ≡ false
            → get n.jobs k ≡ some j))
      (λ n id job rest q p.
        let found = first_terminal-some n.jobs n.order id job rest q in
        (λ j g. p.0 j (from n id job rest j g), λ j g a. keeps n id job rest j found (p.1 j g a) a))
      m (λ j g. g, λ j g a. g)
  where
    from :
        (n : Manager) (id : Text) (job : Job) (rest : List Text) (j : Job)
        → get (drop_job n (id, job, rest)).jobs k ≡ some j
        → get n.jobs k ≡ some j
    from n id job rest j g = ground (arith, get-drop_job n id job rest k)

    keeps :
        (n : Manager) (id : Text) (job : Job) (rest : List Text) (j : Job)
        → (get n.jobs id ≡ some job) × (is_terminal_job_status job.status ≡ true)
        → get n.jobs k ≡ some j
        → is_terminal_job_status j.status ≡ false
        → get (drop_job n (id, job, rest)).jobs k ≡ some j
    keeps n id job rest j found g a =
        ground (arith, get-drop_job n id job rest k, text_beq_iff id k)
