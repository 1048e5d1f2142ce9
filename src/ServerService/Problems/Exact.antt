-- ===== src/ServerService/Problems/Exact.antt =====
-- ListProblems finds exactly the problems of the stored servers and of their active log files.
use mathlib.Core.Path.{subst}
use log_integrity.Prelude.{
  ◌≡◌, refl, ap, ap₂, ◌∙◌, ◌≢◌, ◌⊎◌, inl, inr, ◌↔◌, true, false, List, [], ◌∷◌, ◌++◌, Text,
  is_empty, ◌||◌, text_eq, text_beq_iff, ◌==◌, In, In-append, In-append_left, In-append_right,
  In-keep, In-keep_inv, arith, Bool-cases, if◌then◌else◌,
}
use log_integrity.Prelude.GoMap.{values}
use log_integrity.Prelude.Sort.{sort_by, IsOrdered, In-sort_by, sort_by-In, sort_by-IsOrdered}
use log_integrity.Prelude.Order.{IsWeak, number-IsWeak, lexical-IsWeak, reversed-IsWeak}
use log_integrity.Models.{Server, LogFile, CheckResult, CheckStatus}
use log_integrity.Models.Problem.{
  SystemProblem, severity_for_check_status, problem_type_for_check_status, severity_name,
  problem_type_name,
}
use log_integrity.Repository.{not_found, Result, ok, err, ◌>>=◌}
use log_integrity.Memory.{Storage}
use log_integrity.Memory.Checks.{get_latest_check_result, list_check_results}
use log_integrity.Memory.Chunks.{last_of}
use log_integrity.Memory.Listings.Servers.{list_servers, name_less}
use log_integrity.Memory.Listings.Files.{list_log_files_by_server, path_less}
use log_integrity.ServerService.Problems.{
  Formats, severity_rank, more_urgent, check_problem, result_problems, server_health_problems,
  file_problems, files_problems, servers_problems, list_problems,
}

module _ (formats : Formats) (s : Storage) where
  -- A problem of an active file: its latest check is not ok.
  abbrev pub OfFile : Server → LogFile → SystemProblem → Type 0
  OfFile server file p =
      (file.is_active ≡ true)
      × (result : CheckResult) × (get_latest_check_result s file.id ≡ ok result)
      × (result.status ≢ CheckStatus.ok)
      × (p ≡ check_problem formats server file result)

  abbrev pub OfServer : Server → SystemProblem → Type 0
  OfServer server p =
      In p (server_health_problems formats server)
      ⊎ ((file : LogFile) × (In file (values s.log_files) × (file.server_id ≡ server.id))
          × OfFile server file p)

  abbrev pub Some : {A : Type 0} → List A → (A → SystemProblem → Type 0) → SystemProblem → Type 0
  Some {A} xs Of p = (x : A) × In x xs × Of x p

  -- The step finds exactly the problems that `Of` describes.
  abbrev Finds : Result (List SystemProblem) → (SystemProblem → Type 0) → Type 0
  Finds r Of = (ps : List SystemProblem) × (r ≡ ok ps) × ((p : SystemProblem) → In p ps ↔ Of p)

  latest-cases :
      (id : Text)
      → (get_latest_check_result s id ≡ err not_found)
        ⊎ ((result : CheckResult) × (get_latest_check_result s id ≡ ok result))
  unfolding get_latest_check_result
  latest-cases id = go (list_check_results s id)
    where
      go :
          (xs : List CheckResult)
          → (last_of xs ≡ err not_found) ⊎ ((result : CheckResult) × (last_of xs ≡ ok result))
      go [] = inl refl
      go (x ∷ xs) = inr (_, refl)

  result_problems-cases :
      (server : Server) (file : LogFile) (result : CheckResult)
      → ((result.status ≡ CheckStatus.ok) × (result_problems formats server file result ≡ []))
        ⊎ ((result.status ≢ CheckStatus.ok)
            × (result_problems formats server file result
                ≡ check_problem formats server file result ∷ []))
  result_problems-cases server file result = go result.status refl
    where
      shown : CheckStatus → List SystemProblem
      shown st =
          if is_empty (problem_type_name (problem_type_for_check_status st))
            || is_empty (severity_name (severity_for_check_status st))
          then []
          else check_problem formats server file result ∷ []

      go :
          (st : CheckStatus)
          → result.status ≡ st
          → ((result.status ≡ CheckStatus.ok) × (shown result.status ≡ []))
            ⊎ ((result.status ≢ CheckStatus.ok)
                × (shown result.status ≡ check_problem formats server file result ∷ []))
      go CheckStatus.ok q = inl (q, ap shown q)
      go CheckStatus.tampered q = inr (λ e. cc, ap shown q)
      go CheckStatus.error q = inr (λ e. cc, ap shown q)

  file_problems-inactive :
      (server : Server) (file : LogFile)
      → file.is_active ≡ false
      → file_problems formats s server file ≡ ok []
  unfolding file_problems
  file_problems-inactive server file h = rw (h, file_problems) refl

  file_problems-unchecked :
      (server : Server) (file : LogFile)
      → get_latest_check_result s file.id ≡ err not_found
      → file_problems formats s server file ≡ ok []
  unfolding file_problems
  file_problems-unchecked server file g = elim (Bool-cases file.is_active) [
    | inl h ↦ rw (h, g, file_problems) refl
    | inr h ↦ rw (h, file_problems) refl
  ]

  file_problems-checked :
      (server : Server) (file : LogFile) (result : CheckResult)
      → file.is_active ≡ true
      → get_latest_check_result s file.id ≡ ok result
      → file_problems formats s server file ≡ ok (result_problems formats server file result)
  unfolding file_problems
  file_problems-checked server file result h g = rw (h, g, file_problems) refl

  -- A step that finds nothing, where there is nothing.
  nothing :
      {Of : SystemProblem → Type 0} (r : Result (List SystemProblem))
      → r ≡ ok []
      → ((p : SystemProblem) → ¬ Of p)
      → Finds r Of
  nothing r e n = ([], e, λ p. (λ i. elim i [ ], λ o. absurd (n p o)))

  same_result : {a b : CheckResult} {r : Result CheckResult} → r ≡ ok a → r ≡ ok b → a ≡ b
  same_result p q = cc

  file_problems-Finds :
      (server : Server) (file : LogFile)
      → Finds (file_problems formats s server file) (OfFile server file)
  file_problems-Finds server file = elim (Bool-cases file.is_active) [
    | inr h ↦ nothing _ (file_problems-inactive server file h) λ p o. clash h o.0
    | inl h ↦ elim (latest-cases file.id) [
      | inl g ↦ nothing _ (file_problems-unchecked server file g) λ p o. differ g o.2
      | inr (result, g) ↦ elim (result_problems-cases server file result) [
        | inl (q, e) ↦
            nothing _ (file_problems-checked server file result h g ∙ ap ok e)
              λ p o. o.3 (ap (λ (r : CheckResult). r.status) (same_result o.2 g) ∙ q)
        | inr (q, e) ↦ (
          check_problem formats server file result ∷ [],
          file_problems-checked server file result h g ∙ ap ok e,
          λ p. (
            λ i. elim i [ inl c ↦ (h, result, g, q, c) | inr j ↦ elim j [ ] ],
            λ o. inl (o.4 ∙ ap (check_problem formats server file) (same_result o.2 g)),
          ),
        )
      ]
    ]
  ]
    where
      clash : file.is_active ≡ false → file.is_active ≡ true → ⊥
      clash p q = ground arith

      differ :
          {a : CheckResult}
          → get_latest_check_result s file.id ≡ err not_found
          → get_latest_check_result s file.id ≡ ok a
          → ⊥
      differ p q = cc

  both :
      {A B : SystemProblem → Type 0} (r q : Result (List SystemProblem))
      → Finds r A
      → Finds q B
      → Finds (r >>= λ xs. q >>= λ ys. ok (xs ++ ys)) (λ p. A p ⊎ B p)
  both r q (xs, h, f) (ys, k, g) = (
    xs ++ ys,
    ap₂ (λ a b. a >>= λ x. b >>= λ y. ok (x ++ y)) h k,
    λ p. (
      λ i. elim (In-append p xs ys i) [ inl a ↦ inl ((f p).0 a) | inr b ↦ inr ((g p).0 b) ],
      λ i. elim i [
        | inl a ↦ In-append_left p xs ys ((f p).1 a)
        | inr b ↦ In-append_right p xs ys ((g p).1 b)
      ],
    ),
  )

  renamed :
      {A B : SystemProblem → Type 0} (r : Result (List SystemProblem))
      → ((p : SystemProblem) → A p ↔ B p)
      → Finds r A
      → Finds r B
  renamed r e (xs, h, f) = (xs, h, λ p. (λ i. (e p).0 ((f p).0 i), λ b. (f p).1 ((e p).1 b)))

  one_more :
      {A : Type 0} (x : A) (xs : List A) (Of : A → SystemProblem → Type 0) (p : SystemProblem)
      → (Of x p ⊎ Some xs Of p) ↔ Some (x ∷ xs) Of p
  one_more x xs Of p =
      (λ i. elim i [ inl o ↦ (x, inl refl, o) | inr (y, j, o) ↦ (y, inr j, o) ], λ t. go t)
    where
      go : Some (x ∷ xs) Of p → Of x p ⊎ Some xs Of p
      go (y, inl e, o) = inl (subst (λ z. Of z p) e o)
      go (y, inr j, o) = inr (y, j, o)

  files_problems-Finds :
      (server : Server) (files : List LogFile)
      → Finds (files_problems formats s server files) (Some files (OfFile server))
  unfolding files_problems
  files_problems-Finds server [] = ([], refl, λ p. (λ i. elim i [ ], λ (x, i, o). elim i [ ]))
  files_problems-Finds server (file ∷ files) =
      renamed _ (one_more file files (OfFile server))
        (both _ _ (file_problems-Finds server file) (files_problems-Finds server files))

  server_file :
      (server : Server) (p : SystemProblem)
      → (In p (server_health_problems formats server)
          ⊎ Some (list_log_files_by_server s server.id) (OfFile server) p)
        ↔ OfServer server p
  unfolding list_log_files_by_server
  server_file server p = (
    λ i. elim i [
      | inl h ↦ inl h
      | inr (file, j, o) ↦
          let (stored, own) =
            In-keep_inv (λ (f : LogFile). f.server_id == server.id) file (values s.log_files)
              (sort_by-In path_less file _ j) in
          inr (file, (stored, (text_beq_iff file.server_id server.id).0 own), o)
    ],
    λ i. elim i [
      | inl h ↦ inl h
      | inr (file, (stored, own), o) ↦ inr (
        file,
        In-sort_by path_less file _ (
            In-keep (λ (f : LogFile). f.server_id == server.id) file (values s.log_files) stored
              ((text_beq_iff file.server_id server.id).1 own)),
        o,
      )
    ],
  )

  behind :
      {A B : SystemProblem → Type 0} (front : List SystemProblem)
      (r q : Result (List SystemProblem))
      → Finds r A
      → Finds q B
      → Finds (r >>= λ xs. q >>= λ ys. ok (front ++ xs ++ ys)) (λ p. In p front ⊎ (A p ⊎ B p))
  behind front r q (xs, h, f) (ys, k, g) = (
    front ++ xs ++ ys,
    ap₂ (λ a b. a >>= λ x. b >>= λ y. ok (front ++ x ++ y)) h k,
    λ p. (
      λ i. elim (In-append p (front ++ xs) ys i) [
        | inl j ↦ elim (In-append p front xs j) [ inl l ↦ inl l | inr l ↦ inr (inl ((f p).0 l)) ]
        | inr j ↦ inr (inr ((g p).0 j))
      ],
      λ i. elim i [
        | inl j ↦ In-append_left p (front ++ xs) ys (In-append_left p front xs j)
        | inr (inl j) ↦ In-append_left p (front ++ xs) ys (In-append_right p front xs ((f p).1 j))
        | inr (inr j) ↦ In-append_right p (front ++ xs) ys ((g p).1 j)
      ],
    ),
  )

  servers_problems-Finds :
      (servers : List Server) → Finds (servers_problems formats s servers) (Some servers OfServer)
  unfolding servers_problems
  servers_problems-Finds [] = ([], refl, λ p. (λ i. elim i [ ], λ (x, i, o). elim i [ ]))
  servers_problems-Finds (server ∷ servers) = renamed _ join (
      behind (server_health_problems formats server) _ _
        (files_problems-Finds server (list_log_files_by_server s server.id))
        (servers_problems-Finds servers))
    where
      join :
          (p : SystemProblem)
          → (In p (server_health_problems formats server)
              ⊎ (Some (list_log_files_by_server s server.id) (OfFile server) p
                  ⊎ Some servers OfServer p))
            ↔ Some (server ∷ servers) OfServer p
      join p = (
        λ i. (one_more server servers OfServer p).0 (elim i [
          | inl h ↦ inl ((server_file server p).0 (inl h))
          | inr (inl f) ↦ inl ((server_file server p).0 (inr f))
          | inr (inr o) ↦ inr o
        ]),
        λ t. elim ((one_more server servers OfServer p).1 t) [
          | inl o ↦ elim ((server_file server p).1 o) [ inl h ↦ inl h | inr f ↦ inr (inl f) ]
          | inr o ↦ inr (inr o)
        ],
      )

  more_urgent-IsWeak : IsWeak more_urgent
  more_urgent-IsWeak =
      lexical-IsWeak _ _ _ (λ x y. ground arith)
        (reversed-IsWeak _ (number-IsWeak (λ (p : SystemProblem). severity_rank p.severity)))
        (reversed-IsWeak _ (number-IsWeak (λ (p : SystemProblem). p.detected_at)))

  -- ListProblems always returns a list. It lists, the most severe first and among these the
  -- latest first, exactly the health problems of the stored servers and, for each active log file
  -- of a stored server whose latest check was not ok, the problem of that check.
  pub list_problems-IsExact :
      (ps : List SystemProblem) × (list_problems formats s ≡ ok ps)
      × IsOrdered more_urgent ps
      × ((p : SystemProblem) → In p ps ↔ Some (values s.servers) OfServer p)
  unfolding list_problems list_servers
  list_problems-IsExact =
      let (ps, e, f) = servers_problems-Finds (list_servers s) in
      (
        sort_by more_urgent ps,
        ap (λ r. r >>= λ qs. ok (sort_by more_urgent qs)) e,
        sort_by-IsOrdered more_urgent more_urgent-IsWeak.asym more_urgent-IsWeak.through ps,
        λ p. (
          λ i.
              let (x, j, o) = (f p).0 (sort_by-In more_urgent p ps i) in
              (x, sort_by-In name_less x (values s.servers) j, o),
          λ t.
              In-sort_by more_urgent p ps
                ((f p).1 (t.0, In-sort_by name_less t.0 (values s.servers) t.1, t.2)),
        ),
      )
