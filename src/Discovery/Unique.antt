-- ===== src/Discovery/Unique.antt =====
-- Each discovered path is listed once, and every line that is not blank is listed.
use mathlib.Core.Path.{subst}
use log_integrity.Prelude.{
  ◌≢◌, if_elim, not_contains→not-In, ◌≡◌, refl, sym, ◌∙◌, ◌↔◌, ◌⊎◌, inl, inr, true, false, ◌||◌,
  List, [], ◌∷◌, Text, text_eq, text_beq_iff, ◌==◌, is_empty, contains, contains→In, In, All,
  Distinct, map, arith, Bool-cases,
}
use log_integrity.Prelude.Strings.{trim_space}
use log_integrity.Discovery.{DiscoveredLog, new_paths, classify_log_type}

abbrev pub path_of : DiscoveredLog → Text
path_of d = d.path

-- What the paths of the output are: the lines without white space around them that are not blank and were
-- not seen, each once, each with its class.
pub record IsListing (seen lines : List Text) (found : List DiscoveredLog) : Type 0 where
  pub once : Distinct (map path_of found)
  pub exact :
      (p : Text)
      → In p (map path_of found) ↔ (In p (map trim_space lines) × (p ≢ []) × (¬ In p seen))
  pub classified : All (λ d. d.log_type ≡ classify_log_type d.path) found

skip-IsListing :
    (seen lines : List Text) (line : Text) (found : List DiscoveredLog)
    → (trim_space line ≡ []) ⊎ In (trim_space line) seen
    → IsListing seen lines found
    → IsListing seen (line ∷ lines) found
skip-IsListing seen lines line found old h = record {
  once = h.once;
  exact = λ p. (
    λ i. let (j, n, m) = (h.exact p).0 i in (inr j, n, m),
    λ (j, n, m). elim j [
      | inl q ↦
          absurd (elim old [ inl e ↦ n (q ∙ e) | inr k ↦ m (subst (λ t. In t seen) (sym q) k) ])
      | inr k ↦ (h.exact p).1 (k, n, m)
    ],
  );
  classified = h.classified;
}

add-IsListing :
    (seen lines : List Text) (line : Text) (found : List DiscoveredLog)
    → trim_space line ≢ []
    → ¬ In (trim_space line) seen
    → IsListing (trim_space line ∷ seen) lines found
    → IsListing seen
        (line ∷ lines)
        (record { path = trim_space line; log_type = classify_log_type (trim_space line) } ∷ found)
add-IsListing seen lines line found a b h = record {
  once = (λ i. ((h.exact (trim_space line)).0 i).2 (inl refl), h.once);
  exact = λ p. (
    λ i. elim i [
      | inl q ↦ (inl q, λ e. a (sym q ∙ e), λ k. b (subst (λ t. In t seen) q k))
      | inr j ↦ let (k, n, m) = (h.exact p).0 j in (inr k, n, λ l. m (inr l))
    ],
    λ (j, n, m). elim (Bool-cases (p == trim_space line)) [
      | inl q ↦ inl ((text_beq_iff p (trim_space line)).0 q)
      | inr q ↦ elim j [
        | inl e ↦ inl e
        | inr k ↦ inr ((h.exact p).1 (k, n, λ l. elim l [ inl e ↦ differ q e | inr o ↦ m o ]))
      ]
    ],
  );
  classified = (refl, h.classified);
}
  where
    differ : {p : Text} → (p == trim_space line) ≡ false → p ≡ trim_space line → ⊥
    differ {p} q e = ground (arith, text_beq_iff p (trim_space line))

-- The discovered paths are exactly the lines of the output, without white space around them, that
-- are not blank and are not among those seen before; each is listed once, and with its class.
pub new_paths-IsListing : (seen lines : List Text) → IsListing seen lines (new_paths seen lines)
unfolding new_paths
new_paths-IsListing seen [] = record {
  once = tt;
  exact = λ p. (λ i. elim i [ ], λ (i, n, m). elim i [ ]);
  classified = tt;
}
new_paths-IsListing seen (line ∷ lines) =
    if_elim (IsListing seen (line ∷ lines))
      (is_empty (trim_space line) || contains seen (trim_space line)) _ _
      (λ q.
        skip-IsListing seen lines line _ (known (trim_space line) q)
          (new_paths-IsListing seen lines))
      (λ q.
        add-IsListing seen lines line _ (filled (trim_space line) q) (unseen (trim_space line) q)
          (new_paths-IsListing (trim_space line ∷ seen) lines))
  where
    known : (t : Text) → (is_empty t || contains seen t) ≡ true → (t ≡ []) ⊎ In t seen
    known [] q = inl refl
    known (c ∷ t) q = inr (contains→In seen (c ∷ t) q)

    filled : (t : Text) → (is_empty t || contains seen t) ≡ false → t ≢ []
    filled [] q = cc
    filled (c ∷ t) q = λ e. cc

    unseen : (t : Text) → (is_empty t || contains seen t) ≡ false → ¬ In t seen
    unseen [] q = cc
    unseen (c ∷ t) q = not_contains→not-In seen (c ∷ t) q
