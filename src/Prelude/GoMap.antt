-- ===== src/Prelude/GoMap.antt =====
-- Go's `map[K]V` as an association list. A client reads it through the laws below; a loop over a
-- map goes through the entries in the order of the list, which stands for any order.
use mathlib.Core.Path.{subst, sym, ap}
use Prim.Native.Nat.{◌≤◌, ◌<◌}
use mathlib.Core.Path.{◌≡◌}
use mathlib.Core.Logic.{◌⊎◌, inl, inr}
use mathlib.Core.Bool.{false}
use mathlib.Core.Option.{Option, none, some}
use mathlib.Core.List.{List, [], ◌∷◌}
use native.Mathlib.Omega.{arith}
use log_integrity.Prelude.Tests.{if◌then◌else◌}
use log_integrity.Prelude.Lists.{In, Distinct, length}
use log_integrity.Prelude.Classes.{Eq, ◌==◌, beq_refl, beq_ne}

abbrev pub GoMap : Type 0 → Type 0 → Type 0
GoMap K V = List (K × V)

module _ {K V : Type 0} where
  abbrev pub keys : GoMap K V → List K
  keys [] = []
  keys ((j, w) ∷ m) = j ∷ keys m

  abbrev pub values : GoMap K V → List V
  values [] = []
  values ((j, w) ∷ m) = w ∷ values m

module _ {K V : Type 0} ⦃e : Eq K⦄ where
  -- `v, ok := m[k]`
  unfoldable pub get : GoMap K V → K → Option V
  get [] k = none
  get ((j, w) ∷ m) k = let rest = get m k in if j == k then some w else rest

  -- `m[k] = v`
  unfoldable pub put : GoMap K V → K → V → GoMap K V
  put [] k v = (k, v) ∷ []
  put ((j, w) ∷ m) k v = let rest = put m k v in if j == k then (k, v) ∷ m else (j, w) ∷ rest

  -- `delete(m, k)`
  unfoldable pub delete : GoMap K V → K → GoMap K V
  delete [] k = []
  delete ((j, w) ∷ m) k = let rest = delete m k in if j == k then rest else (j, w) ∷ rest

  pub get-put :
      (m : GoMap K V) (k : K) (v : V) (j : K)
      → get (put m k v) j ≡ (if k == j then some v else get m j)
  unfolding get put
  get-put [] k v j = ground arith
  get-put ((i, w) ∷ m) k v j =
      ground (arith, get-put m k v j, e.equals_iff k j, e.equals_iff i k, e.equals_iff i j)

  pub get-delete :
      (m : GoMap K V) (k j : K) → get (delete m k) j ≡ (if k == j then none else get m j)
  unfolding get delete
  get-delete [] k j = ground arith
  get-delete ((i, w) ∷ m) k j =
      ground (arith, get-delete m k j, e.equals_iff k j, e.equals_iff i k, e.equals_iff i j)

  pub get-put_self : (m : GoMap K V) (k : K) (v : V) → get (put m k v) k ≡ some v
  get-put_self m k v = ground (arith, get-put m k v k, beq_refl k)

  pub get-put_ne :
      (m : GoMap K V) (k : K) (v : V) (j : K) → (k == j) ≡ false → get (put m k v) j ≡ get m j
  get-put_ne m k v j h = ground (arith, get-put m k v j)

  pub get-delete_self : (m : GoMap K V) (k : K) → get (delete m k) k ≡ none
  get-delete_self m k = ground (arith, get-delete m k k, beq_refl k)

  -- What a lookup finds is an entry.
  pub get→In : (m : GoMap K V) (k : K) (v : V) → get m k ≡ some v → In (k, v) m
  unfolding get
  get→In [] k v h = cc
  get→In ((j, w) ∷ m) k v h = ground (arith, e.equals_iff j k, get→In m k v)

  pub In→In-keys : (m : GoMap K V) (k : K) (v : V) → In (k, v) m → In k (keys m)
  In→In-keys [] k v h = elim h [ ]
  In→In-keys ((j, w) ∷ m) k v (inl q) = inl (ap (λ p. p.0) q)
  In→In-keys ((j, w) ∷ m) k v (inr h) = inr (In→In-keys m k v h)

  pub get_none→not-In : (m : GoMap K V) (k : K) → get m k ≡ none → ¬ In k (keys m)
  unfolding get
  get_none→not-In [] k h i = elim i [ ]
  get_none→not-In ((j, w) ∷ m) k h (inl q) = ground (arith, e.equals_iff j k)
  get_none→not-In ((j, w) ∷ m) k h (inr i) = get_none→not-In m k (ground arith) i

  -- With distinct keys an entry is what a lookup finds.
  pub In→get : (m : GoMap K V) (k : K) (v : V) → Distinct (keys m) → In (k, v) m → get m k ≡ some v
  unfolding get
  In→get [] k v d h = elim h [ ]
  In→get ((j, w) ∷ m) k v d (inl q) =
      ground (arith, e.equals_iff j k, ap (λ p. p.0) q, ap (λ p. p.1) q)
  In→get ((j, w) ∷ m) k v d (inr h) = ground (
    arith,
    beq_ne j k (λ q. d.0 (subst (λ t. In t (keys m)) (sym q) (In→In-keys m k v h))),
    In→get m k v d.1 h,
  )

  pub In-keys-put :
      (m : GoMap K V) (k : K) (v : V) (j : K) → In j (keys (put m k v)) → (j ≡ k) ⊎ In j (keys m)
  unfolding put
  In-keys-put [] k v j h = ground arith
  In-keys-put ((i, w) ∷ m) k v j h = ground (arith, In-keys-put m k v j, e.equals_iff i k)

  pub In-keys-delete : (m : GoMap K V) (k j : K) → In j (keys (delete m k)) → In j (keys m)
  unfolding delete
  In-keys-delete [] k j h = elim h [ ]
  In-keys-delete ((i, w) ∷ m) k j h = ground (arith, In-keys-delete m k j)

  pub put-Distinct :
      (m : GoMap K V) (k : K) (v : V) → Distinct (keys m) → Distinct (keys (put m k v))
  unfolding put
  put-Distinct [] k v d = (λ i. elim i [ ], tt)
  put-Distinct ((i, w) ∷ m) k v d =
      ground (arith, put-Distinct m k v d.1, e.equals_iff i k, In-keys-put m k v i)

  pub delete-Distinct : (m : GoMap K V) (k : K) → Distinct (keys m) → Distinct (keys (delete m k))
  unfolding delete
  delete-Distinct [] k d = tt
  delete-Distinct ((i, w) ∷ m) k d = ground (arith, delete-Distinct m k d.1, In-keys-delete m k i)

  pub length-delete-le : (m : GoMap K V) (k : K) → length (delete m k) ≤ length m
  unfolding delete
  length-delete-le [] k = omega arith
  length-delete-le ((i, w) ∷ m) k = ground (arith, length-delete-le m k)

  pub length-delete-lt :
      (m : GoMap K V) (k : K) (v : V) → get m k ≡ some v → length (delete m k) < length m
  unfolding get delete
  length-delete-lt [] k v h = cc
  length-delete-lt ((i, w) ∷ m) k v h = ground (arith, length-delete-le m k, length-delete-lt m k v)

  -- A write under a key that is there keeps the number of entries.
  pub length-put_old :
      (m : GoMap K V) (k : K) (v w : V) → get m k ≡ some w → length (put m k v) ≡ length m
  unfolding get put
  length-put_old [] k v w h = cc
  length-put_old ((i, u) ∷ m) k v w h = ground (arith, length-put_old m k v w)

pub ruleset map_laws = (get-put, get-delete)
