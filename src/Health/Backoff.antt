-- ===== src/Health/Backoff.antt =====
-- The backoff of nextBackoffUntil doubles with each failure past the threshold, up to the limit.
use log_integrity.Prelude.{
  ℕ, zero, suc, ◌+◌, ◌-◌, ◌*◌, ◌/◌, ◌^◌, ◌≤◌, ◌≡◌, refl, sym, ap, ◌∙◌, inl, inr, ◌||◌, none, some,
  if◌then◌else◌, leb, ltb, arith, Bool-cases, leb→le,
}
use native.Mathlib.Nat.{pow-suc}
use log_integrity.Prelude.Int.{ℤ, pos, leb_ℤ, ltb_ℤ}
use log_integrity.Models.{Time}
use log_integrity.Health.{Options, normalize_options, backoff_loop, cap, next_backoff_until}

-- The doublings, by a recursion that the arithmetic tactics follow.
doubled : ℕ → ℕ → ℕ
doubled zero d = d
doubled (suc k) d = doubled k (d * 2)

le-doubled : (k d : ℕ) → d ≤ doubled k d
unfolding doubled
le-doubled zero d = omega arith
le-doubled (suc k) d = omega (arith, le-doubled k (d * 2))

doubled-pow : (k d : ℕ) → doubled k d ≡ d * 2 ^ k
unfolding doubled
doubled-pow zero d = omega arith
doubled-pow (suc k) d = doubled-pow k (d * 2) ∙ shift d (2 ^ k) ∙ ap (λ t. d * t) (sym (power 2 k))
  where
    shift : (d p : ℕ) → d * 2 * p ≡ d * (p * 2)
    shift d p = omega arith

    power : (b k : ℕ) → b ^ suc k ≡ b ^ k * b
    power b k = pow-suc b k

cap-backoff_loop : (k h d : ℕ) → cap (h * 2) (backoff_loop k (h * 2) d) ≡ cap (h * 2) (doubled k d)
unfolding backoff_loop doubled
cap-backoff_loop zero h d = refl
cap-backoff_loop (suc k) h d = elim (Bool-cases (leb (h * 2 / 2) d)) [
  | inl q ↦ rw q (ground (arith, le-doubled k (d * 2), leb→le (h * 2 / 2) d q))
  | inr q ↦ rw q (cap-backoff_loop k h (d * 2))
]

-- The pause for bounds that are in order.
pause :
    (o : Options) (now : Time) (t c b h : ℕ)
    → o.failure_threshold ≡ pos (suc t)
    → o.backoff_base ≡ pos (suc b)
    → o.backoff_max ≡ pos (suc h * 2)
    → next_backoff_until o now (pos c) ≡ (
        if ltb c (suc t)
        then none
        else some (now + cap (suc h * 2) (backoff_loop (c - suc t) (suc h * 2) (suc b))))
unfolding next_backoff_until
pause o now t c b h p q r = rw (p, q, r) (go (suc t) c b h)
  where
    go :
        (t c b h : ℕ)
        → (if leb_ℤ (pos (suc b)) (pos 0) || leb_ℤ (pos (suc h * 2)) (pos 0)
            then none
            else if ltb_ℤ (pos c) (pos t)
            then none
            else some (now + cap (suc h * 2) (backoff_loop (c - t) (suc h * 2) (suc b))))
          ≡ (if ltb c t
              then none
              else some (now + cap (suc h * 2) (backoff_loop (c - t) (suc h * 2) (suc b))))
    go t c b h = ground arith

-- For positive bounds, an even limit and a positive threshold, a count of failures below the
-- threshold does not pause the server; any other pauses it for the base time doubled once for
-- each failure past the threshold, or for the limit if that is smaller.
pub next_backoff_until-Doubles :
    (raw : Options) (now : Time) (t c b h : ℕ)
    → raw.failure_threshold ≡ pos (suc t)
    → raw.backoff_base ≡ pos (suc b)
    → raw.backoff_max ≡ pos (suc h * 2)
    → next_backoff_until (normalize_options raw) now (pos c)
      ≡ (if ltb c (suc t) then none else some (now + cap (suc h * 2) (suc b * 2 ^ (c - suc t))))
unfolding normalize_options
next_backoff_until-Doubles raw now t c b h p q r =
    pause (normalize_options raw) now t c b h (ap positive p ∙ kept t) q r
    ∙ ap (λ d. if ltb c (suc t) then none else some (now + d))
        (cap-backoff_loop (c - suc t) (suc h) (suc b)
          ∙ ap (cap (suc h * 2)) (doubled-pow (c - suc t) (suc b)))
  where
    positive : ℤ → ℤ
    positive t = if leb_ℤ t (pos 0) then pos 1 else t

    kept : (t : ℕ) → positive (pos (suc t)) ≡ pos (suc t)
    kept t = ground arith
