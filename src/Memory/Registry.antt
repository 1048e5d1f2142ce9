-- ===== src/Memory/Registry.antt =====
-- internal/repository/memory/servers.go: the stored servers are kept under their identifiers, and no two
-- have the same name or the same host up to case.
use mathlib.Core.Path.{subst}
use log_integrity.Prelude.{
  ◌⊎◌, ◌≡◌, refl, sym, ap, ◌∙◌, ◌≢◌, inl, inr, Bool, false, not, ◌||◌, ◌&&◌, Option, none, some, [],
  ◌∷◌, Text, ◌==◌, text_eq, text_beq_iff, beq_ne, arith, any, is_empty, if◌then◌else◌, if_elim,
  Bool-cases,
}
use log_integrity.Prelude.GoMap.{GoMap, get, put, values, get-put}
use log_integrity.Prelude.Strings.{equal_fold, to_lower}
use log_integrity.Models.{Server, Time}
use log_integrity.Repository.{Result}
use log_integrity.Memory.{Storage}
use log_integrity.Memory.Entries.{exists}
use log_integrity.Memory.Servers.{
  clashes, completed_server, name_or_host_taken, create_server, update_server,
}

-- Two servers that differ in name and in host.
abbrev pub IsApart : Server → Server → Type 0
IsApart a b = (equal_fold a.name b.name ≡ false) × (equal_fold a.host b.host ≡ false)

pub record IsRegistry (servers : GoMap Text Server) : Type 0 where
  pub keyed : (k : Text) (x : Server) → get servers k ≡ some x → (x.id ≡ k) × (k ≢ [])
  pub apart :
      (j k : Text) (x y : Server)
      → get servers j ≡ some x
      → get servers k ≡ some y
      → j ≢ k
      → IsApart x y

equal_fold-sym : (a b : Text) → equal_fold a b ≡ false → equal_fold b a ≡ false
unfolding equal_fold
equal_fold-sym a b h =
    ground (arith, text_beq_iff (to_lower a) (to_lower b), text_beq_iff (to_lower b) (to_lower a))

stored-not :
    {V : Type 0} (p : V → Bool) (m : GoMap Text V) (k : Text) (x : V)
    → any p (values m) ≡ false
    → get m k ≡ some x
    → p x ≡ false
unfolding get
stored-not p [] k x h g = cc
stored-not p ((j, v) ∷ m) k x h g = ground (arith, stored-not p m k x, ap p)

-- What is stored after a write.
stored-put :
    (servers : GoMap Text Server) (id : Text) (x : Server) (k : Text) (y : Server)
    → get (put servers id x) k ≡ some y
    → ((k ≡ id) × (y ≡ x)) ⊎ ((k ≢ id) × (get servers k ≡ some y))
stored-put servers id x k y g = elim (Bool-cases (id == k)) [
  | inl e ↦ inl (
    sym ((text_beq_iff id k).0 e),
    same (sym g ∙ get-put servers id x k ∙ ap (λ b. if b then some x else get servers k) e),
  )
  | inr e ↦ inr (
    (λ q. clash e (sym q)),
    sym (get-put servers id x k ∙ ap (λ b. if b then some x else get servers k) e) ∙ g,
  )
]
  where
    same : {a b : Server} → some a ≡ some b → a ≡ b
    same r = cc

    clash : (id == k) ≡ false → id ≡ k → ⊥
    clash e q = ground (arith, text_beq_iff id k)

-- A server can be put under its identifier if every other one is apart from it.
put-IsRegistry :
    (servers : GoMap Text Server) (id : Text) (x : Server)
    → IsRegistry servers
    → x.id ≡ id
    → id ≢ []
    → ((k : Text) (y : Server) → get servers k ≡ some y → k ≢ id → IsApart y x)
    → IsRegistry (put servers id x)
put-IsRegistry servers id x h q n free = record {
  keyed = λ k y g. elim (stored-put servers id x k y g) [
    | inl (e, r) ↦ (ap (λ z. z.id) r ∙ q ∙ sym e, λ z. n (sym e ∙ z))
    | inr (e, r) ↦ h.keyed k y r
  ];
  apart = λ j k y z g i d. elim (stored-put servers id x j y g) [
    | inl (e, r) ↦ elim (stored-put servers id x k z i) [
      | inl (e', r') ↦ absurd (d (e ∙ sym e'))
      | inr (e', r') ↦ subst (λ w. IsApart w z) (sym r) (turn z x (free k z r' e'))
    ]
    | inr (e, r) ↦ elim (stored-put servers id x k z i) [
      | inl (e', r') ↦ subst (λ w. IsApart y w) (sym r') (free j y r e)
      | inr (e', r') ↦ h.apart j k y z r r' d
    ]
  ];
}
  where
    turn : (a b : Server) → IsApart a b → IsApart b a
    turn a b t = (equal_fold-sym a.name b.name t.0, equal_fold-sym a.host b.host t.1)

-- A server that no stored one but the excluded one clashes with is apart from the others.
free-IsApart :
    (s : Storage) (x : Server) (excluded : Text)
    → IsRegistry s.servers
    → name_or_host_taken s x.name x.host excluded ≡ false
    → (k : Text) (y : Server) → get s.servers k ≡ some y
    → k ≢ excluded
    → IsApart y x
unfolding name_or_host_taken
free-IsApart s x excluded h free k y g n =
    split (y.id == excluded) (equal_fold y.name x.name) (equal_fold y.host x.host)
      (beq_ne y.id excluded (λ q. n (sym (h.keyed k y g).0 ∙ q)))
      (stored-not (clashes x.name x.host excluded) s.servers k y free g)
  where
    split : (a b c : Bool) → a ≡ false → (not a && (b || c)) ≡ false → (b ≡ false) × (c ≡ false)
    split a b c p q = ground arith

-- CreateServer and UpdateServer keep the stored servers apart; a drawn identifier is not empty.
pub create_server-IsRegistry :
    (s : Storage) (drawn : Text) (now : Time) (server : Server)
    → drawn ≢ []
    → IsRegistry s.servers
    → IsRegistry (create_server s drawn now server).0.servers
unfolding create_server
create_server-IsRegistry s drawn now server n h =
    if_elim (λ (r : Storage × Result (Unit {0})). IsRegistry r.0.servers)
      (exists (get s.servers id)) _ _ (λ taken. h)
      (λ fresh.
        if_elim (λ (r : Storage × Result (Unit {0})). IsRegistry r.0.servers)
          (name_or_host_taken s server.name server.host []) _ _ (λ taken. h)
          (λ free.
            put-IsRegistry s.servers id (completed_server server id now) h refl (chosen server.id)
              (λ k y g d. free-IsApart s server [] h free k y g (h.keyed k y g).1)))
  where
    id : Text
    id = if is_empty server.id then drawn else server.id

    chosen : (t : Text) → (if is_empty t then drawn else t) ≢ []
    chosen [] q = n q
    chosen (c ∷ t) q = cc

pub update_server-IsRegistry :
    (s : Storage) (now : Time) (server : Server)
    → IsRegistry s.servers
    → IsRegistry (update_server s now server).0.servers
unfolding update_server
update_server-IsRegistry s now server h =
    if_elim (λ (r : Storage × Result (Unit {0})). IsRegistry r.0.servers)
      (not (exists (get s.servers server.id))) _ _ (λ missing. h)
      (λ found.
        if_elim (λ (r : Storage × Result (Unit {0})). IsRegistry r.0.servers)
          (name_or_host_taken s server.name server.host server.id) _ _ (λ taken. h)
          (λ free.
            put-IsRegistry s.servers server.id _ h refl (known found)
              (free-IsApart s server server.id h free)))
  where
    known : not (exists (get s.servers server.id)) ≡ false → server.id ≢ []
    known found = go (get s.servers server.id) refl found
      where
        go :
            (o : Option Server)
            → get s.servers server.id ≡ o
            → not (exists o) ≡ false
            → server.id ≢ []
        go none g f = ground arith
        go (some x) g f = (h.keyed server.id x g).1

-- So does every operation that leaves each remaining server as it was.
pub fewer-IsRegistry :
    (before after : GoMap Text Server)
    → ((k : Text) (x : Server) → get after k ≡ some x → get before k ≡ some x)
    → IsRegistry before
    → IsRegistry after
fewer-IsRegistry before after sub h = record {
  keyed = λ k x g. h.keyed k x (sub k x g);
  apart = λ j k x y g i d. h.apart j k x y (sub j x g) (sub k y i) d;
}
