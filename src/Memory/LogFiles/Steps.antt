-- ===== src/Memory/LogFiles/Steps.antt =====
-- What a file that is stored after a creation or an update was before it.
use mathlib.Core.Path.{subst}
use log_integrity.Prelude.{
  ◌≡◌, refl, sym, ap, ◌∙◌, ◌⊎◌, inl, inr, ◌&&◌, not, false, Option, some, [], arith, Text, ◌==◌,
  text_eq, text_beq_iff, is_empty, if◌then◌else◌, if_elim, beq_ne, Option-elim, Bool-cases,
}
use log_integrity.Prelude.GoMap.{GoMap, get, put, get-put, get-put_self, get-put_ne}
use log_integrity.Models.{LogFile, Time}
use log_integrity.Repository.{Error, Result, ok, err}
use log_integrity.Memory.{Storage}
use log_integrity.Memory.Entries.{exists}
use log_integrity.Memory.LogFiles.{
  create_log_file, update_log_file, by_path, taken_by_other, completed_file,
}

pub some_inj : {A : Type 0} {a b : A} → some a ≡ some b → a ≡ b
some_inj p = cc

pub put-cases :
    (m : GoMap Text LogFile) (j k : Text) (file x : LogFile)
    → get (put m j file) k ≡ some x
    → (get m k ≡ some x) ⊎ ((x ≡ file) × (j ≡ k))
put-cases m j k file x h = elim (Bool-cases (j == k)) [
  | inl same ↦ inr (
    sym (some_inj (sym (get-put m j file k ∙ ap (λ b. if b then some file else get m k) same) ∙ h)),
    (text_beq_iff j k).0 same,
  )
  | inr apart ↦
      inl (sym (get-put m j file k ∙ ap (λ b. if b then some file else get m k) apart) ∙ h)
]

module _ (k : Text) (x : LogFile) where
  -- A file that is stored under `k` after a step was so before it, or it is new.
  abbrev pub FromStep : {B : Type 0} → Storage → (LogFile → Type 0) → Storage × Result B → Type 0
  FromStep s New r = get r.0.log_files k ≡ some x → (get s.log_files k ≡ some x) ⊎ New x

  pub update_log_file-cases :
      (s : Storage) (file : LogFile)
      → FromStep s (λ y. (y ≡ file) × (file.id ≡ k)) (update_log_file s file)
  unfolding update_log_file
  update_log_file-cases s file =
      Option-elim P (get s.log_files file.id) _ _ (λ q h. inl h)
        (λ current q.
          if_elim P (not (current.server_id == file.server_id)) _ _ (λ p h. inl h)
            (λ p.
              if_elim P
                (not (current.path == file.path)
                  && taken_by_other (get (by_path s file.server_id) file.path) file.id)
                _ _ (λ r h. inl h) (λ r h. put-cases s.log_files file.id k file x h)))
    where
      P : Storage × Result (Unit {0}) → Type 0
      P r = FromStep s (λ y. (y ≡ file) × (file.id ≡ k)) r

  pub create_log_file-cases :
      (s : Storage) (drawn : Text) (now : Time) (file : LogFile)
      → FromStep s (λ y. y.path ≡ file.path) (create_log_file s drawn now file)
  unfolding create_log_file
  create_log_file-cases s drawn now file =
      if_elim P (not (exists (get s.servers file.server_id))) _ _ (λ q h. inl h)
        (λ q.
          if_elim P (exists (get s.log_files id)) _ _ (λ p h. inl h)
            (λ p.
              if_elim P (exists (get (by_path s file.server_id) file.path)) _ _ (λ r h. inl h)
                (λ r h. elim (put-cases s.log_files id k (completed_file file id now) x h) [
                  | inl old ↦ inl old
                  | inr new ↦ inr (ap (λ (f : LogFile). f.path) new.0)
                ])))
    where
      id : Text
      id = if is_empty file.id then drawn else file.id

      P : Storage × Result (Unit {0}) → Type 0
      P r = FromStep s (λ y. y.path ≡ file.path) r

-- An update that returns no error stores the file.
pub update_log_file-stored :
    (s : Storage) (file : LogFile)
    → (update_log_file s file).1 ≡ ok tt
    → get (update_log_file s file).0.log_files file.id ≡ some file
unfolding update_log_file
update_log_file-stored s file =
    Option-elim P (get s.log_files file.id) _ _ (λ q h. absurd (bad h))
      (λ current q.
        if_elim P (not (current.server_id == file.server_id)) _ _ (λ p h. absurd (bad h))
          (λ p.
            if_elim P
              (not (current.path == file.path)
                && taken_by_other (get (by_path s file.server_id) file.path) file.id)
              _ _ (λ r h. absurd (bad h)) (λ r h. get-put_self s.log_files file.id file)))
  where
    P : Storage × Result (Unit {0}) → Type 0
    P r = r.1 ≡ ok tt → get r.0.log_files file.id ≡ some file

    bad : {e : Error} → err e ≡ ok tt → ⊥
    bad p = cc

-- An update changes no file under another identifier.
pub update_log_file-others :
    (s : Storage) (file : LogFile) (k : Text)
    → (file.id == k) ≡ false
    → get (update_log_file s file).0.log_files k ≡ get s.log_files k
unfolding update_log_file
update_log_file-others s file k apart =
    Option-elim P (get s.log_files file.id) _ _ (λ q. refl)
      (λ current q.
        if_elim P (not (current.server_id == file.server_id)) _ _ (λ p. refl)
          (λ p.
            if_elim P
              (not (current.path == file.path)
                && taken_by_other (get (by_path s file.server_id) file.path) file.id)
              _ _ (λ r. refl) (λ r. get-put_ne s.log_files file.id file k apart)))
  where
    P : Storage × Result (Unit {0}) → Type 0
    P r = get r.0.log_files k ≡ get s.log_files k

-- A creation that returns no error stores the file under a new identifier, next to all others.
pub create_log_file-stored :
    (s : Storage) (drawn : Text) (now : Time) (file : LogFile)
    → file.id ≡ []
    → (create_log_file s drawn now file).1 ≡ ok tt
    → (get (create_log_file s drawn now file).0.log_files drawn
        ≡ some (completed_file file drawn now))
      × ((k : Text) (x : LogFile)
          → get s.log_files k ≡ some x
          → get (create_log_file s drawn now file).0.log_files k ≡ some x)
unfolding create_log_file
create_log_file-stored s drawn now file e =
    if_elim P (not (exists (get s.servers file.server_id))) _ _ (λ q h. absurd (bad h))
      (λ q.
        if_elim P (exists (get s.log_files id)) _ _ (λ p h. absurd (bad h))
          (λ p.
            if_elim P (exists (get (by_path s file.server_id) file.path)) _ _
              (λ r h. absurd (bad h))
              (λ r h. (
                subst
                    (λ (i : Text).
                      get (put s.log_files i (completed_file file i now)) drawn
                      ≡ some (completed_file file drawn now))
                    (sym drawn_id) (get-put_self s.log_files drawn (completed_file file drawn now)),
                (λ k x g.
                    get-put_ne s.log_files id (completed_file file id now) k
                      (beq_ne id k (λ same. clash (ap (get s.log_files) same ∙ g) p))
                    ∙ g),
              ))))
  where
    id : Text
    id = if is_empty file.id then drawn else file.id

    drawn_id : id ≡ drawn
    drawn_id = ap (λ (t : Text). if is_empty t then drawn else t) e

    P : Storage × Result (Unit {0}) → Type 0
    P r =
        r.1 ≡ ok tt
        → (get r.0.log_files drawn ≡ some (completed_file file drawn now))
          × ((k : Text) (x : LogFile) → get s.log_files k ≡ some x → get r.0.log_files k ≡ some x)

    bad : {e : Error} → err e ≡ ok tt → ⊥
    bad p = cc

    clash : {x : LogFile} {o : Option LogFile} → o ≡ some x → exists o ≡ false → ⊥
    clash a b = ground arith
