-- ===== src/Memory/Index/Emptied.antt =====
-- DeleteLogEntriesByLogFile keeps the index right, and so does every change of the other maps.
use mathlib.Core.Path.{subst}
use log_integrity.Prelude.{
  ◌≡◌, refl, sym, ap, ◌∙◌, Option, none, some, Text, text_eq, Option-cases, Option-elim, inl, inr,
  Distinct, if_elim, not, ◌&&◌, ◌==◌,
}
use log_integrity.Prelude.GoMap.{keys, get, put, get-put_self, values}
use log_integrity.Prelude.Int.{int_eq}
use log_integrity.Models.{LogFile, LogEntry}
use log_integrity.Repository.{Result}
use log_integrity.Memory.{Storage}
use log_integrity.Memory.Entries.{by_line, or_empty, delete_all, delete_log_entries_by_log_file}
use log_integrity.Memory.Index.{IsIndexed}
use log_integrity.Memory.LogFiles.{
  delete_log_file_cascade, update_log_file, by_path, taken_by_other,
}
use log_integrity.Memory.LogFiles.Cascade.{
  delete_log_file_cascade-IsExact, get-delete_all, entries-after, index-after,
}

-- The index is right if it was right on the same two maps.
pub same-IsIndexed :
    (s t : Storage)
    → t.entries ≡ s.entries
    → t.entries_by_log_file ≡ s.entries_by_log_file
    → IsIndexed s
    → IsIndexed t
same-IsIndexed s t p q h = record {
  listed = λ f n id g.
      let (e, i, a, b) = h.listed f n id (ap (λ m. get (or_empty (get m f)) n) (sym q) ∙ g) in
      (e, ap (λ m. get m id) p ∙ i, a, b);
  indexed = λ id e g.
      ap (λ m. get (or_empty (get m e.log_file_id)) e.line_number) q
      ∙ h.indexed id e (ap (λ m. get m id) (sym p) ∙ g);
  lines_once = λ f. subst (λ m. Distinct (keys (or_empty (get m f)))) (sym q) (h.lines_once f);
}

pub delete_log_entries_by_log_file-IsIndexed :
    (s : Storage) (file : LogFile)
    → IsIndexed s
    → IsIndexed (delete_log_entries_by_log_file s file.id)
unfolding delete_log_entries_by_log_file
delete_log_entries_by_log_file-IsIndexed s file h =
    same-IsIndexed (delete_log_file_cascade known file.id)
      (delete_log_entries_by_log_file s file.id)
      (sym (entries-after known file.id file indexed found))
      (sym (index-after known file.id file indexed found))
      (delete_log_file_cascade-IsExact known file.id file indexed found).2
  where
    known : Storage
    known = record s { log_files = put s.log_files file.id file }

    indexed : IsIndexed known
    indexed = same-IsIndexed s known refl refl h

    found : get known.log_files file.id ≡ some file
    found = get-put_self s.log_files file.id file

-- What was unused stays unused.
pub delete_log_entries_by_log_file-unused :
    (s : Storage) (f id : Text)
    → get s.entries id ≡ none
    → get (delete_log_entries_by_log_file s f).entries id ≡ none
unfolding delete_log_entries_by_log_file
delete_log_entries_by_log_file-unused s f id h =
    elim (Option-cases (get (delete_all s.entries (values (by_line s f))) id)) [
      | inl q ↦ q
      | inr (e, q) ↦ absurd (clash h (get-delete_all s.entries (values (by_line s f)) id e q).0)
    ]
  where
    clash : {o : Option LogEntry} {e : LogEntry} → o ≡ none → o ≡ some e → ⊥
    clash p q = cc

pub update_log_file-IsIndexed :
    (s : Storage) (file : LogFile) → IsIndexed s → IsIndexed (update_log_file s file).0
unfolding update_log_file
update_log_file-IsIndexed s file h =
    Option-elim (λ (r : Storage × Result (Unit {0})). IsIndexed r.0) (get s.log_files file.id) _ _
      (λ q. h)
      (λ current q.
        if_elim (λ (r : Storage × Result (Unit {0})). IsIndexed r.0)
          (not (current.server_id == file.server_id)) _ _ (λ p. h)
          (λ p.
            if_elim (λ (r : Storage × Result (Unit {0})). IsIndexed r.0)
              (not (current.path == file.path)
                && taken_by_other (get (by_path s file.server_id) file.path) file.id)
              _ _ (λ r. h) (λ r. same-IsIndexed s _ refl refl h)))
