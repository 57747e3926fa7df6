-- ===== src/Store/ResolveLaws.antt =====
-- Finding or creating the file of the same bytes on another surface: resolveFileForSurface.
use mathlib.Core.Path.{subst}
use imgli.Common.{
  ℕ, ◌≡◌, refl, sym, ◌∙◌, ◌&&◌, Option, some, String, arith, ◌==◌, eq_iff, str_eq, if◌then◌else◌,
  first, inl, inr, Option-cases,
}
use imgli.Table.{find_id, insert}
use imgli.Table.Laws.{find_id-absent, find_id-insert, IsKeyed-insert}
use imgli.Table.Conditional.{first-found}
use imgli.Model.{File, Image, Visibility, same_visibility}
use imgli.Store.{Db, file_key, find_file}
use imgli.Store.Uploads.{create_file}
use imgli.Store.Rehome.{copied_file, resolve_file_for_surface}
use imgli.Store.Invariant.{
  IsConsistent, lent, size_weight, face_weight, lent-agree, refs-fresh, same_visibility-eq,
}

module _ (cs : String → ℕ) (db : Db) (c : IsConsistent cs db) (old : File) (target : Visibility)
    (path : String) (there : find_file old.id db ≡ some old) where
  -- What resolveFileForSurface answers: a file of the same bytes on the target surface, in a store
  -- that is consistent and has the old file and all images as before.
  pub record IsResolved (fid : ℕ) (after : Db) : Type 0 where
    pub consistent : IsConsistent cs after
    pub file : File
    pub found : find_file fid after ≡ some file
    pub same_bytes : file.hash ≡ old.hash
    pub on_target : file.surface ≡ target
    pub old_there : find_file old.id after ≡ some old
    pub images_same : after.images ≡ db.images

  abbrev fresh_file : File
  fresh_file = copied_file old target path db.next_file

  found_copy :
      (g : ℕ)
      → find_id file_key g (insert file_key fresh_file db.files)
        ≡ (if db.next_file == g then some fresh_file else find_id file_key g db.files)
  unfolding copied_file
  found_copy g =
      ground
        (arith, find_id-insert file_key g fresh_file db.files, c.files_keyed.fresh db.next_file)

  lent-copy :
      (W : Option (ℕ × Visibility) → Image → ℕ)
      → lent W (insert file_key fresh_file db.files) db.images ≡ lent W db.files db.images
  lent-copy W =
      lent-agree W db.files (insert file_key fresh_file db.files) db.next_file db.images
        (refs-fresh db c) (λ g ne. rw (found_copy g, ne))

  copy-IsConsistent : IsConsistent cs (create_file (copied_file old target path) db)
  unfolding create_file copied_file
  copy-IsConsistent = record {
    files_keyed = IsKeyed-insert file_key db.next_file fresh_file db.files refl c.files_keyed;
    images_keyed = c.images_keyed;
    counted = λ g. ground (arith, found_copy g, c.counted g, refs-fresh db c);
    charged = λ uid. c.charged uid ∙ sym (lent-copy (size_weight uid));
    sized = λ g. ground (arith, found_copy g, c.sized g, c.sized old.id, there);
    placed = lent-copy face_weight ∙ c.placed;
  }

  copy-IsResolved : IsResolved db.next_file (create_file (copied_file old target path) db)
  unfolding create_file copied_file
  copy-IsResolved = record {
    consistent = copy-IsConsistent;
    file = fresh_file;
    found = ground (arith, found_copy db.next_file);
    same_bytes = refl;
    on_target = refl;
    old_there = ground (
      arith,
      found_copy old.id,
      there,
      c.files_keyed.fresh db.next_file,
      find_id-absent file_key db.next_file db.files,
    );
    images_same = refl;
  }

  existing-IsResolved :
      {f : File}
      → first (λ f. str_eq f.hash old.hash && same_visibility f.surface target) db.files ≡ some f
      → IsResolved f.id db
  existing-IsResolved {f = f} e =
      let (holds, found') = first-found file_key _ db.files e c.files_keyed.unique in
      record {
        consistent = c;
        file = f;
        found = found';
        same_bytes = ground (arith, eq_iff f.hash old.hash);
        on_target = same_visibility-eq f.surface target (ground (arith, eq_iff f.hash old.hash));
        old_there = there;
        images_same = refl;
      }

  abbrev resolved : ℕ × Db
  resolved = resolve_file_for_surface old target path db

  pub resolve-IsResolved : IsResolved resolved.0 resolved.1
  unfolding resolve_file_for_surface
  resolve-IsResolved =
      elim (Option-cases
        (first (λ f. str_eq f.hash old.hash && same_visibility f.surface target) db.files)) [
          | inl e ↦
              let copied : resolved ≡ (db.next_file, create_file (copied_file old target path) db) =
                rw (e, resolve_file_for_surface) in
              subst (λ r. IsResolved r.0 r.1) (sym copied) copy-IsResolved
          | inr (f, e) ↦
              let kept : resolved ≡ (f.id, db) = rw (e, resolve_file_for_surface) in
              subst (λ r. IsResolved r.0 r.1) (sym kept) (existing-IsResolved e)
        ]
