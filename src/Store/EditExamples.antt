-- ===== src/Store/EditExamples.antt =====
-- A public image is moved to a private album, and then asked to be public.
use imgli.Table.{rows_with}
use imgli.Common.{ℕ, ◌≤◌, arith, ◌≡◌, refl, true, false, none, some, ◌∷◌, [], List, String}
use imgli.Common.Int.{pos}
use imgli.Common.Outcome.{ok, err}
use imgli.Model.{Album, private, public}
use imgli.Store.{Db}
use imgli.Store.Trash.{PhysicalDelete}
use imgli.Store.Edit.{
  expires_column, max_views_column, UpdatePatch, PatchTexts, album_forces_private, album_row,
  in_private_album,
}
use imgli.Access.Examples.{week, asked, given, shaped}
use imgli.Store.EditAccess.{update_accepts}
use imgli.Store.EditWrite.{update}
use imgli.Store.EditLaws.{KeepsHidden, update-hides}
use imgli.Store.Examples.{one, picture, file_with, one-IsConsistent}

abbrev plain_texts : PatchTexts
plain_texts = record {
  trim_space = λ s. s;
  to_lower = λ s. s;
  byte_length = λ s. 5;
  slug_re = λ s. true;
  hash_password = λ s. s;
}

abbrev no_change : UpdatePatch
no_change = record {
  name = none;
  visibility = none;
  album_id = none;
  expires_at = none;
  set_expires = false;
  slug = none;
  max_views = none;
  access_password = none;
}

abbrev into_album : UpdatePatch
into_album = record no_change { album_id = some (pos 4); slug = some "cat" }

abbrev make_public : UpdatePatch
make_public = record no_change { visibility = some "public" }

abbrev albums : List Album
albums = record { id = 4; user_id = 1; visibility = private } ∷ []

abbrev hidden : Db
hidden = record one {
  files = record (file_with 1) { id = 2; surface = private; path = "private/abc" } ∷ [];
  images =
      record (picture 1 "k1" none) {
        file_id = 2;
        album_id = some 4;
        visibility = private;
        slug = some "cat";
      }
      ∷ [];
  next_file = 3;
}

-- The public copy, which nothing refers to any more.
abbrev old_object : PhysicalDelete
old_object = record { policy_id = 1; path = "a/b.png"; surface = public; hash = "abc" }

moved_into :
    update plain_texts 1 "k1" into_album [] albums 9 "private/abc" one
    ≡ ok (some old_object, hidden)
unfolding update imgli.Common.first imgli.Store.Edit.patch_group imgli.Store.Edit.check_patch
    imgli.Store.Edit.asked_visibility imgli.Store.Edit.keeps_album imgli.Store.Edit.name_column
    imgli.Store.Edit.visibility_column imgli.Store.Edit.album_column imgli.Store.Edit.expires_column
    imgli.Store.Edit.max_views_column imgli.Store.Edit.password_column imgli.Store.Edit.slug_column
    imgli.Common.any imgli.Store.EditWrite.write_patch imgli.Table.find_id
    imgli.Store.EditWrite.write_and_move imgli.Common.keep imgli.Common.update_where
    imgli.Store.Edit.in_private_album imgli.Store.Edit.write_columns imgli.Store.Rehome.copied_file
    imgli.Store.Rehome.resolve_file_for_surface imgli.Store.Trash.drop_file
    imgli.Store.Trash.update_images imgli.Store.Uploads.bump_ref imgli.Store.Uploads.create_file
    imgli.Table.insert imgli.Table.update_id
moved_into = refl

stays_private :
    update plain_texts 1 "k1" make_public [] albums 9 "abc" hidden ≡ err album_forces_private
unfolding update imgli.Common.first imgli.Store.Edit.patch_group imgli.Store.Edit.check_patch
    imgli.Store.Edit.asked_visibility imgli.Store.Edit.keeps_album imgli.Store.Edit.in_private_album
    imgli.Table.find_id
stays_private = refl

one_album : (k : ℕ) → rows_with album_row k albums ≤ 1
unfolding rows_with
one_album k = ground arith

one_hidden : KeepsHidden albums one
unfolding in_private_album
one_hidden = (λ inside. absurd (ground arith), tt)

update-hides_example : KeepsHidden albums hidden
update-hides_example =
    update-hides plain_texts 1 "k1" into_album [] albums 9 "private/abc" one one_album
      one-IsConsistent.images_keyed.unique one_hidden moved_into

abbrev as_stored : UpdatePatch
as_stored = record no_change {
  expires_at = given.expires_at;
  set_expires = true;
  max_views = some (pos 3);
}

update_accepts_example :
    (expires_column (some week) as_stored 8 ≡ ok (some given.expires_at))
    × (max_views_column (some week) as_stored ≡ ok (some (pos 3)))
update_accepts_example =
    update_accepts week asked 5 8 as_stored shaped refl (omega arith) refl refl refl
