-- ===== src/Store/Edit.antt =====
-- Changing one image: internal/service/imagesvc/update.go. The texts' checks are Go's `strings` and
-- `regexp`, parameters here.
use imgli.Common.{
  ℕ, Bool, false, not, ◌&&◌, ◌||◌, Option, none, some, List, String, str_eq, ltb, if◌then◌else◌,
  ◌==◌, first, any, is_some,
}
use imgli.Common.Int.{ℤ, pos, pos_part, ltb_ℤ, leb_ℤ}
use imgli.Common.Outcome.{Outcome, ok, err, ◌>>=◌}
use imgli.Table.{find_id}
use imgli.Model.{UserGroup, Image, Album, Time, Visibility, public, private, same_visibility}
use imgli.Access.{AccessError, check_group_expires, check_group_max_views, global_max_views}
use imgli.Store.{Db, StoreError, find_user}
use imgli.Store.Moderate.{is_live}

-- UpdatePatch: `none` where the field is not to change.
pub record UpdatePatch : Type 0 where
  pub name : Option String
  pub visibility : Option String
  pub album_id : Option ℤ
  pub expires_at : Option Time
  pub set_expires : Bool
  pub slug : Option String
  pub max_views : Option ℤ
  pub access_password : Option String

pub data UpdateError : Type 0 where
  image_not_found row_not_found album_not_found album_forces_private invalid_name : UpdateError
  invalid_visibility invalid_max_views invalid_access_password : UpdateError
  invalid_slug slug_taken slug_index : UpdateError
  over_group : AccessError → UpdateError
  store_error : StoreError → UpdateError

-- What update.go calls of `strings`, the regular expression `slugRe`, and auth.HashPassword with the
-- salt that it draws (Auth/Password models it).
pub record PatchTexts : Type 0 where
  pub trim_space : String → String
  pub to_lower : String → String
  pub byte_length : String → ℕ
  pub slug_re : String → Bool
  pub hash_password : String → String

-- `updates`: the columns to write.
pub record Columns : Type 0 where
  pub name : Option String
  pub visibility : Option Visibility
  pub album_id : Option (Option ℕ)
  pub expires_at : Option (Option Time)
  pub max_views : Option ℤ
  pub access_password_hash : Option String
  pub slug : Option (Option String)

abbrev pub or_old {ℓ} : {A : Type ℓ} → Option A → A → A
or_old none old = old
or_old (some new) old = new

unfoldable pub write_columns : Columns → Image → Image
write_columns c i = record i {
  name = or_old c.name i.name;
  visibility = or_old c.visibility i.visibility;
  album_id = or_old c.album_id i.album_id;
  expires_at = or_old c.expires_at i.expires_at;
  max_views = or_old c.max_views i.max_views;
  access_password_hash = or_old c.access_password_hash i.access_password_hash;
  slug = or_old c.slug i.slug;
}

abbrev pub album_row : Album → ℕ
album_row a = a.id

abbrev pub find_album : ℕ → ℤ → List Album → Option Album
find_album uid id albums =
    first (λ a. a.id == pos_part id && ltb_ℤ (pos 0) id && a.user_id == uid) albums

abbrev pub is_private : Visibility → Bool
is_private v = same_visibility v private

-- An image that moves to a private album becomes private whatever the patch asks for.
unfoldable pub asked_visibility : ℕ → UpdatePatch → List Album → Outcome UpdateError (Option String)
asked_visibility uid p albums = elim p.album_id [
  | none ↦ ok p.visibility
  | some id ↦
      if ltb_ℤ (pos 0) id
      then elim (find_album uid id albums) [
        | none ↦ err album_not_found
        | some dest ↦ ok (if is_private dest.visibility then some "private" else p.visibility)
      ]
      else ok p.visibility
]

unfoldable pub in_private_album : Option ℕ → List Album → Bool
in_private_album none albums = false
in_private_album (some id) albums = elim (find_id album_row id albums) [
  | none ↦ false
  | some cur ↦ is_private cur.visibility
]

-- An image that stays in a private album may not become public.
unfoldable pub keeps_album :
    Option String → UpdatePatch → Image → List Album → Outcome UpdateError (Option String)
keeps_album none p img albums = ok none
keeps_album (some v) p img albums =
    if str_eq v "public" && not (is_some p.album_id) && in_private_album img.album_id albums
    then err album_forces_private
    else ok (some v)

unfoldable pub visibility_column : Option String → Outcome UpdateError (Option Visibility)
visibility_column none = ok none
visibility_column (some v) =
    if str_eq v "public"
    then ok (some public)
    else if str_eq v "private"
    then ok (some private)
    else err invalid_visibility

unfoldable pub album_column : ℕ → UpdatePatch → List Album → Outcome UpdateError (Option (Option ℕ))
album_column uid p albums = elim p.album_id [
  | none ↦ ok none
  | some id ↦
      if leb_ℤ id (pos 0) && leb_ℤ (pos 0) id
      then ok (some none)
      else elim (find_album uid id albums) [
        | none ↦ err album_not_found
        | some dest ↦ ok (some (some (pos_part id)))
      ]
]

unfoldable pub expires_column :
    Option UserGroup → UpdatePatch → Time → Outcome UpdateError (Option (Option Time))
expires_column group p now =
    if p.set_expires
    then elim (check_group_expires group p.expires_at now) [
      | err e ↦ err (over_group e)
      | ok u ↦ ok (some p.expires_at)
    ]
    else ok none

unfoldable pub max_views_column : Option UserGroup → UpdatePatch → Outcome UpdateError (Option ℤ)
max_views_column group p = elim p.max_views [
  | none ↦ ok none
  | some n ↦
      if ltb_ℤ n (pos 0) || ltb_ℤ (pos global_max_views) n
      then err invalid_max_views
      else elim (check_group_max_views group n) [ err e ↦ err (over_group e) | ok u ↦ ok (some n) ]
]

module _ (x : PatchTexts) where
  unfoldable pub name_column : Option String → Outcome UpdateError (Option String)
  name_column none = ok none
  name_column (some n) =
      let name = x.trim_space n in
      if str_eq name "" || ltb 255 (x.byte_length name) then err invalid_name else ok (some name)

  unfoldable pub password_column : Option String → Outcome UpdateError (Option String)
  password_column none = ok none
  password_column (some pw) =
      let trimmed = x.trim_space pw in
      if str_eq trimmed ""
      then ok (some "")
      else if ltb 128 (x.byte_length trimmed)
      then err invalid_access_password
      else ok (some (x.hash_password trimmed))

  -- Live images only: the query leaves out what is in the recycle bin.
  abbrev pub holds_slug : String → String → Image → Bool
  holds_slug key v i =
      is_live i && (elim i.slug [ none ↦ false | some w ↦ str_eq w v ]) && not (str_eq i.key key)

  abbrev pub holds_key : String → String → Image → Bool
  holds_key key v i = is_live i && str_eq i.key v && not (str_eq i.key key)

  unfoldable pub slug_column :
      String → Option String → Db → Outcome UpdateError (Option (Option String))
  slug_column key none db = ok none
  slug_column key (some raw) db =
      let v = x.to_lower (x.trim_space raw) in
      if str_eq v ""
      then ok (some none)
      else if not (x.slug_re v)
      then err invalid_slug
      else if any (holds_slug key v) db.images || any (holds_key key v) db.images
      then err slug_taken
      else ok (some (some v))

  -- The checks of Update, in their order.
  unfoldable pub check_patch :
      ℕ
      → Image
      → UpdatePatch
      → Option UserGroup
      → List Album
      → Time
      → Db
      → Outcome UpdateError Columns
  check_patch uid img p group albums now db = do
    asked ← asked_visibility uid p albums
    kept ← keeps_album asked p img albums
    name ← name_column p.name
    visibility ← visibility_column kept
    album_id ← album_column uid p albums
    expires_at ← expires_column group p now
    max_views ← max_views_column group p
    password ← password_column p.access_password
    slug ← slug_column img.key p.slug db
    ok (record {
      name = name;
      visibility = visibility;
      album_id = album_id;
      expires_at = expires_at;
      max_views = max_views;
      access_password_hash = password;
      slug = slug;
    })

-- The group is read only for a change that has limits.
unfoldable pub patch_group :
    ℕ → UpdatePatch → List UserGroup → Db → Outcome UpdateError (Option UserGroup)
patch_group uid p groups db =
    if p.set_expires || is_some p.max_views
    then elim (find_user uid db) [
      | none ↦ err row_not_found
      | some u ↦ elim (find_id (λ (g : UserGroup). g.id) u.group_id groups) [
        | none ↦ err row_not_found
        | some g ↦ ok (some g)
      ]
    ]
    else ok none
