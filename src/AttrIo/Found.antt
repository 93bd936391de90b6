-- ===== src/AttrIo/Found.antt =====
-- What `find_attribute` of src/attr_io.rs may find in a record of any bytes.
use rust_fs_ntfs.Base.{ℕ, ◌+◌, ◌≤◌, ◌≡◌, refl, inl, inr, ◌==◌, Bool-cases, ◌&&◌}
use rust_fs_ntfs.Base.{List, [], ◌∷◌, length, Option, some, none, ok}
use rust_fs_ntfs.AttrIo.{AttrLocation, find_unnamed, find_attribute, bytes_used, attrs_offset}
use rust_fs_ntfs.AttrIo.Located.{HasHeader, HasValue, Located, iter_attributes-Located}

-- What a search among located attributes may give.
pub data FoundIn (end : ℕ) (r : Option AttrLocation) : Type 0 where
  absent : r ≡ none → FoundIn end r
  present :
      (cursor : ℕ) (loc : AttrLocation)
      → r ≡ some loc
      → HasHeader end cursor loc
      → HasValue loc
      → FoundIn end r

find_unnamed-FoundIn :
    (end cursor type_code : ℕ) (locs : List AttrLocation)
    → Located end cursor locs
    → FoundIn end (find_unnamed locs type_code)
unfolding find_unnamed
find_unnamed-FoundIn end cursor t [] l = absent refl
find_unnamed-FoundIn end cursor t (loc ∷ locs) (h, v, l) =
    elim (Bool-cases (loc.type_code == t && loc.name_length == 0)) [
      | inl hit ↦ rw hit (present cursor loc refl h v)
      | inr miss ↦ rw miss (find_unnamed-FoundIn end (cursor + loc.attr_length) t locs l)
    ]

-- The search in a record of any bytes never panics.
pub find_attribute-FoundIn :
    (bytes : List ℕ) (type_code : ℕ)
    → (r : Option AttrLocation) × (find_attribute bytes type_code ≡ ok r)
      × (bytes_used bytes ≤ length bytes)
      × FoundIn (bytes_used bytes) r
unfolding find_attribute
find_attribute-FoundIn bytes type_code =
    let (locs, e, fits, l) = iter_attributes-Located bytes in
    (
      find_unnamed locs type_code,
      rw e refl,
      fits,
      find_unnamed-FoundIn (bytes_used bytes) (attrs_offset bytes) type_code locs l,
    )
