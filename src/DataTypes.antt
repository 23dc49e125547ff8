-- ===== src/DataTypes.antt =====
-- dataTypes.h: the fields of an ensemble, one row for each member and one column for each grid point.
use eps2probandltf.Common.{ℕ, List, Result, ok, at, length, front_size, ◌>>=◌, replicate}
use eps2probandltf.Machine.{Machine}

module _ ⦃m : Machine⦄ where
  abbrev pub BlobValue : Type 0
  BlobValue = m.Float

  abbrev pub BlobContainer : Type 0
  BlobContainer = List BlobValue

  abbrev pub BlobCollection : Type 0
  BlobCollection = List BlobContainer

  -- `AdjustTowardReference<float>(scale)(main, reference)`.
  unfoldable pub adjust_toward_reference : BlobValue → BlobValue → BlobValue → BlobValue
  adjust_toward_reference scale main reference =
      m.float.add main (m.float.mul scale (m.float.sub reference main))

  -- `getBlobCollection`. `resize` fills with zeros.
  unfoldable pub get_blob_collection : ℕ → ℕ → BlobCollection
  get_blob_collection no_of_blobs blob_size =
      replicate no_of_blobs (replicate blob_size (m.float.of_nat 0))

  -- `getEqualSizeBlobCollection` reads `c[0]`.
  unfoldable pub get_equal_size_blob_collection : BlobCollection → Result BlobCollection
  unfolding get_blob_collection
  get_equal_size_blob_collection c = do
    size ← front_size c
    ok (get_blob_collection (length c) size)

  -- `xSize`.
  unfoldable pub x_size : BlobCollection → Result ℕ
  x_size c = do row ← at c 0; ok (length row)
