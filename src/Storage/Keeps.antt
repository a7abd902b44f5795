-- ===== src/Storage/Keeps.antt =====
-- What the store of internal/storage/store.go keeps: a file is read back, and is not changed by an
-- upload to another path.
use docpulse.Base.{◌≡◌, ◌≢◌, refl, false, some, none, [], ◌∷◌, ◌++◌, Bool-cases, inl, inr, take}
use docpulse.Base.Result.{ok}
use docpulse.Text.Utf8.{Bytes, str}
use docpulse.Database.JobStore.{Fault}
use docpulse.Storage.{
  Files, same_bytes, find_file, put_file, join, Write, written, not_opened, cut_short, write_file,
  upload, download, or_missing,
}
use docpulse.Storage.Paths.{same_bytes_eq, same_bytes_refl}

pub find_file-put_file :
    (path content : Bytes) (files : Files)
    → find_file path (put_file path content files) ≡ some content
unfolding find_file put_file
find_file-put_file path content [] = rw (same_bytes_refl path)
find_file-put_file path content ((p, old) ∷ files) = elim (Bool-cases (same_bytes p path)) [
  | inl h ↦ rw (h, find_file, h)
  | inr h ↦ rw (h, find_file, h) (find_file-put_file path content files)
]

differs : (p q : Bytes) → p ≢ q → same_bytes p q ≡ false
differs p q n = elim (Bool-cases (same_bytes p q)) [
  | inl h ↦ absurd (n (same_bytes_eq p q h))
  | inr h ↦ h
]

pub find_file-put_file_ne :
    (path other content : Bytes) (files : Files)
    → other ≢ path
    → find_file path (put_file other content files) ≡ find_file path files
unfolding find_file put_file
find_file-put_file_ne path other content [] n = rw (differs other path n)
find_file-put_file_ne path other content ((p, old) ∷ files) n =
    elim (Bool-cases (same_bytes p other)) [
      | inl h ↦ let same = same_bytes_eq p other h in rw (h, find_file, same, differs other path n)
      | inr h ↦ rw (h, find_file, find_file-put_file_ne path other content files n)
    ]

-- An upload changes no file but the one of its key, whatever fails.
pub find_file-upload_ne :
    (mkdir : Fault) (w : Write) (base key content path : Bytes) (files : Files)
    → join base key ≢ path
    → find_file path (upload mkdir w base key content files).1 ≡ find_file path files
unfolding upload write_file
find_file-upload_ne (some e) w base key content path files n = refl
find_file-upload_ne none written base key content path files n =
    find_file-put_file_ne path (join base key) content files n
find_file-upload_ne none (not_opened e) base key content path files n = refl
find_file-upload_ne none (cut_short k e) base key content path files n =
    find_file-put_file_ne path (join base key) (take k content) files n

-- An upload that succeeds answers with the path of its key, where the content then is.
pub upload_ok :
    (mkdir : Fault) (w : Write) (base key content url : Bytes) (files : Files)
    → (upload mkdir w base key content files).0 ≡ ok url
    → (url ≡ str "file://" ++ join base key)
      × (find_file (join base key) (upload mkdir w base key content files).1 ≡ some content)
unfolding upload write_file
upload_ok (some e) w base key content url files h = absurd cc
upload_ok none written base key content url files h =
    (cc, find_file-put_file (join base key) content files)
upload_ok none (not_opened e) base key content url files h = absurd cc
upload_ok none (cut_short k e) base key content url files h = absurd cc

pub download_of_file :
    (path content : Bytes) (files : Files)
    → find_file path files ≡ some content
    → download none path files ≡ ok content
unfolding download or_missing
download_of_file path content files h = rw h
