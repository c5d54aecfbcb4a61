-- ===== src/Wal/Pages.antt =====
-- The log as one byte string, and how the files of src/wal/ hold it page by page.
use lsm_rs.Prelude.{
  ℕ, ◌+◌, ◌-◌, ◌*◌, ◌≤◌, min, ◌≡◌, refl, List, [], ◌++◌, Option, none, some, length, take, drop,
  replicate, take_all, drop_all, take-append_le, drop-append_le, length-append, length-drop,
  length-take, take-length_append, append-nil, ◌==◌, if◌then◌else◌, arith, Bool, true, false,
}
use lsm_rs.Wal.{page_size}
use lsm_rs.Wal.Files.{Files, LogFile, Handle, update, overwrite, write_bytes, create}

-- The bytes of file `k` of the log.
unfoldable pub page : List ℕ → ℕ → List ℕ
page log k = take page_size (drop (k * page_size) log)

abbrev pub content_of : Option LogFile → Option (List ℕ)
content_of none = none
content_of (some f) = some f.content

unfoldable pub content : Files → ℕ → Option (List ℕ)
content fs k = content_of (fs k)

-- The files from `lo` on hold the log. A full page has a next file, which may be empty.
abbrev pub Stored : Files → ℕ → List ℕ → Type 0
Stored fs lo log = (k : ℕ) → lo ≤ k → k * page_size ≤ length log → content fs k ≡ some (page log k)

pub length-page :
    (log : List ℕ) (k : ℕ) → length (page log k) ≡ min page_size (length log - k * page_size)
unfolding page
length-page log k =
    omega (arith, length-take page_size (drop (k * page_size) log), length-drop (k * page_size) log)

-- A full page is not changed by what is appended.
pub page-append_full :
    (log bytes : List ℕ) (k : ℕ)
    → k * page_size + page_size ≤ length log
    → page (log ++ bytes) k ≡ page log k
unfolding page
page-append_full log bytes k h = rw (drop-append_le (k * page_size) log bytes (omega arith)) (
    take-append_le page_size (drop (k * page_size) log) bytes
      (omega (arith, length-drop (k * page_size) log)))

-- What is appended within the last page comes at its end.
pub page-append_last :
    (log bytes : List ℕ) (k : ℕ)
    → k * page_size ≤ length log
    → length log + length bytes ≤ k * page_size + page_size
    → page (log ++ bytes) k ≡ page log k ++ bytes
unfolding page
page-append_last log bytes k h room = rw (
  drop-append_le (k * page_size) log bytes h,
  take_all page_size (drop (k * page_size) log ++ bytes) (
      omega
        (arith, length-append (drop (k * page_size) log) bytes, length-drop (k * page_size) log)),
  take_all page_size (drop (k * page_size) log) (omega (arith, length-drop (k * page_size) log)),
)

-- At the end of the log a page is empty.
pub page_end : (log : List ℕ) (k : ℕ) → length log ≤ k * page_size → page log k ≡ []
unfolding page
page_end log k h = rw (drop_all (k * page_size) log h)

pub overwrite_end : (c bytes : List ℕ) → overwrite c (length c) bytes ≡ c ++ bytes
unfolding overwrite
overwrite_end c bytes = rw (
  drop_all (length c + length bytes) c (omega arith),
  take-length_append c (replicate (length c - length c) 0),
  append-nil bytes,
)

content_of-if :
    (b : Bool) (f g : Option LogFile)
    → content_of (if b then f else g) ≡ (if b then content_of f else content_of g)
content_of-if true f g = refl
content_of-if false f g = refl

pub content-update :
    (fs : Files) (j k : ℕ) (f : Option LogFile)
    → content (update fs j f) k ≡ (if k == j then content_of f else content fs k)
unfolding content
content-update fs j k f = content_of-if (k == j) f (fs k)

pub content-create :
    (fs : Files) (j k : ℕ) → content (create fs j) k ≡ (if k == j then some [] else content fs k)
unfolding create
content-create fs j k = content-update fs j k _

-- The file that a write at the cursor leaves.
abbrev written : Option LogFile → ℕ → List ℕ → Option LogFile
written none cursor bytes = none
written (some f) cursor bytes = some (record f { content = overwrite f.content cursor bytes })

content_of-written :
    (f : Option LogFile) (cursor : ℕ) (bytes c : List ℕ)
    → content_of f ≡ some c
    → content_of (written f cursor bytes) ≡ some (overwrite c cursor bytes)
content_of-written none cursor bytes c e = cc
content_of-written (some f) cursor bytes c e = let same : f.content ≡ c = cc in rw same

written-elim :
    (f : Option LogFile) (cursor : ℕ) (bytes : List ℕ)
    → (elim f [
      | none ↦ none
      | some g ↦ some (record g { content = overwrite g.content cursor bytes })
    ])
      ≡ written f cursor bytes
written-elim none cursor bytes = refl
written-elim (some f) cursor bytes = refl

pub content-write_at :
    (fs : Files) (h : Handle) (bytes c : List ℕ) (k : ℕ)
    → content fs h.fpos ≡ some c
    → content (write_bytes fs h bytes) k
      ≡ (if k == h.fpos then some (overwrite c h.cursor bytes) else content fs k)
unfolding content write_bytes
content-write_at fs h bytes c k e = rw (
  content_of-if (k == h.fpos) _ (fs k),
  written-elim (fs h.fpos) h.cursor bytes,
  content_of-written (fs h.fpos) h.cursor bytes c e,
)

-- A write at the end of a file.
pub content-write_bytes :
    (fs : Files) (h : Handle) (bytes c : List ℕ) (k : ℕ)
    → content fs h.fpos ≡ some c
    → h.cursor ≡ length c
    → content (write_bytes fs h bytes) k ≡ (if k == h.fpos then some (c ++ bytes) else content fs k)
content-write_bytes fs h bytes c k e l =
    rw (content-write_at fs h bytes c k e, l, overwrite_end c bytes)
