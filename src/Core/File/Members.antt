-- ===== src/Core/File/Members.antt =====
-- An archive gives each member once: `FileArchive::find` of lib/ReaderWriter/FileArchive.cpp.
use lld_or1k.Base.{
  ℕ, ◌≡◌, refl, Bool, true, false, Option, none, some, List, ◌∷◌, String, contains, contains-head,
  address_eq, arith, name_eq,
}
use lld_or1k.Base.Table.{find}
use lld_or1k.Core.File.{File, FileAddress, archive_find}

module _ (f : File) (name : String) (data_only : Bool) (l after : List ℕ) (m : FileAddress) where
  -- What a lookup that gives a file has seen and marked.
  abbrev Given : ℕ → Type 0
  Given start =
      (find name f.symbol_member_map ≡ some start)
      × (contains start l ≡ false)
      × (after ≡ start ∷ l)

  Given-at :
      (member : Option ℕ)
      → find name f.symbol_member_map ≡ member
      → archive_find f name data_only l ≡ (some m, after)
      → (start : ℕ) × Given start
  unfolding archive_find
  Given-at none at h = absurd (ground (arith, at, h))
  Given-at (some start) at h = (start, (at, ground (arith, at, h), ground (arith, at, h)))

  archive_find-some : archive_find f name data_only l ≡ (some m, after) → (start : ℕ) × Given start
  archive_find-some = Given-at (find name f.symbol_member_map) refl

-- Two lookups that both give a file, the second in a state that still marks every member that was
-- marked after the first: the two names stand for different members of the archive.
pub archive_find-once :
    (f : File) (name later : String) (data_only data_later : Bool) (l after l' after' : List ℕ)
    (m m' : FileAddress)
    → archive_find f name data_only l ≡ (some m, after)
    → ((x : ℕ) → contains x after ≡ true → contains x l' ≡ true)
    → archive_find f later data_later l' ≡ (some m', after')
    → ¬ (find name f.symbol_member_map ≡ find later f.symbol_member_map)
archive_find-once f name later data_only data_later l after l' after' m m' first keeps second same =
    let (start, (at, _, is)) = archive_find-some f name data_only l after m first in
    let (start', (at', fresh, _)) = archive_find-some f later data_later l' after' m' second in
    let one : start ≡ start' = cc (at, at', same) in
    let marked : contains start' after ≡ true = rw (is, one) (contains-head start' l) in
    cc (keeps start' marked, fresh)
