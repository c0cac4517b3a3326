-- ===== src/Store/TagText.antt =====
-- The tags of a new store (populateTables), and the text of a tag (tagIntToString).
use native.Mathlib.Nat.{one-le-pow}
use cf_networking_release.Prelude.{
  ℕ, zero, suc, ◌+◌, ◌-◌, ◌*◌, ◌^◌, ◌<◌, ◌≡◌, refl, ap, ◌∙◌, sym, ◌&&◌, none, some, List, [],
  ==_iff, leb, ltb, length, arith, ok, if◌then◌else◌,
}
use cf_networking_release.Prelude.Print.{read_hex, read_hex-print_hex, length-print_hex}
use cf_networking_release.Store.Tables.{GroupRow, Db}
use cf_networking_release.Store.Reads.{tag_int_to_string, blank_rows, populate_tables, no_fault}
use cf_networking_release.Store.GroupRows.{guid_at, IsTagTable}

bytes_of_digits : (n : ℕ) → 2 ^ (n * 8) ≡ 16 ^ (n * 2)
bytes_of_digits zero = refl
bytes_of_digits (suc n) =
    ap (λ k. 2 ^ k) (eight n) ∙ omega (arith, bytes_of_digits n) ∙ sym (ap (λ k. 16 ^ k) (two n))
  where
    eight : (n : ℕ) → suc n * 8 ≡ suc (suc (suc (suc (suc (suc (suc (suc (n * 8))))))))
    eight n = omega arith

    two : (n : ℕ) → suc n * 2 ≡ suc (suc (n * 2))
    two n = omega arith

-- A tag that fits the tag's length in bytes is printed as two digits for each, which read back as
-- the tag: two tags never have the same text.
pub read_hex-tag_int_to_string :
    (tag_length tag : ℕ)
    → 0 < tag_length
    → tag < 2 ^ (tag_length * 8)
    → (length (tag_int_to_string tag_length tag) ≡ tag_length * 2)
      × (read_hex (tag_int_to_string tag_length tag) 0 ≡ tag)
unfolding tag_int_to_string
read_hex-tag_int_to_string tag_length tag some_bytes fits = (
  length-print_hex (tag_length * 2) tag (omega arith) (omega (arith, bytes_of_digits tag_length)),
  read_hex-print_hex (tag_length * 2) tag,
)

guid_at-blank_rows :
    (count first id : ℕ)
    → guid_at id (blank_rows count first)
      ≡ (if leb first id && ltb id (first + count) then some none else none)
unfolding blank_rows
guid_at-blank_rows zero first id = ground arith
guid_at-blank_rows (suc count) first id =
    ground (arith, guid_at-blank_rows count (first + 1) id, ==_iff first id)

blank_rows-IsTagTable : (count first : ℕ) → IsTagTable (blank_rows count first)
unfolding blank_rows
blank_rows-IsTagTable zero first = tt
blank_rows-IsTagTable (suc count) first = (
  guid_at-blank_rows count (first + 1) first ∙ ground arith,
  λ g e. absurd (ground (arith, e)),
  blank_rows-IsTagTable count (first + 1),
)

-- On an empty table that answers, populateTables makes one blank row for each tag of the length but
-- 0, and no id stands twice.
pub populate_tables-blank :
    (tag_length : ℕ) (db : Db)
    → db.groups ≡ []
    → (rows : List GroupRow) × (populate_tables tag_length none none db
        ≡ ok (record db { groups = rows }))
      × IsTagTable rows
      × ((id : ℕ)
          → guid_at id rows
            ≡ (if leb 1 id && ltb id (2 ^ (tag_length * 8)) then some none else none))
unfolding populate_tables no_fault
populate_tables-blank tag_length db fresh =
    let count = 2 ^ (tag_length * 8) - 1 in
    (
      blank_rows count 1,
      rw fresh refl,
      blank_rows-IsTagTable count 1,
      λ id.
          guid_at-blank_rows count 1 id
          ∙ ground (arith, one-le-pow (tag_length * 8) 2 (omega arith)),
    )
