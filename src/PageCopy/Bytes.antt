-- ===== src/PageCopy/Bytes.antt =====
-- Copying a page: byte by byte, the frame of one page becomes that of the other.
use theynix.Base.{
  ℕ, zero, suc, ◌+◌, ◌≡◌, ◌≢◌, refl, true, ◌&&◌, ◌==◌, some, arith, if◌then◌else◌, ltb, leb, update,
}
use theynix.PageCopy.{copy_page_data, page_size, copy_bytes, readable, writable, Mmu}

-- The bytes from `i` to below `i + n` of frame `b` are those of frame `a` before; nothing else of the
-- frames has changed.
abbrev pub Copied : (i n a b : ℕ) (frames frames' : ℕ → ℕ → ℕ) → Type 0
Copied i n a b frames frames' =
    (f o : ℕ)
    → frames' f o ≡ (if f == b && (leb i o && ltb o (i + n)) then frames a o else frames f o)

copy_bytes-Copied :
    (i n source dest a b : ℕ) (u : Mmu)
    → readable (u.loaded source) ≡ true
    → writable (u.loaded dest) ≡ true
    → (u.loaded source).pfn ≡ a
    → (u.loaded dest).pfn ≡ b
    → a ≢ b
    → (frames : ℕ → ℕ → ℕ) × (copy_bytes i n source dest u ≡ some (record u { frames = frames }))
      × Copied i n a b u.frames frames
unfolding copy_bytes
copy_bytes-Copied i zero source dest a b u r w at_a at_b ne = (u.frames, refl, λ f o. ground arith)
copy_bytes-Copied i (suc n) source dest a b u r w at_a at_b ne =
    let frames1 = update u.frames b (update (u.frames b) i (u.frames a i)) in
    let (frames, run, copied) =
      copy_bytes-Copied (i + 1) n source dest a b (record u { frames = frames1 }) r w at_a at_b
        ne in
    (frames, rw at_a (rw at_b (ground (arith, run))), λ f o. ground (arith, copied f o))

-- Such a copy of a whole page.
abbrev pub PageCopied : (a b : ℕ) (frames frames' : ℕ → ℕ → ℕ) → Type 0
PageCopied a b = Copied 0 page_size a b

pub copy_page_data-PageCopied :
    (source dest a b : ℕ) (u : Mmu)
    → readable (u.loaded source) ≡ true
    → writable (u.loaded dest) ≡ true
    → (u.loaded source).pfn ≡ a
    → (u.loaded dest).pfn ≡ b
    → a ≢ b
    → (frames : ℕ → ℕ → ℕ) × (copy_page_data source dest u ≡ some (record u { frames = frames }))
      × PageCopied a b u.frames frames
unfolding copy_page_data
copy_page_data-PageCopied source dest a b u r w at_a at_b ne =
    copy_bytes-Copied 0 page_size source dest a b u r w at_a at_b ne
