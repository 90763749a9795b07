-- ===== src/VMem/Prot.antt =====
-- ChangeProtRegion1Pages over pages that are mapped.
use theynix.Base.{
  ℕ, zero, suc, ◌+◌, ◌≤◌, ◌<◌, ◌≡◌, ◌∙◌, ◌⊎◌, inl, inr, refl, true, ◌==◌, some, arith, Bool-cases,
  update,
}
use theynix.VMem.{PageTable, change_prot_region_1_pages, num_pages_reg_1}

-- Over mapped pages of region 1 no assert fails; each of these pages gets the protection and keeps its
-- frame, and no other page changes.
pub change_prot_region_1_pages-sets :
    (page n prot : ℕ) (t : PageTable)
    → page + n ≤ num_pages_reg_1
    → ((q : ℕ) → page ≤ q → q < page + n → (t q).valid ≡ true)
    → (t' : PageTable) × (change_prot_region_1_pages page n prot t ≡ some t')
      × ((q : ℕ) → page ≤ q → q < page + n → t' q ≡ record (t q) { prot = prot })
      × ((q : ℕ) → (q < page) ⊎ (page + n ≤ q) → t' q ≡ t q)
unfolding change_prot_region_1_pages
change_prot_region_1_pages-sets page zero prot t room mapped =
    (t, refl, λ q lo hi. absurd (omega arith), λ q out. refl)
change_prot_region_1_pages-sets page (suc n) prot t room mapped =
    let t1 = update t page (record (t page) { prot = prot }) in
    let valid_here = mapped page (omega arith) (omega arith) in
    let (t', run, inside, outside) =
      change_prot_region_1_pages-sets (page + 1) n prot t1 (omega arith)
        (λ q lo hi. ground (arith, mapped q)) in
    (
      t',
      ground (arith, valid_here, run),
      λ q lo hi. elim (Bool-cases (page == q)) [
        | inl hit ↦ outside q (inl (ground arith)) ∙ ground arith
        | inr miss ↦ inside q (ground arith) (omega arith) ∙ ground arith
      ],
      λ q out. outside q (ground arith) ∙ ground arith,
    )
