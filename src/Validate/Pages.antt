-- ===== src/Validate/Pages.antt =====
-- What the page checks say of the addresses behind a user's pointer.
use theynix.Base.{
  ℕ, zero, suc, ◌+◌, ◌-◌, ◌*◌, ◌/◌, ◌%◌, ◌≤◌, ◌<◌, ◌≡◌, inl, inr, refl, true, ◌||◌, ◌==◌, some, pos,
  arith, ltb, leb, Bool-cases, Option-cases, update,
}
use theynix.AddressSpace.{addr_to_page, vmem_1_base, vmem_1_limit}
use theynix.Validate.{validate_page, pages_spanned, validate_pages, validate_user_arg}
use theynix.PMem.{Pte}
use theynix.VMem.{PageTable}

-- The user may access the address with the permissions.
abbrev pub Allowed : (permissions : ℕ) (pages : PageTable) (addr : ℕ) → Type 0
Allowed permissions pages addr =
    validate_page (addr_to_page (addr - vmem_1_base)) permissions pages ≡ some true

validate_pages-all :
    (page rounds permissions : ℕ) (pages : PageTable)
    → validate_pages page rounds permissions pages ≡ some true
    → (q : ℕ) → page ≤ q
    → q < page + rounds
    → validate_page q permissions pages ≡ some true
unfolding validate_pages
validate_pages-all page zero permissions pages ok q lo hi = absurd (omega arith)
validate_pages-all page (suc rounds) permissions pages ok q lo hi =
    elim (Option-cases (validate_page page permissions pages)) [
      | inl none_of ↦ absurd (ground (arith))
      | inr (b, found) ↦ elim (Bool-cases b) [
        | inr bad ↦ absurd (ground (arith))
        | inl good ↦ elim (Bool-cases (page == q)) [
          | inl now ↦ let same : page ≡ q = ground arith in rw (← same) (ground arith)
          | inr later ↦
              validate_pages-all (page + 1) rounds permissions pages (ground arith) q (ground arith)
                (omega arith)
        ]
      ]
    ]

validate_page-update :
    (page permissions last : ℕ) (pages : PageTable) (pte : Pte)
    → page < last
    → validate_page page permissions (update pages last pte) ≡ validate_page page permissions pages
unfolding validate_page
validate_page-update page permissions last pages pte far = ground arith

validate_pages-update :
    (page rounds permissions last : ℕ) (pages : PageTable) (pte : Pte)
    → page + rounds ≤ last
    → validate_pages page rounds permissions (update pages last pte)
      ≡ validate_pages page rounds permissions pages
unfolding validate_pages
validate_pages-update page zero permissions last pages pte far = refl
validate_pages-update page (suc rounds) permissions last pages pte far =
    let same : validate_page page permissions (update pages last pte)
        ≡ validate_page page permissions pages =
      validate_page-update page permissions last pages pte (omega arith) in
    let rest = validate_pages-update (page + 1) rounds permissions last pages pte (omega arith) in
    ground (arith, same, rest)

-- If ValidateUserArg accepts a pointer and a number of bytes, the user has the permissions on the
-- page of each of these bytes, provided that the bytes cross no more page borders than their number
-- has whole pages.
pub validate_user_arg-Allowed :
    (arg n permissions : ℕ) (pages : PageTable)
    → validate_user_arg arg (pos n) permissions pages ≡ some true
    → arg % 8192 + n ≤ 8192 * (n / 8192 + 1)
    → (vmem_1_base ≤ arg)
      × (arg < vmem_1_limit)
      × ((addr : ℕ) → arg ≤ addr → addr < arg + n → Allowed permissions pages addr)
unfolding validate_user_arg pages_spanned
validate_user_arg-Allowed arg n permissions pages ok fits =
    elim (Bool-cases (leb vmem_1_limit arg || ltb arg vmem_1_base)) [
      | inl out ↦ absurd (ground arith)
      | inr within ↦
          let run : validate_pages ((arg - 0x100000) / 8192) (n / 8192 + 1) permissions pages
              ≡ some true =
            ground arith in
          (
            ground arith,
            ground arith,
            λ addr lo hi.
                let base : 0x100000 ≤ arg = ground arith in
                validate_pages-all ((arg - 0x100000) / 8192) (n / 8192 + 1) permissions pages run
                  ((addr - 0x100000) / 8192) (omega arith) (omega arith),
          )
    ]

-- The check looks at too few pages when the bytes cross one more border: if the page of the last
-- byte lies behind the pages that are checked, ValidateUserArg says the same whatever that page is.
pub validate_user_arg-misses :
    (arg n permissions : ℕ) (pages : PageTable) (pte : Pte)
    → 8192 * (n / 8192 + 1) < arg % 8192 + n
    → vmem_1_base ≤ arg
    → arg < vmem_1_limit
    → let last = addr_to_page (arg + n - 1 - vmem_1_base) in
      validate_user_arg arg (pos n) permissions (update pages last pte)
      ≡ validate_user_arg arg (pos n) permissions pages
unfolding validate_user_arg pages_spanned
validate_user_arg-misses arg n permissions pages pte crosses lo hi =
    let same =
      validate_pages-update ((arg - 0x100000) / 8192) (n / 8192 + 1) permissions
        ((arg + n - 1 - 0x100000) / 8192) pages pte (omega arith) in
    ground (arith, same)
