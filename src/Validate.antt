-- ===== src/Validate.antt =====
-- The checks of a user's pointer in SystemCalls.c: ValidatePage, ValidateUserArg and
-- ValidateUserString. A read behind the end of the page table is `none`.
pub mod Pages
pub mod Strings
mod Tests
use theynix.Base.{
  ℕ, zero, suc, ◌+◌, ◌-◌, ◌*◌, ◌/◌, ◌%◌, ◌^◌, ◌≤◌, ◌<◌, ◌≡◌, ◌≢◌, ◌∙◌, ◌⊎◌, inl, inr, refl, sym, ap,
  Bool, true, false, not, ◌&&◌, ◌||◌, ◌==◌, Option, none, some, List, [], ◌∷◌, ◌++◌, ℤ, pos, negsuc,
  arith, if◌then◌else◌, ltb, leb, Bool-cases, Option-cases, length, take, drop, update,
}
use mathlib.Core.Option
use theynix.AddressSpace.{vmem_1_base, vmem_1_limit, addr_to_page}
use theynix.VMem.{PageTable, num_pages_reg_1}

-- `(prot & permissions) == permissions`, for numbers of `bits` bits.
pub contains_bits : (bits prot permissions : ℕ) → Bool
contains_bits zero prot permissions = true
contains_bits (suc bits) prot permissions =
    (permissions % 2 == 0 || prot % 2 == 1) && contains_bits bits (prot / 2) (permissions / 2)

-- `pages` is the process's region 1 page table.
pub validate_page : (page permissions : ℕ) (pages : PageTable) → Option Bool
unfolding contains_bits
validate_page page permissions pages =
    if ltb page num_pages_reg_1
    then some ((pages page).valid && contains_bits 32 (pages page).prot permissions)
    else none

-- The loop of ValidateUserArg from page `page` on.
pub validate_pages : (page rounds permissions : ℕ) (pages : PageTable) → Option Bool
unfolding validate_page
validate_pages page zero permissions pages = some true
validate_pages page (suc rounds) permissions pages = elim (validate_page page permissions pages) [
  | none ↦ none
  | some false ↦ some false
  | some true ↦ validate_pages (page + 1) rounds permissions pages
]

-- The rounds of that loop: `finish_page` is `start_page + (num_bytes >> PAGESHIFT)`, which is below
-- `start_page` when `num_bytes` is negative.
pages_spanned : ℤ → ℕ
pages_spanned (pos n) = n / 2 ^ 13 + 1
pages_spanned (negsuc n) = 0

pub validate_user_arg :
    (arg : ℕ) (num_bytes : ℤ) (permissions : ℕ) (pages : PageTable) → Option Bool
unfolding pages_spanned validate_pages
validate_user_arg arg num_bytes permissions pages =
    if leb vmem_1_limit arg || ltb arg vmem_1_base
    then some false
    else validate_pages (addr_to_page (arg - vmem_1_base)) (pages_spanned num_bytes) permissions
        pages

abbrev pub prot_read : ℕ
prot_read = 1

-- The loop of ValidateUserString from `str` on, in the user's memory; `none` for no more fuel.
pub validate_chars : (fuel str : ℕ) (memory : ℕ → ℕ) (pages : PageTable) → Option Bool
unfolding validate_page
validate_chars zero str memory pages = none
validate_chars (suc fuel) str memory pages =
    if memory str == 0
    then some true
    else elim (validate_page (addr_to_page (str + 1 - vmem_1_base)) prot_read pages) [
      | none ↦ none
      | some false ↦ some false
      | some true ↦ validate_chars fuel (str + 1) memory pages
    ]

-- Each round but the last moves on by an address, and VMEM_1_LIMIT is on no page of the table, so
-- that the fuel is enough.
pub validate_user_string : (str : ℕ) (memory : ℕ → ℕ) (pages : PageTable) → Option Bool
unfolding validate_chars
validate_user_string str memory pages =
    if leb vmem_1_limit str || ltb str vmem_1_base
    then some false
    else elim (validate_page (addr_to_page (str - vmem_1_base)) prot_read pages) [
      | none ↦ none
      | some false ↦ some false
      | some true ↦ validate_chars (vmem_1_limit - str) str memory pages
    ]
