-- ===== src/Validate/Tests.antt =====
-- The check of a pointer on a table whose pages 3 and 4 are mapped.
use theynix.Base.{
  ℕ, ◌+◌, ◌≤◌, ◌<◌, ◌≡◌, refl, true, ◌&&◌, some, pos, arith, if◌then◌else◌, ltb, leb, update,
}
use theynix.Validate.{
  validate_chars, validate_user_string, pages_spanned, contains_bits, validate_page, validate_pages,
  validate_user_arg,
}
use theynix.VMem.{PageTable, invalid_pte}
use theynix.Validate.Pages.{Allowed, validate_user_arg-misses, validate_user_arg-Allowed}
use theynix.AddressSpace.{vmem_1_base, vmem_1_limit}
use theynix.Validate.Strings.{Readable, validate_user_string-Readable}

abbrev two_pages : PageTable
two_pages q = record { valid = leb 3 q && leb q 4; prot = 3; pfn = q }

accepted : validate_user_arg 0x107FF6 (pos 10) 2 two_pages ≡ some true
unfolding validate_user_arg pages_spanned validate_pages validate_page contains_bits
accepted = refl

-- The last ten bytes of page 3.
validate_user_arg-Allowed_example :
    (vmem_1_base ≤ 0x107FF6)
    × (0x107FF6 < vmem_1_limit)
    × ((addr : ℕ) → 0x107FF6 ≤ addr → addr < 0x107FF6 + 10 → Allowed 2 two_pages addr)
validate_user_arg-Allowed_example =
    validate_user_arg-Allowed 0x107FF6 10 2 two_pages accepted (omega arith)

-- Twenty bytes from there on go into page 4.
validate_user_arg-misses_example :
    validate_user_arg 0x107FF6 (pos 20) 2 (update two_pages 4 invalid_pte)
    ≡ validate_user_arg 0x107FF6 (pos 20) 2 two_pages
validate_user_arg-misses_example =
    validate_user_arg-misses 0x107FF6 20 2 two_pages invalid_pte (omega arith) (omega arith)
      (omega arith)

-- Two characters and the end, from the start of page 3 on.
abbrev short_string : ℕ → ℕ
short_string addr = if ltb addr 0x106002 then 65 else 0

accepted_string : validate_user_string 0x106000 short_string two_pages ≡ some true
unfolding validate_user_string validate_chars validate_page contains_bits
accepted_string = refl

validate_user_string-Readable_example : (n : ℕ) × Readable short_string two_pages 0x106000 n
validate_user_string-Readable_example =
    validate_user_string-Readable 0x106000 short_string two_pages accepted_string
